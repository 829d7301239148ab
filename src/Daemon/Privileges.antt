-- ===== src/Daemon/Privileges.antt =====
-- daemon.c: the process becomes the configured user before it changes a file.
use exact.Base.{ℕ, Option, none, some, [], ◌∷◌, ◌≡◌, refl, inl, inr, Bytes, codes, Bool-cases}
use exact.Os.{Os}
use exact.Outcome.{log, log_debug}
use exact.Outcome.Quiet.{
  IsQuiet, DropsFirst, Drops, Confined, IsQuiet-bind-DropsFirst, DropsFirst-bind,
  IsQuiet-after-DropsFirst, IsQuiet-option,
}
use exact.Conffile.Param.{conffile_param}
use exact.Daemon.{change_group, change_user, usergroup, daemonize}
use exact.Auth.Table.{Auth}
use exact.Tail.{Tail}
use exact.Match.Login.{MatchLogin}
use exact.Exact.Main.{Configured, serve}

change_group-IsQuiet : (os : Os) (name : Option Bytes) → IsQuiet (change_group os name)
unfolding change_group IsQuiet
change_group-IsQuiet os none = tt
change_group-IsQuiet os (some name) =
    IsQuiet-option (os.getgrnam name) _ _ (refl, tt)
      (λ gid. elim (Bool-cases (os.setgid gid)) [
        | inl ok ↦ rw ok (refl, (refl, tt))
        | inr failed ↦ rw failed (refl, tt)
      ])

change_user-DropsFirst :
    (os : Os) (name : Bytes) (uid : ℕ)
    → os.getpwnam name ≡ some uid
    → DropsFirst uid (change_user os (some name))
unfolding change_user DropsFirst Drops Confined
change_user-DropsFirst os name uid known = elim (Bool-cases (os.setuid uid)) [
  | inl ok ↦ rw (known, ok, change_user) (inl refl)
  | inr failed ↦ rw (known, failed, change_user) (inr (refl, tt))
]

module _ (os : ℕ → Os) (c : Configured) (name : Bytes) (uid : ℕ)
    (configured : conffile_param c.conf (codes "user") ≡ some name)
    (known : (os 6).getpwnam name ≡ some uid) where
  usergroup-DropsFirst : DropsFirst uid (usergroup (os 6) c.conf)
  unfolding usergroup
  usergroup-DropsFirst =
      IsQuiet-bind-DropsFirst uid (change_group (os 6) (conffile_param c.conf (codes "group"))) _
        (change_group-IsQuiet (os 6) _)
        (λ _. rw configured (change_user-DropsFirst (os 6) name uid known))

  daemonize-DropsFirst : DropsFirst uid (daemonize (os 6) c.conf c.cmd.foreground c.cmd.sleep)
  unfolding daemonize
  daemonize-DropsFirst =
      IsQuiet-after-DropsFirst uid (log log_debug "changing user and group\n" [] ∷ []) _ (refl, tt)
        (DropsFirst-bind uid (usergroup (os 6) c.conf) _ usergroup-DropsFirst)

  -- With a user that is configured and known to the system, main behind match_init changes no
  -- file before its setuid to that user, whatever fails; and if it comes to its loop, the setuid
  -- has been made.
  pub serve-DropsFirst :
      (a : Auth) (t : Tail) (login : MatchLogin) → DropsFirst uid (serve os a t login c)
  unfolding serve
  serve-DropsFirst a t login = DropsFirst-bind uid _ _ daemonize-DropsFirst
