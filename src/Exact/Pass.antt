-- ===== src/Exact/Pass.antt =====
-- What the lines of a pass do to the database: every login recorded, nothing else changed.
use mathlib.Core.Path.{fun_ext}
use native.Mathlib.Decide.{dec_lt}
use exact.Base.{
  ℕ, ◌+◌, ◌-◌, ◌<◌, Option, none, some, List, [], ◌∷◌, ◌++◌, ◌≡◌, refl, ap, ◌∙◌, Bytes, codes,
  arith, if◌then◌else◌, length, take, drop, All, length-take,
}
use exact.Libc.{str_eq}
use exact.Os.{Os, no_match}
use exact.Outcome.{pure, Ends}
use exact.Outcome.Laws.{Ends-bind, Ends-map}
use exact.Conffile.Param.{Conf, conffile_param}
use exact.Auth.Table.Sorted.{times}
use exact.Auth.Invariant.{IsValid}
use exact.Auth.Add.{Refused, Added, auth_text_add-Ends}
use exact.Auth.Text.{auth_text_add}
use exact.Auth.Handlers.{auth_add}
use exact.Match.{match_line}
use exact.Match.Login.{MatchLogin, username, hostname, username_max, hostname_max, login_size}
use exact.Match.Reads.{NonZero}
use exact.Match.Line.{Matches, Names, text, match_line-Names, match_line-overread}
use exact.Exact.{World, add_login, handle_line}
use exact.Exact.Lines.{handle_lines}

-- The table is in order, and the static structure has its size.
pub record IsSound (w : World) : Type 0 where
  pub valid : IsValid w.auth
  pub memory : length w.login.memory ≡ login_size

abbrev HostIs : Bytes → Option MatchLogin → Type 0
HostIs h none = ⊥
HostIs h (some l) = (hostname l ≡ h) × (length l.memory ≡ login_size)

Names-HostIs : (u h : Bytes) (r : Option MatchLogin) → Names u h r → HostIs h r
Names-HostIs u h none n = n
Names-HostIs u h (some l) n = (n.1, n.2)

-- What the pattern says of a line: no login, or one whose host fits its array.
pub data Verdict (os : Os) (conf : Conf) (pattern_ line : Bytes) : Type 0 where
  refuses : os.regexec pattern_ line ≡ no_match → Verdict os conf pattern_ line
  accepts :
      (m : Matches os conf pattern_ line)
      → m.host.eo - m.host.so < hostname_max
      → Verdict os conf pattern_ line

-- The map of hosts to times behind the line.
abbrev pub note :
    {os : Os} {conf : Conf} {pattern_ line : Bytes}
    → Verdict os conf pattern_ line
    → (Bytes → Option ℕ)
    → Bytes
    → Option ℕ
note (refuses _) f k = f k
note {os} (accepts m _) f k = if str_eq (text m.host) k then some (os.time 0) else f k

module _ (conf : Conf) (temp file order pattern_ : Bytes)
    (has_temp : conffile_param conf (codes "authtemp") ≡ some temp)
    (has_file : conffile_param conf (codes "authfile") ≡ some file)
    (has_order : conffile_param conf (codes "order") ≡ some order) where
  -- The database is set up with this configuration and pattern.
  pub record Runs (w : World) : Type 0 where
    pub conf_is : w.conf ≡ conf
    pub pattern_is : w.patbuf ≡ some pattern_
    pub sound : IsSound w

  -- The world behind a line: still set up, and with the new map.
  abbrev pub Handled : (Bytes → Option ℕ) → World → Type 0
  Handled f w = Runs w × ((k : Bytes) → times w.auth.auth k ≡ f k)

  module _ (os : Os) (line : Bytes) where
    match_line-HostIs :
        (l : MatchLogin) (m : Matches os conf pattern_ line)
        → NonZero line
        → length l.memory ≡ login_size
        → m.host.eo - m.host.so < hostname_max
        → Ends (λ _. ⊥) (HostIs (text m.host)) (match_line os conf (some pattern_) line l)
    match_line-HostIs l m clean size short = elim (dec_lt (m.user.eo - m.user.so) username_max) [
      | yes fits ↦
          Ends-map (λ _. ⊥) (λ _. ⊥) (Names (text m.user) (text m.host)) (HostIs (text m.host)) _
            (match_line-Names os conf pattern_ line l m clean size fits short) (λ _ e. e)
            (Names-HostIs (text m.user) (text m.host))
      | no over ↦
          Ends-map (λ _. ⊥) (λ _. ⊥)
            (Names (take username_max (drop m.user.so line) ++ text m.host) (text m.host))
            (HostIs (text m.host)) _
            (match_line-overread os conf pattern_ line l m clean size (omega arith) short)
            (λ _ e. e)
            (Names-HostIs (take username_max (drop m.user.so line) ++ text m.host) (text m.host))
    ]

    add_login-Ends :
        (w : World) (h : Bytes) (r : Option MatchLogin)
        → Runs w
        → length h < hostname_max
        → HostIs h r
        → Ends
            (Refused os temp file)
            (Handled (λ k. if str_eq h k then some (os.time 0) else times w.auth.auth k))
            (add_login os w r)
    unfolding add_login auth_add
    add_login-Ends w h none run short is = absurd is
    add_login-Ends w h (some l) run short is =
        Ends-bind (Refused os temp file) (Added (os.time 0) h w.auth)
          (Handled (λ k. if str_eq h k then some (os.time 0) else times w.auth.auth k))
          (auth_text_add os w.conf (username l) (hostname l) w.auth)
          (λ a. pure (record w { auth = a; login = l }))
          (rw (run.conf_is, is.0)
            (auth_text_add-Ends os conf temp file has_temp has_file (username l) h w.auth
              run.sound.valid short))
          λ a added. (
            record {
              conf_is = run.conf_is;
              pattern_is = run.pattern_is;
              sound = record { valid = added.0; memory = is.1 };
            },
            added.1,
          )

    match_line-none :
        (l : MatchLogin)
        → os.regexec pattern_ line ≡ no_match
        → Ends (λ _. ⊥) (λ r. r ≡ none) (match_line os conf (some pattern_) line l)
    unfolding match_line
    match_line-none l none_found = rw (has_order, none_found) refl

    handle_line-refuses :
        (w : World)
        → os.regexec pattern_ line ≡ no_match
        → Runs w
        → Ends (Refused os temp file) (Handled (times w.auth.auth)) (handle_line os line w)
    unfolding handle_line
    handle_line-refuses w none_found run =
        Ends-bind (Refused os temp file) (λ r. r ≡ none) (Handled (times w.auth.auth))
          (match_line os w.conf w.patbuf line w.login) (add_login os w)
          (Ends-map (λ _. ⊥) (Refused os temp file) (λ r. r ≡ none) (λ r. r ≡ none)
            (match_line os w.conf w.patbuf line w.login)
            (rw (run.conf_is, run.pattern_is) (match_line-none w.login none_found))
            (λ _ e. absurd e) (λ _ is. is))
          λ r is. rw is (run, λ k. refl)

    handle_line-accepts :
        (w : World) (m : Matches os conf pattern_ line)
        → m.host.eo - m.host.so < hostname_max
        → Runs w
        → NonZero line
        → Ends
            (Refused os temp file)
            (Handled
              (λ k. if str_eq (text m.host) k then some (os.time 0) else times w.auth.auth k))
            (handle_line os line w)
    unfolding handle_line
    handle_line-accepts w m short run clean =
        Ends-bind (Refused os temp file) (HostIs (text m.host))
          (Handled (λ k. if str_eq (text m.host) k then some (os.time 0) else times w.auth.auth k))
          (match_line os w.conf w.patbuf line w.login) (add_login os w)
          (Ends-map (λ _. ⊥) (Refused os temp file) (HostIs (text m.host)) (HostIs (text m.host))
            (match_line os w.conf w.patbuf line w.login)
            (rw (run.conf_is, run.pattern_is)
              (match_line-HostIs w.login m clean run.sound.memory short))
            (λ _ e. absurd e) (λ _ is. is))
          λ r is.
            add_login-Ends w (text m.host) r run
              (omega (arith, length-take (m.host.eo - m.host.so) (drop m.host.so line))) is

    -- A line: no fault, and the map of hosts changes as the pattern's verdict says.
    pub handle_line-Ends :
        (w : World) (v : Verdict os conf pattern_ line)
        → Runs w
        → NonZero line
        → Ends (Refused os temp file) (Handled (note v (times w.auth.auth))) (handle_line os line w)
    handle_line-Ends w (refuses none_found) run clean = handle_line-refuses w none_found run
    handle_line-Ends w (accepts m short) run clean = handle_line-accepts w m short run clean

  module _ (os : ℕ → Os) where
    -- A verdict on each line, by the system's record of its turn.
    abbrev pub Verdicts : ℕ → List Bytes → Type 0
    Verdicts k [] = Unit
    Verdicts k (l ∷ ls) = Verdict (os k) conf pattern_ l × Verdicts (k + 1) ls

    -- The map behind all lines.
    abbrev pub note_all :
        (k : ℕ) (ls : List Bytes) → Verdicts k ls → (Bytes → Option ℕ) → Bytes → Option ℕ
    note_all k [] vs f = f
    note_all k (l ∷ ls) vs f = note_all (k + 1) ls vs.1 (note vs.0 f)

    abbrev pub GivesUp : ℕ → Type 0
    GivesUp n = (k : ℕ) × Refused (os k) temp file n

    -- In a world that is set up with the file parameters, the order and the pattern, on lines
    -- without zero bytes that the pattern each refuses or matches with both groups inside the
    -- line and a host below 255 bytes: the lines of a pass never fault. They either give up
    -- where the system refuses memory or a file at some line; or they leave a valid world whose
    -- map from hosts to times is the old one with each line's login noted in turn, and nothing
    -- else.
    pub handle_lines-Ends :
        (k : ℕ) (ls : List Bytes) (vs : Verdicts k ls) (w : World) (f : Bytes → Option ℕ)
        → Handled f w
        → All NonZero ls
        → Ends GivesUp (Handled (note_all k ls vs f)) (handle_lines os k ls w)
    handle_lines-Ends k [] vs w f h clean = h
    handle_lines-Ends k (l ∷ ls) vs w f h clean =
        Ends-bind GivesUp (Handled (note vs.0 f)) (Handled (note_all (k + 1) ls vs.1 (note vs.0 f)))
          (handle_line (os k) l w) (handle_lines os (k + 1) ls)
          (Ends-map (Refused (os k) temp file) GivesUp (Handled (note vs.0 (times w.auth.auth)))
            (Handled (note vs.0 f)) _ (handle_line-Ends (os k) l w vs.0 h.0 clean.0) (λ n e. (k, e))
            (λ w' d. (d.0, λ key. d.1 key ∙ ap (λ g. note vs.0 g key) (fun_ext h.1))))
          λ w' d. handle_lines-Ends (k + 1) ls vs.1 w' (note vs.0 f) d clean.1
