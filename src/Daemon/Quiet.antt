-- ===== src/Daemon/Quiet.antt =====
-- daemon.c: going into the background changes no file.
use exact.Base.{ℕ, Bool, Option, none, some, [], ◌∷◌, refl, Bytes, if◌then◌else◌}
use exact.Os.{Os, Fork, fork_failed, child, parent}
use exact.Outcome.{exit, Arg, log_err, fork, sleep, stderr, ◌>>◌, pure, emit, die}
use exact.Outcome.Quiet.{IsQuiet, quiet, IsQuiet-option}
use exact.Conffile.Param.{Conf}
use exact.Daemon.{
  change_group, change_user, usergroup, dofork, sesslead, leave_terminal, rootdir, daemonize,
}

change_group-IsQuiet : (os : Os) (name : Option Bytes) → IsQuiet (change_group os name)
unfolding change_group
change_group-IsQuiet os none = search quiet depth 4
change_group-IsQuiet os (some name) =
    IsQuiet-option (os.getgrnam name) _ _ (search quiet depth 4) (λ gid. search quiet depth 8)

change_user-IsQuiet : (os : Os) (name : Option Bytes) → IsQuiet (change_user os name)
unfolding change_user
change_user-IsQuiet os none = search quiet depth 4
change_user-IsQuiet os (some name) =
    IsQuiet-option (os.getpwnam name) _ _ (search quiet depth 4) (λ uid. search quiet depth 8)

forked_parent : IsQuiet {A = Unit} (exit (fork ∷ []) 0)
unfolding IsQuiet
forked_parent = (refl, tt)

dofork-IsQuiet : (os : Os) (k : ℕ) (s : Bool) → IsQuiet (dofork os k s)
unfolding dofork
dofork-IsQuiet os k s = forked (os.fork k)
  where
    forked :
        (f : Fork)
        → IsQuiet {A = Unit} (elim f [
          | fork_failed ↦ die log_err "Fatal Error when forking\n" [] 61
          | child ↦
              emit fork
              >> (if s
                  then emit (stderr "Child sleeping - attach gdb to %d\n" (Arg.num os.getpid ∷ []))
                    >> emit (sleep 10)
                  else pure tt)
          | parent ↦ exit (fork ∷ []) 0
        ])
    forked fork_failed = search quiet depth 4
    forked child = search quiet depth 10
    forked parent = forked_parent

leave_terminal-IsQuiet : (os : Os) (s : Bool) → IsQuiet (leave_terminal os s)
unfolding leave_terminal sesslead
leave_terminal-IsQuiet os s = search (dofork-IsQuiet, quiet) depth 12

pub daemonize-IsQuiet : (os : Os) (conf : Conf) (f s : Bool) → IsQuiet (daemonize os conf f s)
unfolding daemonize usergroup rootdir
daemonize-IsQuiet os conf f s =
    search (change_group-IsQuiet, change_user-IsQuiet, leave_terminal-IsQuiet, quiet) depth 18
