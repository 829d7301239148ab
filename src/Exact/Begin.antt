-- ===== src/Exact/Begin.antt =====
-- daemon.c, logger.c, exact.c: the steps of the start that never fault.
use exact.Base.{ℕ, Bool, Option, none, some, [], ◌∷◌, ◌≡◌, Bytes, codes, if◌then◌else◌}
use exact.Os.{Os, Fork, fork_failed, child, parent}
use exact.Outcome.{◌>>◌, pure, emit, die, log_err, Arg, exit, fork, sleep, stderr}
use exact.Outcome.Faultless.{IsFaultless, faultless, IsFaultless-option}
use exact.Conffile.Param.{Conf, conffile_param}
use exact.Logger.{Logger, logger_init, open_stream}
use exact.Daemon.{
  daemonize, usergroup, change_group, change_user, leave_terminal, dofork, sesslead, rootdir,
}
use exact.Exact.Main.{Configured, choose_log, reopen_log}
use exact.Exact.Pid.{writepid}

change_group-IsFaultless : (os : Os) (o : Option Bytes) → IsFaultless (change_group os o)
unfolding change_group
change_group-IsFaultless os none = search faultless depth 4
change_group-IsFaultless os (some name) =
    IsFaultless-option (os.getgrnam name) _ _ (search faultless depth 4)
      (λ gid. search faultless depth 8)

change_user-IsFaultless : (os : Os) (o : Option Bytes) → IsFaultless (change_user os o)
unfolding change_user
change_user-IsFaultless os none = search faultless depth 4
change_user-IsFaultless os (some name) =
    IsFaultless-option (os.getpwnam name) _ _ (search faultless depth 4)
      (λ uid. search faultless depth 8)

usergroup-IsFaultless : (os : Os) (conf : Conf) → IsFaultless (usergroup os conf)
unfolding usergroup
usergroup-IsFaultless os conf =
    search (change_group-IsFaultless, change_user-IsFaultless, faultless) depth 6

dofork-IsFaultless : (os : Os) (k : ℕ) (s : Bool) → IsFaultless (dofork os k s)
unfolding dofork
dofork-IsFaultless os k s = forked (os.fork k)
  where
    forked :
        (f : Fork)
        → IsFaultless {A = Unit} (elim f [
          | fork_failed ↦ die log_err "Fatal Error when forking\n" [] 61
          | child ↦
              emit fork
              >> (if s
                  then emit (stderr "Child sleeping - attach gdb to %d\n" (Arg.num os.getpid ∷ []))
                    >> emit (sleep 10)
                  else pure tt)
          | parent ↦ exit (fork ∷ []) 0
        ])
    forked fork_failed = search faultless depth 4
    forked child = search faultless depth 10
    forked parent = search faultless depth 4

leave_terminal-IsFaultless : (os : Os) (s : Bool) → IsFaultless (leave_terminal os s)
unfolding leave_terminal sesslead
leave_terminal-IsFaultless os s = search (dofork-IsFaultless, faultless) depth 12

pub daemonize-IsFaultless :
    (os : Os) (conf : Conf) (f s : Bool) → IsFaultless (daemonize os conf f s)
unfolding daemonize rootdir
daemonize-IsFaultless os conf f s =
    search (usergroup-IsFaultless, leave_terminal-IsFaultless, faultless) depth 16

open_stream-IsFaultless : (os : Os) (path : Option Bytes) → IsFaultless (open_stream os path)
unfolding open_stream
open_stream-IsFaultless os none = search faultless depth 4
open_stream-IsFaultless os (some path) = search faultless depth 8

logger_init-IsFaultless :
    (os : Os) (u d : Bool) (logfile : Option Bytes) (l : Logger)
    → IsFaultless (logger_init os u d logfile l)
unfolding logger_init
logger_init-IsFaultless os u d logfile l = search (open_stream-IsFaultless, faultless) depth 10

pub reopen_log-IsFaultless : (os : Os) (c : Configured) (u : Bool) → IsFaultless (reopen_log os c u)
unfolding reopen_log
reopen_log-IsFaultless os c u = search (logger_init-IsFaultless, faultless) depth 10

pub choose_log-IsFaultless :
    (conf : Conf) (logging : Bytes)
    → conffile_param conf (codes "logging") ≡ some logging
    → IsFaultless (choose_log conf)
unfolding choose_log
choose_log-IsFaultless conf logging is = search (is, faultless) depth 10

pub writepid-IsFaultless :
    (os : Os) (conf : Conf) (pidfile : Bytes)
    → conffile_param conf (codes "pidfile") ≡ some pidfile
    → IsFaultless (writepid os conf)
unfolding writepid
writepid-IsFaultless os conf pidfile is = search (is, faultless) depth 12
