-- ===== src/Exact/Pid.antt =====
-- exact.c: the pid file, and the end of the process.
use exact.Base.{Option, none, some, [], ◌∷◌, Bytes, codes, if◌then◌else◌}
use exact.Base.Int.{ℤ}
use exact.Libc.{atoi}
use exact.Os.{Os}
use exact.Outcome.{
  Outcome, exit, Arg, log_err, log_debug, creat, chmod, fprintf, unlink, ◌>>=◌, ◌>>◌, pure, emit,
  logger, die, deref,
}
use exact.Conffile.Param.{Conf, conffile_param}
use exact.Conffile.Check.{is_zero}
use exact.Auth.Handlers.{auth_exit}
use exact.Exact.Cmdline.{CommandLine}

-- The pid that the file holds, against the processes that run. (`fscanf` by `%d` leaves 0 where it
-- finds no number.)
unfoldable pub check_process : Os → ℤ → Outcome (Unit {0})
check_process os opid =
    if is_zero opid
    then pure tt
    else if os.kill opid
    then die log_err "Exact is already running, with pid %d\n" (Arg.int opid ∷ []) 41
    else pure tt

-- The file that `fopen` gave, if it did.
unfoldable pub check_file : Os → Option Bytes → Outcome (Unit {0})
unfolding check_process
check_file os none = pure tt
check_file os (some text) = check_process os (atoi text)

unfoldable pub checkpid : Os → Conf → Outcome (Unit {0})
unfolding check_file
checkpid os conf = do
  pidfile ← deref (conffile_param conf (codes "pidfile"))
  check_file os (os.readable pidfile)
  logger log_debug "exact is not already running\n" []

unfoldable pub writepid : Os → Conf → Outcome (Unit {0})
writepid os conf = do
  pidfile ← deref (conffile_param conf (codes "pidfile"))
  if os.writable pidfile
      then emit (creat pidfile)
      else die log_err "Cannot write to pid file %s\n" (Arg.str pidfile ∷ []) 42
  emit (chmod pidfile 0o640)
  logger log_debug "Writing pid to %s\n" (Arg.str pidfile ∷ [])
  emit (fprintf pidfile "%d" (Arg.num os.getpid ∷ []))

-- `unlink`, whose result is ignored.
abbrev pub remove : Os → Bytes → Outcome (Unit {0})
remove os path = if os.unlink path then emit (unlink path) else pure tt

-- The handler of signal 15.
unfoldable pub exit_handler : Os → CommandLine → Conf → Outcome (Unit {0})
unfolding auth_exit
exit_handler os cmd conf = do
  pidfile ← deref (conffile_param conf (codes "pidfile"))
  remove os pidfile
  auth_exit
  if cmd.preserve
      then pure tt
      else (deref (conffile_param conf (codes "authfile")) >>= λ authfile. remove os authfile)
  logger log_err "terminated\n" []
  exit [] 0
