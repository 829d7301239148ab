-- ===== src/Exact/Main.antt =====
-- exact.c: `main`, up to its endless loop of `onepass`. The k-th stage of the start meets the k-th
-- record of the system.
use exact.Base.{ℕ, Bool, true, false, not, ◌&&◌, none, List, [], ◌∷◌, codes, if◌then◌else◌}
use exact.Libc.{str_eq}
use exact.Os.{Os}
use exact.Outcome.{
  Outcome, exit, signal, Arg, log_err, log_notice, log_debug, ◌>>=◌, ◌>>◌, pure, emit, logger, die,
  deref,
}
use exact.Logger.{Logger, logger_init}
use exact.Conffile.Param.{Conf, conffile_param}
use exact.Conffile.File.{conffile_read}
use exact.Conffile.Check.{conffile_check}
use exact.Match.{Pattern, match_init}
use exact.Match.Login.{MatchLogin}
use exact.Daemon.{daemonize}
use exact.Auth.Table.{Auth}
use exact.Auth.Handlers.{auth_init}
use exact.Tail.{Tail, tail_open}
use exact.Exact.{World}
use exact.Exact.Cmdline.{CommandLine, Getopt, cmdline}
use exact.Exact.Pid.{checkpid, writepid}

-- What stands behind `match_init`.
pub record Configured : Type 0 where
  pub cmd : CommandLine
  pub log_state : Logger
  pub conf : Conf
  pub patbuf : Pattern

-- The whole process in its loop.
pub record Process : Type 0 where
  pub cmd : CommandLine
  pub log_state : Logger
  pub world : World

-- From the start to `match_init`.
unfoldable pub configure : (ℕ → Os) → List Getopt → Conf → Outcome Configured
unfolding cmdline logger_init conffile_read conffile_check checkpid match_init
configure os opts conf = do
  (cmd, named) ← cmdline (os 0) opts conf
  log_state ← logger_init (os 1) false cmd.debug none exact.Logger.initial
  read ← conffile_read (os 2) named
  checked ← conffile_check (os 3) read
  checkpid (os 4) checked
  patbuf ← match_init (os 5) checked
  pure (record { cmd = cmd; log_state = log_state; conf = checked; patbuf = patbuf })

-- The choice of the log by the parameter `logging`.
unfoldable pub choose_log : Conf → Outcome Bool
choose_log conf = do
  logging ← deref (conffile_param conf (codes "logging"))
  if str_eq (codes "syslog") logging
      then pure true
      else if str_eq (codes "internal") logging
      then pure false
      else die log_err "logging parameter is neither syslog nor internal\n" [] 100

-- The second `logger_init`. Debug messages never go to syslog, since the watched log may be its
-- own.
unfoldable pub reopen_log : Os → Configured → Bool → Outcome Logger
unfolding logger_init
reopen_log os c use_syslog =
    if c.cmd.foreground then logger_init os false c.cmd.debug none c.log_state else (do
      l ←
          logger_init os use_syslog (not use_syslog && c.cmd.debug)
            (conffile_param c.conf (codes "logfile")) c.log_state
      logger log_debug "Daemonized\n" []
      pure l)

-- From `daemonize` to the loop.
unfoldable pub serve : (ℕ → Os) → Auth → Tail → MatchLogin → Configured → Outcome Process
unfolding daemonize auth_init choose_log reopen_log writepid tail_open
serve os a t login c = do
  daemonize (os 6) c.conf c.cmd.foreground c.cmd.sleep
  auth ← auth_init (os 7) c.conf a
  use_syslog ← choose_log c.conf
  log_state ← reopen_log (os 8) c use_syslog
  writepid (os 9) c.conf
  emit (signal 1 "conffile_reload")
  emit (signal 10 "auth_dump")
  emit (signal 15 "exit_handler")
  (tail, opened) ← tail_open (os 10) c.conf t
  let world : World = record {
    conf = c.conf;
    auth = auth;
    tail = tail;
    patbuf = c.patbuf;
    login = login;
  }
  let process : Process = record { cmd = c.cmd; log_state = log_state; world = world }
  if opened
      then logger log_notice "running\n" [] >> pure process
      else (deref (conffile_param c.conf (codes "maillog")) >>= λ maillog.
          logger log_err "open of %s failed.  Quitting.\n" (Arg.str maillog ∷ []) >> exit [] 2)

unfoldable pub main : (ℕ → Os) → List Getopt → Conf → Auth → Tail → MatchLogin → Outcome Process
unfolding configure serve
main os opts conf a t login = configure os opts conf >>= serve os a t login
