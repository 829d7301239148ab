-- ===== src/Exact/Run/Ready.antt =====
-- exact.c: the start of the daemon leaves the relay file and the world as the loop needs them.
use exact.Base.{true}
use exact.Base.{ℕ, ◌≢◌, some, [], ◌∷◌, ◌≡◌, refl, Bytes, codes, if◌then◌else◌}
use exact.Os.{Os}
use exact.Outcome.{
  Outcome, ◌>>=◌, ◌>>◌, pure, emit, logger, log_err, log_notice, Arg, signal, exit, deref,
}
use exact.Outcome.Files.{Printing, Files}
use exact.Outcome.Quiet.{IsQuiet-emit, quiet}
use exact.Outcome.Triple.{Content, Leaves, Triple, Triple-bind, Triple-pure, Triple-exit, Triple-if}
use exact.Conffile.Param.{conffile_param}
use exact.Auth.Table.{Auth}
use exact.Auth.Handlers.{auth_init}
use exact.Auth.Publish.{host_lines}
use exact.Tail.{Tail, tail_open}
use exact.Match.Login.{MatchLogin}
use exact.Daemon.{daemonize}
use exact.Daemon.Quiet.{daemonize-IsQuiet}
use exact.Logger.{Logger}
use exact.Exact.Main.{Configured, Process, choose_log, reopen_log, serve}
use exact.Exact.Pid.{writepid}
use exact.Exact.Run.First.{
  Anything, Lists, first, spared, auth_init-Lists, writepid-Spares, reopen_log-Spares,
  choose_log-IsQuiet, tail_open-IsQuiet,
}
use exact.Auth.Table.{initial}
use exact.Match.Login.{login_size}
use exact.Exact.Cmdline.{CommandLine}
use exact.Exact.Run.Machine.{Settings}
use exact.Exact.Run.Started.{configured, Begun, serve-Begun}
use exact.Outcome.{Ends}
use exact.Base.{length}

module _ (printing : Printing) (file : Bytes) (log_apart : printing.log_file ≢ some file) (os : Os)
    (c : Configured) (t : Tail) (login : MatchLogin) (a : Auth) (l : Logger) where
  abbrev Q : Process → Content
  Q p = Lists p.world.auth.auth

  abbrev looping : Tail → Process
  looping u = record {
    cmd = c.cmd;
    log_state = l;
    world = record { conf = c.conf; auth = a; tail = u; patbuf = c.patbuf; login = login };
  }

  -- From the first `signal` to the loop.
  abbrev rest : Outcome Process
  rest =
      emit (signal 1 "conffile_reload")
      >> (emit (signal 10 "auth_dump")
          >> (emit (signal 15 "exit_handler")
              >> (tail_open os c.conf t >>= λ r.
                  if r.1
                  then logger log_notice "running\n" [] >> pure (looping r.0)
                  else (deref (conffile_param c.conf (codes "maillog")) >>= λ maillog.
                      logger log_err "open of %s failed.  Quitting.\n" (Arg.str maillog ∷ [])
                      >> exit [] 2))))

  rest-Lists : Triple printing file Anything (Lists a.auth) Q rest
  rest-Lists =
      let P = Lists a.auth in
      first printing file log_apart P Q (emit (signal 1 "conffile_reload")) _
        (IsQuiet-emit (signal 1 "conffile_reload") refl)
        (λ _.
          first printing file log_apart P Q (emit (signal 10 "auth_dump")) _
            (IsQuiet-emit (signal 10 "auth_dump") refl)
            (λ _.
              first printing file log_apart P Q (emit (signal 15 "exit_handler")) _
                (IsQuiet-emit (signal 15 "exit_handler") refl)
                (λ _.
                  first printing file log_apart P Q (tail_open os c.conf t) _
                    (tail_open-IsQuiet os c.conf t)
                    (λ r.
                      Triple-if printing file Anything P Q r.1 _ _
                        (first printing file log_apart P Q (logger log_notice "running\n" []) _
                          (search quiet depth 4)
                          (λ _.
                            Triple-pure printing file Anything P Q (looping r.0) (λ c l. (tt, l))))
                        (first printing file log_apart P Q
                          (deref (conffile_param c.conf (codes "maillog"))) _ (search quiet depth 4)
                          (λ maillog.
                            first printing file log_apart P Q
                              (logger log_err "open of %s failed.  Quitting.\n"
                                (Arg.str maillog ∷ []))
                              _ (search quiet depth 4)
                              (λ _. Triple-exit printing file Anything P Q 2 (λ c l. tt))))))))

serve-Lists :
    (printing : Printing) (os : ℕ → Os) (c : Configured) (a : Auth) (t : Tail) (login : MatchLogin)
    (temp file pidfile : Bytes) (fs : Files)
    → conffile_param c.conf (codes "authtemp") ≡ some temp
    → conffile_param c.conf (codes "authfile") ≡ some file
    → conffile_param c.conf (codes "pidfile") ≡ some pidfile
    → temp ≢ file
    → pidfile ≢ file
    → a.auth ≡ []
    → printing.log_file ≢ some file
    → ((logfile : Bytes) → conffile_param c.conf (codes "logfile") ≡ some logfile → logfile ≢ file)
    → Leaves printing file
        (λ (p : Process) c. c ≡ some (host_lines p.world.auth.auth))
        (serve os a t login c)
        fs
unfolding serve Triple
serve-Lists printing os c a t login temp file pidfile fs has_temp has_file has_pid apart pid_apart
      empty log_apart logfile_apart =
    let Q : Process → Content = λ p. Lists p.world.auth.auth in
    (first printing file log_apart Anything Q (daemonize (os 6) c.conf c.cmd.foreground c.cmd.sleep)
      _ (daemonize-IsQuiet (os 6) c.conf c.cmd.foreground c.cmd.sleep)
      (λ _.
        Triple-bind printing file Anything Anything (λ (b : Auth). Lists b.auth) Q
          (auth_init (os 7) c.conf a) _
          (auth_init-Lists printing file log_apart c.conf temp apart has_temp has_file (os 7) a
            empty)
          (λ b.
            first printing file log_apart (Lists b.auth) Q (choose_log c.conf) _
              (choose_log-IsQuiet c.conf)
              (λ u.
                spared printing file log_apart (Lists b.auth) Q (reopen_log (os 8) c u) _
                  (reopen_log-Spares printing file log_apart (os 8) c u logfile_apart)
                  (λ l.
                    spared printing file log_apart (Lists b.auth) Q (writepid (os 9) c.conf) _
                      (writepid-Spares printing file log_apart pidfile pid_apart (os 9) c.conf
                        has_pid)
                      (λ _. rest-Lists printing file log_apart (os 10) c t login b l)))))
      fs tt).1

-- With the parameters of the loop and those for the log and the pid file set, the paths of the temporary
-- file, the pid file and the log file, both the configured one and that of the logger, apart from the
-- relay file's, a pattern that was compiled, and
-- memory for the buffer: the part of `main` from `daemonize` to the loop never faults. It exits, or it
-- comes to the loop in a world that shows a first view: no host in a valid table, and the log that it
-- watches open at its end; and the relay file lists that table.
pub serve-Begins :
    (S : Settings) (printing : Printing) (os : ℕ → Os) (t : Tail) (login : MatchLogin)
    (cmd : CommandLine) (log_state : Logger) (logging pidfile : Bytes) (fs : Files)
    → length login.memory ≡ login_size
    → (os 10).realloc 1024 ≡ true
    → conffile_param S.conf (codes "logging") ≡ some logging
    → conffile_param S.conf (codes "pidfile") ≡ some pidfile
    → S.temp ≢ S.file
    → pidfile ≢ S.file
    → printing.log_file ≢ some S.file
    → ((logfile : Bytes)
        → conffile_param S.conf (codes "logfile") ≡ some logfile
        → logfile ≢ S.file)
    → Ends
        (λ _. Unit)
        (λ p. Begun S (os 10) p.world)
        (serve os initial t login (configured S cmd log_state))
      × Leaves printing S.file
          (λ (p : Process) c. c ≡ some (host_lines p.world.auth.auth))
          (serve os initial t login (configured S cmd log_state))
          fs
serve-Begins S printing os t login cmd log_state logging pidfile fs size memory has_logging has_pid
      apart pid_apart log_apart logfile_apart =
    (
      serve-Begun S os login cmd log_state size memory logging pidfile has_logging has_pid t,
      serve-Lists printing os (configured S cmd log_state) initial t login S.temp S.file pidfile fs
          S.has_temp S.has_file has_pid apart pid_apart refl log_apart logfile_apart,
    )
