-- ===== src/Exact/Silence.antt =====
-- exact.c: no debug message reaches syslog, which may be the log that the daemon watches.
use mathlib.Core.Path.{subst}
use exact.Base.{sym}
use exact.Base.{
  ℕ, Bool, true, false, not, ◌&&◌, Option, none, some, List, [], ◌∷◌, ◌≡◌, refl, Bytes, codes,
  if◌then◌else◌, Bool-cases, inl, inr, All,
}
use exact.Os.{Os}
use exact.Outcome.{
  Trace, Arg, log, openlog, pure, emit, deref, log_notice, log_err, signal, log_debug, ◌>>◌,
}
use exact.Outcome.Returns.{
  Returns, Returns-after, Returns-bind, Returns-then, Returns-done, Returns-exit, Returns-map,
  Returns-if,
}
use exact.Logger.{
  Logger, Message, Destination, Stream, standard_error, printed, syslog, is_debug, logger_init,
  open_stream, written,
}
use exact.Logger.Written.{written-selected, selected, destination_of}
use exact.Conffile.Param.{Conf, conffile_param}
use exact.Auth.Table.{Auth}
use exact.Auth.Handlers.{auth_init}
use exact.Tail.{Tail, tail_open}
use exact.Match.Login.{MatchLogin}
use exact.Daemon.{daemonize}
use exact.Exact.Cmdline.{Getopt}
use exact.Exact.Pid.{writepid}
use exact.Exact.Main.{Configured, Process, configure, choose_log, reopen_log, serve, main}

-- The logger does not both use syslog and let debug messages through.
abbrev pub IsLoopFree : Logger → Type 0
IsLoopFree l = (l.use_syslog && l.debug) ≡ false

logger_init-Returns :
    (os : Os) (u d : Bool) (logfile : Option Bytes) (l : Logger)
    → (u && d) ≡ false
    → Returns IsLoopFree (logger_init os u d logfile l)
unfolding logger_init
logger_init-Returns os u d logfile l h =
    Returns-then IsLoopFree
      (if u
        then emit (openlog "exact[%d]" (Arg.num os.getpid ∷ [])) >> pure l.lf
        else open_stream os logfile)
      _ (λ lf. Returns-done IsLoopFree (log log_debug "Running in debug mode\n" [] ∷ []) _ h)

loop_free : (u d : Bool) → (u && (not u && d)) ≡ false
loop_free true d = refl
loop_free false d = refl

reopen_log-Returns : (os : Os) (c : Configured) (u : Bool) → Returns IsLoopFree (reopen_log os c u)
unfolding reopen_log
reopen_log-Returns os c u =
    Returns-if IsLoopFree c.cmd.foreground _ _
      (logger_init-Returns os false c.cmd.debug none c.log_state refl)
      (Returns-bind IsLoopFree IsLoopFree
        (logger_init os u (not u && c.cmd.debug) (conffile_param c.conf (codes "logfile"))
          c.log_state)
        _ (logger_init-Returns os u (not u && c.cmd.debug) _ c.log_state (loop_free u c.cmd.debug))
        (λ l h. Returns-done IsLoopFree (log log_debug "Daemonized\n" [] ∷ []) l h))

abbrev Free : Process → Type 0
Free p = IsLoopFree p.log_state

serve-Free :
    (os : ℕ → Os) (a : Auth) (t : Tail) (login : MatchLogin) (c : Configured)
    → Returns Free (serve os a t login c)
unfolding serve
serve-Free os a t login c =
    Returns-then Free (daemonize (os 6) c.conf c.cmd.foreground c.cmd.sleep) _ (λ _.
      Returns-then Free (auth_init (os 7) c.conf a) _ (λ auth.
        Returns-then Free (choose_log c.conf) _ (λ use_syslog.
          Returns-bind IsLoopFree Free (reopen_log (os 8) c use_syslog) _
            (reopen_log-Returns (os 8) c use_syslog)
            (λ log_state free. Returns-then Free (writepid (os 9) c.conf) _ (λ _.
              Returns-after Free (signal 1 "conffile_reload" ∷ []) _ (
                Returns-after Free (signal 10 "auth_dump" ∷ []) _ (
                  Returns-after Free (signal 15 "exit_handler" ∷ []) _ (
                    Returns-then Free (tail_open (os 10) c.conf t) _ (λ r.
                      Returns-if Free r.1 _ _
                        (Returns-done Free (log log_notice "running\n" [] ∷ []) _ free)
                        (Returns-then Free (deref (conffile_param c.conf (codes "maillog"))) _
                          (λ maillog.
                            Returns-exit Free
                              (log log_err "open of %s failed.  Quitting.\n" (Arg.str maillog ∷ [])
                                ∷ [])
                              2)))))))))))

-- A message for syslog is no debug message.
abbrev pub IsCalm : Message → Type 0
IsCalm m = m.destination ≡ syslog → is_debug m.level ≡ false

calm : (x y : Bool) → (x && not y) ≡ false → y ≡ false → x ≡ false
calm true true h e = e
calm true false h e = h
calm false y h e = refl

selected-IsCalm :
    (debug : Bool) (d : Destination) (t : Trace)
    → (d ≡ syslog → debug ≡ false)
    → All IsCalm (selected debug d t)
selected-IsCalm debug d [] h = tt
selected-IsCalm debug d (log level fmt args ∷ t) h =
    elim (Bool-cases (is_debug level && not debug)) [
      | inl dropped ↦ rw dropped (selected-IsCalm debug d t h)
      | inr kept ↦ rw kept (
        (λ to_syslog. calm (is_debug level) debug kept (h to_syslog)),
        selected-IsCalm debug d t h,
      )
    ]
selected-IsCalm debug d (e ∷ t) h = selected-IsCalm debug d t h

settled :
    (u d : Bool) (lf : Option Stream)
    → (u && d) ≡ false
    → (if u then syslog else elim lf [ none ↦ printed standard_error | some s ↦ printed s ])
      ≡ syslog
    → d ≡ false
settled true d lf h e = h
settled false d none h e = absurd (cc)
settled false d (some s) h e = absurd (cc)

Free-destination : (l : Logger) → IsLoopFree l → destination_of l ≡ syslog → l.debug ≡ false
Free-destination l free e = settled l.use_syslog l.debug l.lf free e

-- Started with any command line, files and answers of the system, main either does not come to its
-- loop, or has left the logger in a state in which, for any later calls of it, no message of level
-- debug is written to syslog.
pub main-IsCalm :
    (os : ℕ → Os) (opts : List Getopt) (conf : Conf) (a : Auth) (t : Tail) (login : MatchLogin)
    → Returns
        (λ p. (calls : Trace) → All IsCalm (written p.log_state calls))
        (main os opts conf a t login)
unfolding main
main-IsCalm os opts conf a t login =
    Returns-map Free (λ p. (calls : Trace) → All IsCalm (written p.log_state calls))
      (main os opts conf a t login)
      (Returns-then Free (configure os opts conf) _ (serve-Free os a t login))
      (λ p free calls. subst (All IsCalm) (sym (written-selected p.log_state calls)) (
        selected-IsCalm p.log_state.debug (destination_of p.log_state) calls
          (Free-destination p.log_state free)))
