-- ===== src/Exact/Run/First.antt =====
-- exact.c: the relay file behind the start.
use exact.Base.{
  ℕ, ◌≢◌, Bool, some, List, [], ◌∷◌, ◌≡◌, refl, Bytes, codes, Bool-cases, Option-cases, inl, inr,
  All, Option, none, not, ◌*◌, ◌∙◌, take_all, arith,
}
use exact.Os.{Os}
use Prim.Native.String.{String}
use exact.Outcome.{
  Level, log, Arg, Outcome, Trace, ◌>>=◌, emit, logger, log_debug, signal, alarm, trace_of, log_err,
}
use exact.Outcome.Files.{Printing, Files, Always, apply, log_other}
use exact.Outcome.Quiet.{IsQuiet, IsQuiet-emit, IsQuiet-bind, IsQuiet-option, IsQuiet-pure, quiet}
use exact.Outcome.Returns.{Returns, Returns-if, Returns-exit, Returns-pure}
use exact.Outcome.Triple.{
  Content, Leaves-map, Triple, Triple-bind, Triple-pure, Triple-fact, Triple-Returns,
  IsQuiet-Triple, Spares, Spares-Triple,
}
use exact.Conffile.Param.{Conf, conffile_param, conffile_param_int, conffile_param_int-IsQuiet}
use exact.Auth.Table.{Entry, Auth, auth_init_mem, entry_size}
use exact.Auth.Text.{auth_write_text}
use exact.Auth.Handlers.{auth_init}
use exact.Auth.Publish.{host_lines, taken}
use exact.Auth.Relay.{Shown, written, Fits}
use exact.Tail.{Tail, tail_open, open_log}
use exact.Logger.{logger_init, open_stream}
use exact.Exact.Main.{Configured, choose_log, reopen_log}
use exact.Exact.Pid.{writepid}
use exact.Exact.Run.Listed.{update_other}

abbrev pub Anything : Content
Anything c = Unit

-- The content lists the table.
abbrev pub Lists : List Entry → Content
Lists es c = c ≡ some (host_lines es)

pub choose_log-IsQuiet : (conf : Conf) → IsQuiet (choose_log conf)
unfolding choose_log
choose_log-IsQuiet conf = search quiet depth 10

pub tail_open-IsQuiet : (os : Os) (conf : Conf) (t : Tail) → IsQuiet (tail_open os conf t)
unfolding tail_open
tail_open-IsQuiet os conf t =
    IsQuiet-bind (open_log os conf) _ (search quiet depth 6)
      (λ file. IsQuiet-option file _ _ (IsQuiet-pure _) (λ bytes. IsQuiet-pure _))

init_mem-auth : (os : Os) (a : Auth) → Returns (λ b. b.auth ≡ a.auth) (auth_init_mem os a)
unfolding auth_init_mem
init_mem-auth os a =
    Returns-if (λ b. b.auth ≡ a.auth) (not (os.realloc (entry_size * a.auth_max))) _ _
      (Returns-exit (λ b. b.auth ≡ a.auth) _ 20) (Returns-pure (λ b. b.auth ≡ a.auth) _ refl)

-- A full disk keeps a list of no host.
taken_none : (c : Option ℕ) → taken c [] ≡ []
taken_none none = refl
taken_none (some n) = take_all n [] (omega arith)

init_mem-IsQuiet : (os : Os) (a : Auth) → IsQuiet (auth_init_mem os a)
unfolding auth_init_mem
init_mem-IsQuiet os a = search quiet depth 6

module _ (printing : Printing) (file : Bytes) (log_apart : printing.log_file ≢ some file) where
  -- A message changes another file.
  said :
      (level : Level) (fmt : String) (args : List Arg) → Spares printing file (log level fmt args)
  said level fmt args fs = log_other printing file level fmt args fs log_apart

  Always-Anything : (t : Trace) (fs : Files) → Always printing (λ gs. Anything (gs file)) t fs
  Always-Anything [] fs = tt
  Always-Anything (e ∷ t) fs = (tt, Always-Anything t (apply printing e fs))

  -- A first call that leaves the files alone.
  pub first :
      {A B : Type 0} (P : Content) (Q : B → Content) (m : Outcome A) (f : A → Outcome B)
      → IsQuiet m
      → ((a : A) → Triple printing file Anything P Q (f a))
      → Triple printing file Anything P Q (m >>= f)
  first P Q m f q k =
      Triple-bind printing file Anything P (λ _. P) Q m f
        (IsQuiet-Triple printing file log_apart Anything P m q (λ c p. tt)) k

  -- A first call that leaves this file alone.
  pub spared :
      {A B : Type 0} (P : Content) (Q : B → Content) (m : Outcome A) (f : A → Outcome B)
      → All (Spares printing file) (trace_of m)
      → ((a : A) → Triple printing file Anything P Q (f a))
      → Triple printing file Anything P Q (m >>= f)
  spared P Q m f q k =
      Triple-bind printing file Anything P (λ _. P) Q m f
        (Spares-Triple printing file Anything P m q (λ c p. tt)) k

  module _ (conf : Conf) (temp : Bytes) (apart : temp ≢ file)
      (has_temp : conffile_param conf (codes "authtemp") ≡ some temp)
      (has_file : conffile_param conf (codes "authfile") ≡ some file) where
    write-Lists :
        (os : Os) (es : List Entry)
        → Fits printing conf temp file (apart, log_apart) has_temp has_file (λ _. Unit) os es
        → Triple printing file Anything Anything (λ _. Lists es) (auth_write_text os conf es)
    unfolding Triple
    write-Lists os es fits fs p = (
      Always-Anything (trace_of (auth_write_text os conf es)) fs,
      Leaves-map printing file (λ _. Shown (λ _. Unit) es) (λ _. Lists es)
          (auth_write_text os conf es) fs (λ _ c shown. shown.1)
          (written printing conf temp file (apart, log_apart) has_temp has_file (λ _. Unit) os es fs
            fits tt),
    )

    pub auth_init-Lists :
        (os : Os) (a : Auth)
        → a.auth ≡ []
        → Triple printing file Anything Anything (λ b. Lists b.auth) (auth_init os conf a)
    unfolding auth_init
    auth_init-Lists os a empty =
        let Q : Auth → Content = λ b. Lists b.auth in
        first Anything Q (logger log_debug "initialising authentication tables\n" []) _
          (search quiet depth 4)
          (λ _.
            Triple-bind printing file Anything Anything (λ b c. (b.auth ≡ a.auth) × Anything c) Q
              (auth_init_mem os a) _
              (Triple-Returns printing file Anything Anything (λ _. Anything) (λ b. b.auth ≡ a.auth)
                (auth_init_mem os a)
                (IsQuiet-Triple printing file log_apart Anything Anything _ (init_mem-IsQuiet os a)
                  (λ c p. tt))
                (init_mem-auth os a))
              (λ b. Triple-fact printing file Anything Anything (b.auth ≡ a.auth) Q _ (λ same.
                first Anything Q (conffile_param_int conf (codes "flush")) _
                  (conffile_param_int-IsQuiet conf (codes "flush"))
                  (λ flush.
                    first Anything Q (emit (signal 14 "auth_clean")) _
                      (IsQuiet-emit (signal 14 "auth_clean") refl)
                      (λ _.
                        first Anything Q (emit (alarm flush)) _ (IsQuiet-emit (alarm flush) refl)
                          (λ _.
                            Triple-bind printing file Anything Anything (λ _. Lists b.auth) Q
                              (auth_write_text os conf b.auth) _
                              (write-Lists os b.auth
                                (rw (same ∙ empty) (taken_none (os.fclose temp))))
                              (λ _.
                                first (Lists b.auth) Q
                                  (logger log_debug "authentication tables initialised\n" []) _
                                  (search quiet depth 4)
                                  (λ _.
                                    Triple-pure printing file Anything (Lists b.auth) Q
                                      (record b { auth_alarm = flush }) (λ c l. (tt, l))))))))))

  module _ (pidfile : Bytes) (pid_apart : pidfile ≢ file) where
    pub writepid-Spares :
        (os : Os) (conf : Conf)
        → conffile_param conf (codes "pidfile") ≡ some pidfile
        → All (Spares printing file) (trace_of (writepid os conf))
    unfolding writepid apply
    writepid-Spares os conf is = elim (Bool-cases (os.writable pidfile)) [
      | inl open_ ↦
          rw (is, open_)
            (
              (λ fs. update_other printing file pidfile pid_apart _ fs),
              (
                (λ fs. refl),
                (
                  said log_debug "Writing pid to %s\n" (Arg.str pidfile ∷ []),
                  ((λ fs. update_other printing file pidfile pid_apart _ fs), tt),
                ),
              ),
            )
      | inr closed ↦
          rw (is, closed) (said log_err "Cannot write to pid file %s\n" (Arg.str pidfile ∷ []), tt)
    ]

  pub reopen_log-Spares :
      (os : Os) (c : Configured) (u : Bool)
      → ((logfile : Bytes)
          → conffile_param c.conf (codes "logfile") ≡ some logfile
          → logfile ≢ file)
      → All (Spares printing file) (trace_of (reopen_log os c u))
  unfolding reopen_log logger_init open_stream apply
  reopen_log-Spares os c u apart = elim (Bool-cases c.cmd.foreground) [
    | inl fore ↦ rw fore (said log_debug "Running in debug mode\n" [], tt)
    | inr back ↦ elim (Bool-cases u) [
      | inl to_syslog ↦
          rw (back, to_syslog)
            (
              (λ fs. refl),
              (said log_debug "Running in debug mode\n" [], (said log_debug "Daemonized\n" [], tt)),
            )
      | inr to_file ↦ elim (Option-cases (conffile_param c.conf (codes "logfile"))) [
        | inl absent ↦
            rw (back, to_file, absent)
              (said log_debug "Running in debug mode\n" [], (said log_debug "Daemonized\n" [], tt))
        | inr (path, is) ↦ elim (Bool-cases (os.appendable path)) [
          | inl open_ ↦
              rw (back, to_file, is, open_)
                (
                  (λ fs. update_other printing file path (apart path is) _ fs),
                  (
                    said log_debug "Running in debug mode\n" [],
                    (said log_debug "Daemonized\n" [], tt),
                  ),
                )
          | inr closed ↦ rw (back, to_file, is, closed) ((λ fs. refl), tt)
        ]
      ]
    ]
  ]
