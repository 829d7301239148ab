-- ===== src/Exact/Run/Started.antt =====
-- exact.c: the start of the daemon leaves what its loop needs.
use exact.Base.{
  ℕ, ◌*◌, Bool, true, false, Option, none, some, [], ◌∷◌, ◌≡◌, refl, Bytes, codes, Bool-cases,
  Option-cases, inl, inr, if◌then◌else◌, length, arith,
}
use exact.Base.Int.{ℤ}
use exact.Os.{Os}
use exact.Outcome.{
  Outcome, Ends, ◌>>=◌, ◌>>◌, pure, emit, logger, deref, log, log_err, log_debug, log_notice, Arg,
  exit, signal, alarm,
}
use exact.Outcome.Laws.{Ends-bind, Ends-map, Ends-after}
use exact.Outcome.Faultless.{IsFaultless}
use exact.Conffile.Param.{Conf, conffile_param, conffile_param_int}
use exact.Auth.Table.{Auth, auth_init_mem, entry_size}
use exact.Auth.Invariant.{IsValid}
use exact.Auth.Text.{auth_write_text}
use exact.Auth.Add.{Refused, auth_write_text-Ends}
use exact.Auth.Handlers.{auth_init}
use exact.Tail.{Tail, tail_open, paws_max}
use exact.Match.Login.{MatchLogin, login_size}
use exact.Daemon.{daemonize}
use exact.Exact.Main.{Configured, Process, choose_log, reopen_log, serve}
use exact.Exact.Pid.{writepid}
use exact.Exact.Begin.{
  daemonize-IsFaultless, reopen_log-IsFaultless, choose_log-IsFaultless, writepid-IsFaultless,
}
use exact.Logger.{Logger}
use exact.Exact.{World}
use exact.Exact.Cmdline.{CommandLine}
use exact.Exact.Run.Machine.{Settings, View}
use exact.Exact.Run.Shows.{Shows}

abbrev Any : ℕ → Type 0
Any n = Unit

abbrev Ready : Auth → Type 0
Ready a = IsValid a × (a.auth ≡ [])

init_mem-Ready : (os : Os) → Ends Any Ready (auth_init_mem os exact.Auth.Table.initial)
unfolding auth_init_mem
init_mem-Ready os = elim (Bool-cases (os.realloc (entry_size * 16384))) [
  | inl memory ↦
      rw memory (record { sorted = tt; short = tt; allocated = refl; fits = omega arith }, refl)
  | inr none_left ↦ rw none_left tt
]

param_int-Ends : (conf : Conf) (name : Bytes) → Ends Any (λ _. Unit) (conffile_param_int conf name)
unfolding conffile_param_int
param_int-Ends conf name = elim (Option-cases (conffile_param conf name)) [
  | inl absent ↦ rw (absent, conffile_param_int) tt
  | inr (s, is) ↦ rw (is, conffile_param_int) tt
]

module _ (os : Os) (conf : Conf) (temp file : Bytes)
    (has_temp : conffile_param conf (codes "authtemp") ≡ some temp)
    (has_file : conffile_param conf (codes "authfile") ≡ some file) where
  auth_init-Ready : Ends Any Ready (auth_init os conf exact.Auth.Table.initial)
  unfolding auth_init
  auth_init-Ready =
      let finish = λ (b : Auth) (flush : ℤ).
        auth_write_text os conf b.auth
        >> (logger log_debug "authentication tables initialised\n" []
            >> pure (record b { auth_alarm = flush })) in
      let arm = λ (b : Auth) (flush : ℤ).
        emit (signal 14 "auth_clean") >> (emit (alarm flush) >> finish b flush) in
      let flushed = λ (b : Auth). conffile_param_int conf (codes "flush") >>= arm b in
      Ends-after Any Ready (log log_debug "initialising authentication tables\n" [] ∷ [])
        (auth_init_mem os exact.Auth.Table.initial >>= flushed)
        (Ends-bind Any Ready Ready (auth_init_mem os exact.Auth.Table.initial) flushed
          (init_mem-Ready os)
          (λ b r.
            Ends-bind Any (λ _. Unit) Ready (conffile_param_int conf (codes "flush")) (arm b)
              (param_int-Ends conf (codes "flush"))
              (λ flush _.
                Ends-after Any Ready (signal 14 "auth_clean" ∷ [])
                  (emit (alarm flush) >> finish b flush)
                  (Ends-after Any Ready (alarm flush ∷ []) (finish b flush) (
                    Ends-bind Any (λ _. Unit) Ready (auth_write_text os conf b.auth) _
                      (Ends-map (Refused os temp file) Any (λ _. Unit) (λ _. Unit)
                        (auth_write_text os conf b.auth)
                        (auth_write_text-Ends os conf temp file has_temp has_file b.auth)
                        (λ _ _. tt) (λ _ _. tt))
                      (λ _ _. (
                        record {
                          sorted = r.0.sorted;
                          short = r.0.short;
                          allocated = r.0.allocated;
                          fits = r.0.fits;
                        },
                        r.1,
                      )))))))

-- What stands behind `configure` with these settings.
abbrev pub configured : Settings → CommandLine → Logger → Configured
configured S cmd log_state = record {
  cmd = cmd;
  log_state = log_state;
  conf = S.conf;
  patbuf = some S.pattern_;
}

module _ (S : Settings) where
  -- What `tail_open` has done if it says that the log is open.
  abbrev Opened : Os → Tail × Bool → Type 0
  Opened os (t, false) = Unit
  Opened os (t, true) =
      (bytes : Bytes) × (os.readable S.maillog ≡ some bytes)
      × (t.f ≡ some (length bytes))
      × (t.tail_buff ≡ some [])
      × (t.last ≡ os.time 0)
      × (t.paws ≡ paws_max)

  tail_open-Opened :
      (os : Os) (t : Tail) → os.realloc 1024 ≡ true → Ends Any (Opened os) (tail_open os S.conf t)
  unfolding tail_open
  tail_open-Opened os t memory = read (os.readable S.maillog) refl
    where
      read :
          (o : Option Bytes)
          → os.readable S.maillog ≡ o
          → Ends Any (Opened os) (tail_open os S.conf t)
      read none is = rw (S.has_maillog, is) tt
      read (some bytes) is = rw (S.has_maillog, is, memory) (bytes, is, refl, refl, refl, refl)

  -- The view of a daemon that has just started: no host, and the log open at its end.
  abbrev pub first_view : Os → Bytes → View
  first_view os bytes = record {
    hosts = λ _. none;
    position = some (length bytes);
    last = os.time 0;
    paws = paws_max;
  }

  abbrev pub Begun : Os → World → Type 0
  Begun os w =
      (bytes : Bytes) × (os.readable S.maillog ≡ some bytes) × Shows S (first_view os bytes) w

  module _ (os : ℕ → Os) (login : MatchLogin) (cmd : CommandLine) (log_state : Logger)
      (size : length login.memory ≡ login_size) (memory : (os 10).realloc 1024 ≡ true)
      (logging pidfile : Bytes)
      (has_logging : conffile_param S.conf (codes "logging") ≡ some logging)
      (has_pidfile : conffile_param S.conf (codes "pidfile") ≡ some pidfile) where
    -- The last step.
    abbrev last_step : Auth → Logger → Tail × Bool → Outcome Process
    last_step a l r =
        let w : World = record {
          conf = S.conf;
          auth = a;
          tail = r.0;
          patbuf = some S.pattern_;
          login = login;
        } in
        if r.1
        then logger log_notice "running\n" []
          >> pure (record { cmd = cmd; log_state = l; world = w })
        else (deref (conffile_param S.conf (codes "maillog")) >>= λ maillog.
            logger log_err "open of %s failed.  Quitting.\n" (Arg.str maillog ∷ []) >> exit [] 2)

    abbrev pub Loops : Process → Type 0
    Loops p = Begun (os 10) p.world

    looping :
        (a : Auth) (l : Logger) (r : Tail × Bool)
        → Ready a
        → Opened (os 10) r
        → Ends Any Loops (last_step a l r)
    looping a l (t, false) ready opened = rw S.has_maillog tt
    looping a l (t, true) ready (bytes, is, f, buff, last, paws) = (
      bytes,
      is,
      record {
        hosts = (
          record {
            conf_is = refl;
            pattern_is = refl;
            sound = record { valid = ready.0; memory = size };
          },
          λ k. rw ready.1 refl,
        );
        position = f;
        old = [];
        buffer = buff;
        last = last;
        paws = paws;
      },
    )

    signalled :
        (t : Tail) (a : Auth) (l : Logger)
        → Ready a
        → Ends Any Loops (
            emit (signal 1 "conffile_reload")
            >> (emit (signal 10 "auth_dump")
                >> (emit (signal 15 "exit_handler")
                    >> (tail_open (os 10) S.conf t >>= last_step a l))))
    signalled t a l ready =
        let m = tail_open (os 10) S.conf t >>= last_step a l in
        Ends-after Any Loops (signal 1 "conffile_reload" ∷ [])
          (emit (signal 10 "auth_dump") >> (emit (signal 15 "exit_handler") >> m))
          (Ends-after Any Loops (signal 10 "auth_dump" ∷ []) (emit (signal 15 "exit_handler") >> m)
            (Ends-after Any Loops (signal 15 "exit_handler" ∷ []) m (
              Ends-bind Any (Opened (os 10)) Loops (tail_open (os 10) S.conf t) (last_step a l)
                (tail_open-Opened (os 10) t memory) (λ r. looping a l r ready))))

    -- With the parameters of the loop and those for the log and the pid file set, a pattern that was
    -- compiled, and memory for the buffer: the part of `main` from `daemonize` to the loop never faults. It
    -- exits, or it comes to the loop in a world that is set up, with an empty table and the log that it
    -- watches open at its end, as the loop needs.
    pub serve-Begun :
        (t : Tail)
        → Ends Any Loops (serve os exact.Auth.Table.initial t login (configured S cmd log_state))
    unfolding serve IsFaultless
    serve-Begun t =
        Ends-bind Any (λ _. Unit) Loops (daemonize (os 6) S.conf cmd.foreground cmd.sleep) _
          (daemonize-IsFaultless (os 6) S.conf cmd.foreground cmd.sleep)
          (λ _ _.
            Ends-bind Any Ready Loops (auth_init (os 7) S.conf exact.Auth.Table.initial) _
              (auth_init-Ready (os 7) S.conf S.temp S.file S.has_temp S.has_file)
              (λ a ready.
                Ends-bind Any (λ _. Unit) Loops (choose_log S.conf) _
                  (choose_log-IsFaultless S.conf logging has_logging)
                  (λ u _.
                    Ends-bind Any (λ _. Unit) Loops
                      (reopen_log (os 8) (configured S cmd log_state) u) _
                      (reopen_log-IsFaultless (os 8) (configured S cmd log_state) u)
                      (λ l _.
                        Ends-bind Any (λ _. Unit) Loops (writepid (os 9) S.conf) _
                          (writepid-IsFaultless (os 9) S.conf pidfile has_pidfile)
                          (λ _ _. signalled t a l ready)))))
