-- ===== src/Tests/Begin.antt =====
-- The theorems on the start and on a rotated log.
use exact.Base.{true, false, none, some, [], ◌≡◌, ◌≢◌, refl, Bytes, codes, arith}
use exact.Libc.{atoi, str_eq, strcmp}
use exact.Base.Int.{sub_ℕ, ltb_ℤ}
use exact.Os.{Os}
use exact.Outcome.{Ends, ◌>>=◌}
use exact.Outcome.Triple.{Leaves}
use exact.Conffile.Param.{conffile_param}
use exact.Auth.Table.{initial}
use exact.Auth.Publish.{host_lines}
use exact.Match.Login.{zeroed}
use exact.Tail.{Tail, tail_read}
use exact.Tail.Reading.{HasRead}
use exact.Tail.Rotation.{rotated-HasRead}
use exact.Exact.Cmdline.{CommandLine}
use exact.Exact.Main.{Process, serve}
use exact.Exact.Run.Started.{configured, Begun}
use exact.Exact.Run.Ready.{serve-Begins}
use exact.Tests.{demo_printing, unlogged, demo_conf, demo_os, demo-suspicious}
use exact.Tests.Run.{settings, demo-maillog, files, apart, temp-differs}

-- The log was read up to byte 50, has been quiet, and is now another file of four bytes.
abbrev rotated_os : Os
rotated_os = record demo_os { readable = λ _. some (codes "new\n") }

abbrev quiet_tail : Tail
quiet_tail = record { f = some 50; paws = 1000; last = 0; tail_buff = some []; tail_bufflen = 0 }

is_quiet : ltb_ℤ (atoi (codes "10")) (sub_ℕ 100 0) ≡ true
unfolding atoi
is_quiet = refl

is_lively : ltb_ℤ (atoi (codes "10")) (sub_ℕ 100 100) ≡ false
unfolding atoi
is_lively = refl

rotated-HasRead_example :
    Ends
      (λ _. ⊥)
      (HasRead demo_os.stream 0 1000)
      (tail_read rotated_os demo_conf quiet_tail >>= tail_read demo_os demo_conf)
rotated-HasRead_example =
    rotated-HasRead rotated_os demo_conf (codes "/m") demo-maillog (λ _. refl) (codes "10")
      demo-suspicious quiet_tail 50 refl is_quiet demo_os (codes "new\n") [] refl (omega arith) refl
      (omega arith) is_lively (λ _. refl) (λ _. refl)

abbrev cmd : CommandLine
cmd = record { foreground = false; sleep = false; debug = false; preserve = false }

demo-logging : conffile_param demo_conf (codes "logging") ≡ some (codes "syslog")
unfolding conffile_param str_eq strcmp
demo-logging = refl

demo-pidfile : conffile_param demo_conf (codes "pidfile") ≡ some (codes "/p")
unfolding conffile_param str_eq strcmp
demo-pidfile = refl

no_logfile : conffile_param demo_conf (codes "logfile") ≡ none
unfolding conffile_param str_eq strcmp
no_logfile = refl

logfile_apart :
    (logfile : Bytes)
    → conffile_param demo_conf (codes "logfile") ≡ some logfile
    → logfile ≢ codes "/f"
logfile_apart logfile is same = absurd (cc (is, no_logfile))

pid-apart : codes "/p" ≢ codes "/f"
unfolding str_eq strcmp
pid-apart = apart (codes "/p") (codes "/f") refl

-- A system with a log of four bytes.
serve-Begins_example :
    Ends
      (λ _. Unit)
      (λ p. Begun settings rotated_os p.world)
      (serve
        (λ _. rotated_os)
        initial
        exact.Tail.initial
        zeroed
        (configured settings cmd exact.Logger.initial))
    × Leaves demo_printing
        (codes "/f")
        (λ (p : Process) c. c ≡ some (host_lines p.world.auth.auth))
        (serve
          (λ _. rotated_os)
          initial
          exact.Tail.initial
          zeroed
          (configured settings cmd exact.Logger.initial))
        files
serve-Begins_example =
    serve-Begins settings demo_printing (λ _. rotated_os) exact.Tail.initial zeroed cmd
      exact.Logger.initial (codes "syslog") (codes "/p") files refl refl demo-logging demo-pidfile
      temp-differs pid-apart (unlogged (codes "/f")) logfile_apart
