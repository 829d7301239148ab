-- ===== src/Tests/Ending.antt =====
-- The theorems on the log behind main and on the end of the process.
use exact.Base.{◌∷◌, true, false, not, ◌&&◌, none, some, [], ◌≡◌, refl, codes, if◌then◌else◌, All}
use exact.Libc.{str_eq, strcmp}
use exact.Outcome.{Trace, trace_of}
use exact.Outcome.Files.{Files, run, apply}
use exact.Outcome.Returns.{Returns}
use exact.Conffile.Param.{conffile_param}
use exact.Logger.{written, Logger, log_file}
use exact.Match.Login.{zeroed}
use exact.Exact.Cmdline.{CommandLine}
use exact.Exact.Pid.{exit_handler}
use exact.Exact.Main.{main}
use exact.Exact.Silence.{IsCalm, main-IsCalm}
use exact.Exact.Ending.{ExitsWith, terminated, printing_of, with_last, exit_handler-ExitsWith}
use exact.Tests.{demo_conf, demo_os}
use exact.Os.{Os}
use exact.Conffile.File.{conffile_setname, name_of, skip_blanks, behind_name}
use exact.Auth.Table.{auth_init_mem}
use exact.Auth.Text.{auth_write_text}
use exact.Conffile.Param.{Conf}
use exact.Libc.{atoi, fgets, c_string}
use exact.Apconf.Read.{apconf_read, compile_re, parse_rule_top, apconf_getsec}
use exact.Apconf.Parse.{top_loop, parse_rule_section, section_of, section_params}
use exact.Apconf.Scan.{first_token, scan_string, scan}
use exact.Apconf.Regex.{search_from}
use exact.Conffile.Param.{conffile_param_int}
use exact.Conffile.Check.{conffile_check, server_check, check_present, check_ints, use_sections}
use exact.Tests.Start.{is_done, options, required_conf, demo-pidfile}

-- The globals of conffile.c at the start.
abbrev start_conf : Conf
start_conf = record demo_conf { param = []; filename = []; filename_set = false }

-- A system with a configuration file, a server's definition and an empty log.
abbrev running_os : Os
running_os = record demo_os {
  readable = λ path.
      if str_eq path (codes "/etc/exact.conf")
      then some (
          codes
            "pidfile /p\nmaillog /m\nserverdefs /s\nserver exim\nauthfile /f\nauthtemp /t\ndumpfile /d\ntimeout 60\nflush 60\nsuspicious 10\nauthtype text\nlogging syslog\nuser mail\n")
      else if str_eq path (codes "/s")
      then some (codes "<server exim>\norder username,address\nmatch a(b)c(d)\n</server>\n")
      else if str_eq path (codes "/m")
      then some []
      else none;
}

main-IsCalm_example :
    Returns
      (λ p. (calls : Trace) → All IsCalm (written p.log_state calls))
      (main (λ _. running_os) options start_conf exact.Auth.Table.initial exact.Tail.initial zeroed)
main-IsCalm_example =
    main-IsCalm (λ _. running_os) options start_conf exact.Auth.Table.initial exact.Tail.initial
      zeroed

-- With that system the start comes to the loop.
main-runs :
    is_done
      (main (λ _. running_os) options start_conf exact.Auth.Table.initial exact.Tail.initial zeroed)
    ≡ true
unfolding main conffile_param str_eq strcmp conffile_check server_check check_present check_ints
    conffile_param_int atoi apconf_read compile_re parse_rule_top top_loop use_sections fgets
    first_token scan_string scan search_from c_string parse_rule_section section_of section_params
    apconf_getsec conffile_setname name_of skip_blanks behind_name auth_init_mem auth_write_text
main-runs = refl

abbrev removing : CommandLine
removing = record { foreground = false; sleep = false; debug = false; preserve = false }

-- All paths hold a file.
abbrev three_files : Files
three_files path = some (codes "x")

required-authfile : conffile_param required_conf (codes "authfile") ≡ some (codes "/f")
unfolding conffile_param str_eq strcmp
required-authfile = refl

-- An internal logger with a file of its own.
abbrev internal : Logger
internal = record { use_syslog = false; lf = some (log_file (codes "/l")); debug = false }

-- At the log file.
exit_handler-ExitsWith_example :
    ExitsWith 0 (exit_handler demo_os removing required_conf)
    × (written internal (trace_of (exit_handler demo_os removing required_conf))
        ≡ terminated internal ∷ [])
    × (run
          (printing_of (λ _. b'0' ∷ []) internal)
          (trace_of (exit_handler demo_os removing required_conf))
          three_files
          (codes "/l")
        ≡ with_last internal (codes "/l") (
            if true && str_eq (codes "/p") (codes "/l")
            then none
            else if not false && (true && str_eq (codes "/f") (codes "/l"))
            then none
            else three_files (codes "/l")))
exit_handler-ExitsWith_example =
    exit_handler-ExitsWith (λ _. b'0' ∷ []) demo_os removing required_conf internal (codes "/p")
      (codes "/f") (codes "/l") three_files demo-pidfile required-authfile

-- The log file ends with the message then, and the relay file is gone.
log-terminated :
    run
      (printing_of (λ _. b'0' ∷ []) internal)
      (trace_of (exit_handler demo_os removing required_conf))
      three_files
      (codes "/l")
    ≡ some (codes "xterminated\n")
unfolding run apply exit_handler conffile_param str_eq strcmp
log-terminated = refl

relay-removed :
    run
      (printing_of (λ _. b'0' ∷ []) internal)
      (trace_of (exit_handler demo_os removing required_conf))
      three_files
      (codes "/f")
    ≡ none
unfolding run apply exit_handler conffile_param str_eq strcmp
relay-removed = refl
