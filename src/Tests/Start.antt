-- ===== src/Tests/Start.antt =====
-- The theorems on the start of the process and on the configuration.
use exact.Base.{
  Bool, true, false, none, some, List, [], ◌∷◌, ◌≡◌, refl, Bytes, codes, arith, replicate,
}
use exact.Os.{Os}
use exact.Libc.{atoi, str_eq, strcmp, fgets, c_string}
use exact.Apconf.Read.{apconf_getsec, apconf_read, compile_re, parse_rule_top}
use exact.Apconf.Parse.{top_loop, parse_rule_section, section_of, section_params}
use exact.Apconf.Scan.{first_token, scan_string, scan}
use exact.Apconf.Regex.{search_from}
use exact.Conffile.Param.{conffile_param, conffile_param_int}
use exact.Conffile.Check.{server_check, check_present, check_ints, use_sections}
use exact.Outcome.{Ends, IsFault, Outcome, done}
use exact.Outcome.Quiet.{IsQuiet, DropsFirst}
use exact.Outcome.Returns.{Returns}
use exact.Apconf.Parse.{Section, section_stanza}
use exact.Conffile.Param.{Param, Conf}
use exact.Conffile.Check.{conffile_check, use_section}
use exact.Conffile.Reload.{ReloadFails, conffile_check-ReloadFails, use_section-full}
use exact.Auth.Table.{initial}
use exact.Match.Login.{zeroed}
use exact.Exact.Cmdline.{Getopt}
use exact.Exact.Main.{Configured, configure, serve}
use exact.Exact.Quiet.{configure-IsQuiet}
use exact.Daemon.Privileges.{serve-DropsFirst}
use exact.Base.{not, ◌||◌, ◌&&◌, ◌==◌, All}
use exact.Outcome.{stderr}
use exact.Conffile.Rounds.{read_loop-rounds}
use exact.Conffile.File.{read_loop, read_file, skip_blanks}
use exact.Conffile.RoundTrip.{ReadBack, IsNamePart, IsNamePart-IsPlain, print, read_file-ReadBack}
use exact.Tests.{demo_conf, demo_os, demo-user}

abbrev pub options : List Getopt
options = (b'd', none) ∷ (b'c', some (codes "/etc/exact.conf")) ∷ []

configure-IsQuiet_example : IsQuiet (configure (λ _. demo_os) options demo_conf)
configure-IsQuiet_example = configure-IsQuiet (λ _. demo_os) options demo_conf

abbrev configured : Configured
configured = record {
  cmd = record { foreground = false; sleep = false; debug = false; preserve = false };
  log_state = exact.Logger.initial;
  conf = demo_conf;
  patbuf = some (codes "p");
}

serve-DropsFirst_example :
    DropsFirst 8 (serve (λ _. demo_os) initial exact.Tail.initial zeroed configured)
serve-DropsFirst_example =
    serve-DropsFirst (λ _. demo_os) configured (codes "mail") 8 demo-user refl initial
      exact.Tail.initial zeroed

abbrev setting : Bytes → Bytes → Param
setting name value = record { name = name; value = value; allocated = true }

-- A configuration with the required parameters, and a system with a server's definition.
abbrev pub required_conf : Conf
required_conf = record demo_conf {
  param =
      setting (codes "pidfile") (codes "/p")
      ∷ setting (codes "maillog") (codes "/m")
      ∷ setting (codes "serverdefs") (codes "/s")
      ∷ setting (codes "server") (codes "exim")
      ∷ setting (codes "authfile") (codes "/f")
      ∷ setting (codes "dumpfile") (codes "/d")
      ∷ setting (codes "timeout") (codes "60")
      ∷ setting (codes "flush") (codes "60")
      ∷ setting (codes "suspicious") (codes "10")
      ∷ setting (codes "authtype") (codes "text")
      ∷ [];
}

abbrev server_os : Os
server_os = record demo_os {
  readable = λ _. some (codes "<server exim>\norder username,address\nmatch a(b)c(d)\n</server>\n");
}

conffile_check-ReloadFails_example : Returns ReloadFails (conffile_check server_os required_conf)
conffile_check-ReloadFails_example = conffile_check-ReloadFails server_os required_conf

-- The check accepts that configuration.
abbrev pub is_done : {A : Type 0} → Outcome A → Bool
is_done (done _ _) = true
is_done _ = false

conffile_check-accepts : is_done (conffile_check server_os required_conf) ≡ true
unfolding conffile_check server_check check_present check_ints conffile_param conffile_param_int
    atoi str_eq strcmp apconf_read compile_re parse_rule_top top_loop use_sections fgets first_token
    scan_string scan search_from c_string parse_rule_section section_of section_params apconf_getsec
conffile_check-accepts = refl

-- A configuration file with fifteen parameters.
abbrev full_conf : Conf
full_conf = record demo_conf {
  param = replicate 15 (record { name = codes "n"; value = codes "v"; allocated = true });
}

abbrev stanza : Section
stanza = record {
  t = section_stanza;
  name = some (codes "exim");
  order = some (codes "username,address");
  match_ = some (codes "p");
}

use_section-full_example : IsFault (use_section stanza full_conf)
use_section-full_example =
    use_section-full stanza full_conf (codes "username,address") (codes "p") refl refl (omega arith)

abbrev two_settings : List (Bytes × Bytes)
two_settings = (codes "user", codes "mail") ∷ (codes "flush", codes "60") ∷ []

abbrev plain_name : Bytes → Bool
plain_name [] = true
plain_name (c ∷ cs) =
    not (c == 0 || c == b'\n' || c == b'#' || c == b'\t' || c == b' ') && plain_name cs

plain_name-IsNamePart : (s : Bytes) → plain_name s ≡ true → All IsNamePart s
plain_name-IsNamePart [] h = tt
plain_name-IsNamePart (c ∷ cs) h = ground (arith, plain_name-IsNamePart cs)

read_file-ReadBack_example :
    Ends
      (λ _. ⊥)
      (ReadBack demo_conf two_settings)
      (read_file demo_conf (some (print two_settings)))
unfolding skip_blanks
read_file-ReadBack_example =
    read_file-ReadBack two_settings demo_conf
      (
        record {
          name_plain = plain_name-IsNamePart (codes "user") refl;
          named = omega arith;
          value_plain =
              IsNamePart-IsPlain (codes "mail") (plain_name-IsNamePart (codes "mail") refl);
          no_blank = refl;
          fits = omega arith;
        },
        (
          record {
            name_plain = plain_name-IsNamePart (codes "flush") refl;
            named = omega arith;
            value_plain = IsNamePart-IsPlain (codes "60") (plain_name-IsNamePart (codes "60") refl);
            no_blank = refl;
            fits = omega arith;
          },
          tt,
        ),
      )
      (omega arith)

-- The pid file holds 7, and the process 7 exists.
abbrev busy_os : Os
busy_os = record demo_os { readable = λ _. some (codes "7"); kill = λ _. true }

pub demo-pidfile : conffile_param required_conf (codes "pidfile") ≡ some (codes "/p")
unfolding conffile_param str_eq strcmp
demo-pidfile = refl

read_loop-rounds_example :
    read_loop [] 16 (codes "user mail\n") demo_conf
    ≡ read_loop (stderr "out of fuel" [] ∷ []) 1000 (codes "user mail\n") demo_conf
read_loop-rounds_example =
    read_loop-rounds [] (stderr "out of fuel" [] ∷ []) 16 1000 (codes "user mail\n") demo_conf
      (omega arith) (omega arith)
