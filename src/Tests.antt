-- ===== src/Tests.antt =====
-- The development at concrete inputs: a configuration, a system and a table that the child modules
-- share.
mod Table
mod Berkeley
mod Line
mod Pass
mod Log
mod Parser
mod Start
mod Ending
mod Run
mod Relayed
mod Begin
mod Definitions
use exact.Base.{
  ℕ, Bool, true, false, Option, none, some, List, [], ◌∷◌, ◌≡◌, ◌≢◌, refl, Bytes, codes, ◌==◌,
  if◌then◌else◌,
}
use exact.Base.{arith}
use exact.Base.Int.{pos}
use exact.Libc.{str_eq, strcmp}
use exact.Os.{Os, matched, child}
use exact.Outcome.Files.{Printing}
use exact.Conffile.Param.{Param, Conf, conffile_param}
use exact.Apconf.Parse.{Section, section_null}
use exact.Auth.Table.{Entry, Auth}
use exact.Auth.Invariant.{IsValid}

abbrev setting : Bytes → Bytes → Param
setting name value = record { name = name; value = value; allocated = true }

abbrev empty_section : Section
empty_section = record { t = section_null; name = none; order = none; match_ = none }

abbrev pub demo_conf : Conf
demo_conf = record {
  param =
      setting (codes "authtemp") (codes "/t")
      ∷ setting (codes "authfile") (codes "/f")
      ∷ setting (codes "timeout") (codes "60")
      ∷ setting (codes "suspicious") (codes "10")
      ∷ setting (codes "order") (codes "username,address")
      ∷ setting (codes "user") (codes "mail")
      ∷ setting (codes "maillog") (codes "/m")
      ∷ setting (codes "dumpfile") (codes "/d")
      ∷ setting (codes "pidfile") (codes "/p")
      ∷ setting (codes "logging") (codes "syslog")
      ∷ [];
  filename = codes "/etc/exact.conf";
  filename_set = true;
  section = empty_section;
}

-- The groups of a line such as "ok bob 1.2": the user at 3, the host at 7.
abbrev pub demo_groups : ℕ → Option (ℕ × ℕ)
demo_groups i =
    if i == 0
    then some (0, 10)
    else if i == 2
    then some (3, 6)
    else if i == 3
    then some (7, 10)
    else none

-- A system at the time 100 that serves every call and holds the log "ok bob 1.2\n".
abbrev pub demo_os : Os
demo_os = record {
  time = λ _. 100;
  readable = λ _. none;
  writable = λ _. true;
  appendable = λ _. true;
  fclose = λ _. none;
  rename = λ _ _. true;
  unlink = λ _. true;
  realloc = λ _. true;
  fseek = λ _. true;
  stream = codes "ok bob 1.2\n";
  regcomp = λ _. true;
  regerror = [];
  regexec = λ _ _. matched demo_groups;
  getpid = 7;
  kill = λ _. false;
  fork = λ _. child;
  setsid = true;
  chdir = true;
  getgrnam = λ _. none;
  getpwnam = λ _. some 8;
  setgid = λ _. true;
  setuid = λ _. true;
  stale_count = 0;
  usable = 516;
  confdir = codes "/etc";
}

-- No log file: the logger is syslog.
abbrev pub demo_printing : Printing
demo_printing = record { strftime = λ _. []; log_file = none; shows = λ _. true }

pub unlogged : (file : Bytes) → demo_printing.log_file ≢ some file
unlogged file same = absurd (cc (same))

-- Two hosts, one of them past its timeout at the time 100.
abbrev pub demo_auth : Auth
demo_auth = record {
  auth = record { hostname = codes "1.1"; t = 20 } ∷ record { hostname = codes "1.3"; t = 90 } ∷ [];
  shadow_auth = [];
  auth_max = 1024;
  capacity = 1024;
  auth_alarm = pos 60;
}

pub demo_auth-IsValid : IsValid demo_auth
unfolding strcmp
demo_auth-IsValid = record {
  sorted = ((refl, tt), (tt, tt));
  short = (omega arith, (omega arith, tt));
  allocated = refl;
  fits = omega arith;
}

pub demo-authtemp : conffile_param demo_conf (codes "authtemp") ≡ some (codes "/t")
unfolding conffile_param str_eq
demo-authtemp = refl

pub demo-authfile : conffile_param demo_conf (codes "authfile") ≡ some (codes "/f")
unfolding conffile_param str_eq
demo-authfile = refl

pub demo-timeout : conffile_param demo_conf (codes "timeout") ≡ some (codes "60")
unfolding conffile_param str_eq
demo-timeout = refl

pub demo-suspicious : conffile_param demo_conf (codes "suspicious") ≡ some (codes "10")
unfolding conffile_param str_eq
demo-suspicious = refl

pub demo-order : conffile_param demo_conf (codes "order") ≡ some (codes "username,address")
unfolding conffile_param str_eq
demo-order = refl

pub demo-user : conffile_param demo_conf (codes "user") ≡ some (codes "mail")
unfolding conffile_param str_eq
demo-user = refl
