-- ===== src/Exact/Quiet.antt =====
-- exact.c and conffile.c: the reading and the check of the configuration change no file.
use exact.Base.{Bool, ℕ, zero, suc, ◌==◌, Option, none, some, List, [], ◌∷◌, Bytes}
use Prim.Native.String.{String}
use exact.Libc.{c_string, fgets}
use exact.Apconf.Parse.{Section}
use exact.Apconf.Quiet.{apconf_read-IsQuiet, apconf_getsec-IsQuiet}
use exact.Base.Int.{ℤ}
use exact.Base.{refl}
use exact.Match.{match_init}
use exact.Exact.Cmdline.{
  CommandLine, Getopt, usage, version, set_config, option, option_loop, cmdline,
}
use exact.Exact.Pid.{check_process, check_file, checkpid}
use exact.Exact.Main.{configure}
use exact.Os.{Os}
use exact.Outcome.{fault}
use exact.Outcome.Quiet.{IsQuiet, quiet, IsQuiet-bind, IsQuiet-option, IsQuiet-if}
use exact.Conffile.Param.{Param, Conf, conffile_param, conffile_param_int-IsQuiet}
use exact.Conffile.File.{
  add_param, add_line, read_line, read_loop, read_file, conffile_read, conffile_setname,
  zap_comments, drop_last,
}
use exact.Conffile.Check.{
  add_literal, check_choice, use_section, use_found, use_sections, server_check, check_present,
  check_ints, conffile_check,
}

add_param-IsQuiet : (p : Param) (conf : Conf) → IsQuiet (add_param p conf)
unfolding add_param
add_param-IsQuiet p conf = search quiet

add_line-IsQuiet : (s : Bytes) (conf : Conf) → IsQuiet (add_line s conf)
unfolding add_line
add_line-IsQuiet [] conf = search quiet
add_line-IsQuiet (c ∷ cs) conf = search (quiet, add_param-IsQuiet)

check_present-IsQuiet : (names : List Bytes) (conf : Conf) → IsQuiet (check_present names conf)
unfolding check_present
check_present-IsQuiet [] conf = search quiet
check_present-IsQuiet (n ∷ ns) conf =
    IsQuiet-option (conffile_param conf n) _ _ (search quiet) (λ _. check_present-IsQuiet ns conf)

check_ints-IsQuiet : (names : List Bytes) (conf : Conf) → IsQuiet (check_ints names conf)
unfolding check_ints
check_ints-IsQuiet [] conf = search quiet
check_ints-IsQuiet (n ∷ ns) conf =
    IsQuiet-option (conffile_param conf n) _ _ (search quiet)
      (λ text. search (quiet, conffile_param_int-IsQuiet, check_ints-IsQuiet ns conf))

read_line-IsQuiet : (s : Bytes) (conf : Conf) → IsQuiet (read_line s conf)
unfolding read_line
read_line-IsQuiet s conf =
    elim (c_string s)
      as (λ x.
        IsQuiet
          (elim x [ [] ↦ fault [] | c ∷ cs ↦ add_line (zap_comments (drop_last (c ∷ cs))) conf ])) [
            | [] ↦ search quiet
            | c ∷ cs ↦ add_line-IsQuiet (zap_comments (drop_last (c ∷ cs))) conf
          ]

read_loop-IsQuiet : (fuel : ℕ) (file : Bytes) (conf : Conf) → IsQuiet (read_loop [] fuel file conf)
unfolding read_loop
read_loop-IsQuiet zero file conf = search quiet
read_loop-IsQuiet (suc fuel) file conf = IsQuiet-option (fgets 1023 file) _ _ (search quiet) (λ l.
    IsQuiet-bind (read_line l.line conf) (read_loop [] fuel l.unread)
      (read_line-IsQuiet l.line conf) (read_loop-IsQuiet fuel l.unread))

read_file-IsQuiet : (conf : Conf) (file : Option Bytes) → IsQuiet (read_file conf file)
unfolding read_file
read_file-IsQuiet conf none = search quiet
read_file-IsQuiet conf (some file) = search (quiet, read_loop-IsQuiet)

conffile_read-IsQuiet : (os : Os) (conf : Conf) → IsQuiet (conffile_read os conf)
unfolding conffile_read
conffile_read-IsQuiet os conf = search (quiet, read_file-IsQuiet)

choice-IsQuiet :
    (message : String) (name this that : Bytes) (conf : Conf)
    → IsQuiet (check_choice message name this that conf)
unfolding check_choice
choice-IsQuiet message name this that conf = search quiet

use_section-IsQuiet : (s : Section) (conf : Conf) → IsQuiet (use_section s conf)
unfolding use_section add_literal
use_section-IsQuiet s conf = search (quiet, add_param-IsQuiet, choice-IsQuiet) depth 14

use_found-IsQuiet :
    (server : Bytes) (conf : Conf) (found : Option Section) → IsQuiet (use_found server conf found)
unfolding use_found
use_found-IsQuiet server conf none = search quiet
use_found-IsQuiet server conf (some s) = search use_section-IsQuiet

use_sections-IsQuiet :
    (has_count : Bool) (serverdefs : Bytes) (conf : Conf) (a : Option (List Section))
    → IsQuiet (use_sections has_count serverdefs conf a)
unfolding use_sections
use_sections-IsQuiet has_count serverdefs conf none = search quiet
use_sections-IsQuiet has_count serverdefs conf (some a) =
    search (quiet, use_found-IsQuiet, apconf_getsec-IsQuiet)

server_check-IsQuiet : (os : Os) (conf : Conf) → IsQuiet (server_check os conf)
unfolding server_check
server_check-IsQuiet os conf = search (quiet, apconf_read-IsQuiet, use_sections-IsQuiet)

conffile_check-IsQuiet : (os : Os) (conf : Conf) → IsQuiet (conffile_check os conf)
unfolding conffile_check
conffile_check-IsQuiet os conf =
    search (quiet, check_present-IsQuiet, check_ints-IsQuiet, server_check-IsQuiet) depth 12

setname-IsQuiet : (s : Bytes) (conf : Conf) → IsQuiet (conffile_setname s conf)
unfolding conffile_setname
setname-IsQuiet s conf = search quiet

config-IsQuiet : (o : Option Bytes) (s : CommandLine × Conf) → IsQuiet (set_config o s)
unfolding set_config
config-IsQuiet o (cmd, conf) = search (quiet, setname-IsQuiet)

option-IsQuiet : (os : Os) (o : Getopt) (s : CommandLine × Conf) → IsQuiet (option os o s)
unfolding option usage version IsQuiet
option-IsQuiet os (c, optarg) (cmd, conf) =
    IsQuiet-if (c == b'h') _ _
      (refl, (refl, (refl, (refl, (refl, (refl, (refl, (refl, (refl, tt)))))))))
      (IsQuiet-if (c == b'V') _ _ (refl, tt)
        (IsQuiet-if (c == b'f') _ _ tt (
          IsQuiet-if (c == b's') _ _ tt (
            IsQuiet-if (c == b'd') _ _ tt (
              IsQuiet-if (c == b'p') _ _ tt (
                IsQuiet-if (c == b'c') _ _ (config-IsQuiet optarg (cmd, conf)) (
                  refl,
                  (refl, (refl, (refl, (refl, (refl, (refl, (refl, (refl, (refl, tt))))))))),
                )))))))

loop-IsQuiet : (os : Os) (l : List Getopt) (s : CommandLine × Conf) → IsQuiet (option_loop os l s)
unfolding option_loop
loop-IsQuiet os [] s = search quiet
loop-IsQuiet os (o ∷ os') s = search (quiet, option-IsQuiet, loop-IsQuiet os os')

check_process-IsQuiet : (os : Os) (pid : ℤ) → IsQuiet (check_process os pid)
unfolding check_process
check_process-IsQuiet os pid = search quiet

check_file-IsQuiet : (os : Os) (file : Option Bytes) → IsQuiet (check_file os file)
unfolding check_file
check_file-IsQuiet os none = search quiet
check_file-IsQuiet os (some text) = search check_process-IsQuiet

checkpid-IsQuiet : (os : Os) (conf : Conf) → IsQuiet (checkpid os conf)
unfolding checkpid
checkpid-IsQuiet os conf = search (quiet, check_file-IsQuiet)

match_init-IsQuiet : (os : Os) (conf : Conf) → IsQuiet (match_init os conf)
unfolding match_init
match_init-IsQuiet os conf = search quiet

-- From the start to the compilation of the pattern, with any command line, any file contents and any
-- failure of the system, no file is created, written, renamed or removed.
pub configure-IsQuiet :
    (os : ℕ → Os) (opts : List Getopt) (conf : Conf) → IsQuiet (configure os opts conf)
unfolding configure cmdline
configure-IsQuiet os opts conf =
    search
      (
        quiet, loop-IsQuiet, conffile_read-IsQuiet, conffile_check-IsQuiet, checkpid-IsQuiet,
        match_init-IsQuiet,
      )
      depth 16
