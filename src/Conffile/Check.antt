-- ===== src/Conffile/Check.antt =====
-- conffile.c: the check of the configuration, the server's part of it, and the reload.
use Prim.Native.String.{String}
use exact.Base.{
  Bool, false, not, ◌&&◌, Option, none, some, List, [], ◌∷◌, Bytes, codes, ◌==◌, if◌then◌else◌,
}
use exact.Base.Int.{ℤ, pos, negsuc}
use exact.Libc.{str_eq}
use exact.Os.{Os}
use exact.Outcome.{
  Outcome, fault, signal, log_err, log_debug, log_notice, Arg, ◌>>=◌, ◌>>◌, pure, emit, logger, die,
  deref,
}
use exact.Apconf.Parse.{Section}
use exact.Apconf.Read.{apconf_read, apconf_getsec, owned}
use exact.Conffile.Param.{Param, Conf, conffile_param, conffile_param_int}
use exact.Conffile.File.{add_param, conffile_read}

-- `free` of a string that did not come from the heap is a fault.
unfoldable pub free_all : List Param → Outcome (Unit {0})
free_all [] = pure tt
free_all (p ∷ ps) = let rest = free_all ps in if p.allocated then rest else fault []

unfoldable pub conffile_free : Conf → Outcome Conf
unfolding free_all
conffile_free conf = free_all conf.param >> pure (record conf { param = [] })

-- `param[param_max].name = "…"; param[param_max].value = strdup(…)`: the name is a literal.
unfoldable pub add_literal : Bytes → Bytes → Conf → Outcome Conf
unfolding add_param
add_literal name value conf =
    add_param (record { name = name; value = value; allocated = false }) conf

-- The parameter is one of two words; else the program ends with the message. (A null pointer is read by `strcmp`.)
unfoldable pub check_choice : String → Bytes → Bytes → Bytes → Conf → Outcome (Unit {0})
check_choice message name this that conf = do
  value ← deref (conffile_param conf name)
  if not (str_eq value this) && not (str_eq value that)
      then die log_err message (Arg.str value ∷ []) 4
      else pure tt

-- The part of `server_check` behind the search for the section.
unfoldable pub use_section : Section → Conf → Outcome Conf
unfolding add_literal check_choice
use_section s conf = do
  order ← deref s.order
  with_order ← add_literal (codes "order") order conf
  match_ ← deref s.match_
  with_match ← add_literal (codes "match") match_ with_order
  check_choice "Fatal Error: order %s incorrect\n" (codes "order") (codes "username,address")
      (codes "address,username") with_match
  check_choice "Fatal Error: authtype %s incorrect\n" (codes "authtype") (codes "db") (codes "text")
      with_match
  pure with_match

-- The section that `apconf_getsec` found, or the end of the program.
unfoldable pub use_found : Bytes → Conf → Option Section → Outcome Conf
unfolding use_section
use_found server conf none =
    die log_err "Server section %s not found in serverdefs file\n" (Arg.str server ∷ []) 4
use_found server conf (some section) = use_section section conf

-- What `apconf_read` gave.
unfoldable pub use_sections : Bool → Bytes → Conf → Option (List Section) → Outcome Conf
unfolding use_found
use_sections has_count serverdefs conf none =
    die log_err "Fatal Error: cannot read serverdefs file %s\n" (Arg.str serverdefs ∷ []) 4
use_sections has_count serverdefs conf (some sections) = do
  server ← deref (conffile_param conf (codes "server"))
  found ← apconf_getsec has_count sections server
  use_found server conf found

unfoldable pub server_check : Os → Conf → Outcome Conf
unfolding use_sections
server_check os conf = do
  serverdefs ← deref (conffile_param conf (codes "serverdefs"))
  logger log_debug "Reading serverdefs from '%s'\n" (Arg.str serverdefs ∷ [])
  (a, s) ← apconf_read os serverdefs conf.section
  use_sections (owned os) serverdefs (record conf { section = s }) a

abbrev missing : {A : Type 0} → Bytes → Outcome A
missing name = die log_err "Fatal Error: missing parameter %s\n" (Arg.str name ∷ []) 4

-- `required_s`: only the first six of its nine names are looked at.
abbrev pub required_s : List Bytes
required_s =
    codes "pidfile"
    ∷ codes "maillog"
    ∷ codes "serverdefs"
    ∷ codes "server"
    ∷ codes "authfile"
    ∷ codes "dumpfile"
    ∷ []

abbrev pub required_i : List Bytes
required_i = codes "timeout" ∷ codes "flush" ∷ codes "suspicious" ∷ []

unfoldable pub check_present : List Bytes → Conf → Outcome (Unit {0})
check_present [] conf = pure tt
check_present (name ∷ names) conf =
    let rest = check_present names conf in
    elim (conffile_param conf name) [ none ↦ missing name | some _ ↦ rest ]

abbrev pub is_zero : ℤ → Bool
is_zero (pos n) = n == 0
is_zero (negsuc n) = false

unfoldable pub check_ints : List Bytes → Conf → Outcome (Unit {0})
check_ints [] conf = pure tt
check_ints (name ∷ names) conf =
    let rest = check_ints names conf in
    elim (conffile_param conf name) [
      | none ↦ missing name
      | some text ↦ conffile_param_int conf name >>= λ n.
          if is_zero n
          then die log_err "Fatal Error: parameter %s should be an int, but i can't parse %s\n"
              (Arg.str name ∷ Arg.str text ∷ []) 4
          else rest
    ]

unfoldable pub conffile_check : Os → Conf → Outcome Conf
unfolding check_present check_ints server_check
conffile_check os conf = do
  logger log_debug "checking configuration file\n" []
  check_present required_s conf
  check_ints required_i conf
  checked ← server_check os conf
  logger log_debug "checking configuration file finished\n" []
  pure checked

unfoldable pub conffile_reload : Os → Conf → Outcome Conf
unfolding conffile_free conffile_check
conffile_reload os conf = do
  freed ← conffile_free conf
  read ← conffile_read os freed
  checked ← conffile_check os read
  logger log_notice "configuration file reloaded" []
  emit (signal 1 "conffile_reload")
  pure checked
