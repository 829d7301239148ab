-- ===== src/Conffile/File.antt =====
-- conffile.c: the configuration file, read into the parameter table.
use exact.Base.{
  ℕ, zero, suc, ◌+◌, Bool, true, ◌||◌, Option, none, some, [], ◌∷◌, ◌++◌, Bytes, codes, ltb, ◌==◌,
  if◌then◌else◌, length,
}
use exact.Libc.{fgets, c_string, strncpy}
use exact.Os.{Os}
use exact.Outcome.{
  Trace, Outcome, fault, log_err, log_debug, log_notice, Arg, ◌>>=◌, ◌>>◌, pure, logger, die,
}
use exact.Conffile.Param.{Param, Conf}

unfoldable pub zap_comments : Bytes → Bytes
zap_comments [] = []
zap_comments (c ∷ cs) = if c == b'#' then [] else c ∷ zap_comments cs

abbrev pub is_blank : ℕ → Bool
is_blank c = c == b'\t' || c == b' '

-- `\([^\t ]*\)`, `[ \t]*` and `\(.*\)`: the name is the longest part with no blank, then all blanks
-- are passed over, and the value is the rest.
unfoldable pub name_of : Bytes → Bytes
name_of [] = []
name_of (c ∷ cs) = if is_blank c then [] else c ∷ name_of cs

unfoldable pub behind_name : Bytes → Bytes
behind_name [] = []
behind_name (c ∷ cs) = if is_blank c then c ∷ cs else behind_name cs

unfoldable pub skip_blanks : Bytes → Bytes
skip_blanks [] = []
skip_blanks (c ∷ cs) = if is_blank c then skip_blanks cs else c ∷ cs

abbrev pub value_of : Bytes → Bytes
value_of s = skip_blanks (behind_name s)

-- The length of `param`.
abbrev pub param_size : ℕ
param_size = 16

-- `param[param_max] = …; param_max++`. Past the array it is a fault.
unfoldable pub add_param : Param → Conf → Outcome Conf
add_param p conf =
    if ltb (length conf.param) param_size
    then pure (record conf { param = conf.param ++ p ∷ [] })
    else fault []

-- The string without its last byte.
unfoldable pub drop_last : Bytes → Bytes
drop_last [] = []
drop_last (c ∷ []) = []
drop_last (c ∷ d ∷ cs) = c ∷ drop_last (d ∷ cs)

-- A non-empty line behind the comment's removal.
unfoldable pub add_line : Bytes → Conf → Outcome Conf
unfolding add_param
add_line [] conf = pure conf
add_line (c ∷ cs) conf = do
  let name = name_of (c ∷ cs)
  let value = value_of (c ∷ cs)
  after_add ← add_param (record { name = name; value = value; allocated = true }) conf
  logger log_debug "Config name: [%s] value: [%s]\n" (Arg.str name ∷ Arg.str value ∷ [])
  pure after_add

-- One round of the loop on what `fgets` gave. The last byte is cut off, newline or not; an empty
-- string has none, and the write goes in front of the buffer.
unfoldable pub read_line : Bytes → Conf → Outcome Conf
unfolding add_line drop_last zap_comments
read_line s conf = elim (c_string s) [
  | [] ↦ fault []
  | c ∷ cs ↦ add_line (zap_comments (drop_last (c ∷ cs))) conf
]

-- The loop. With no fuel left the model stops in a fault with the trace `stop`, which is empty in
-- the whole program.
unfoldable pub read_loop : Trace → ℕ → Bytes → Conf → Outcome Conf
unfolding read_line
read_loop stop zero file conf = fault stop
read_loop stop (suc fuel) file conf = elim (fgets 1023 file) [
  | none ↦ pure conf
  | some l ↦ read_line l.line conf >>= read_loop stop fuel l.unread
]

-- `conffile_name`: the name, and the globals behind the call.
unfoldable pub conffile_name : Os → Conf → Conf
conffile_name os conf =
    if conf.filename_set
    then conf
    else record conf { filename = os.confdir ++ codes "/exact.conf"; filename_set = true }

unfoldable pub conffile_setname : Bytes → Conf → Outcome Conf
conffile_setname s conf = do
  logger log_notice "Using configuration file %s\n" (Arg.str s ∷ [])
  pure (record conf { filename = strncpy s 2047; filename_set = true })

-- Behind the call of `fopen`. Each round of the loop takes a byte at least, so one more than the
-- bytes are enough rounds.
unfoldable pub read_file : Conf → Option Bytes → Outcome Conf
unfolding read_loop
read_file conf none =
    die log_err "Cannot read configuration file %s\n" (Arg.str conf.filename ∷ []) 5
read_file conf (some file) = do
  read ← read_loop [] (length file + 1) file conf
  logger log_debug "Finished reading configuration file\n" []
  pure read

unfoldable pub conffile_read : Os → Conf → Outcome Conf
unfolding read_file conffile_name
conffile_read os conf = do
  let named = conffile_name os conf
  logger log_debug "Opening configuration file %s\n" (Arg.str named.filename ∷ [])
  read_file named (os.readable named.filename)
