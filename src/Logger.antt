-- ===== src/Logger.antt =====
-- logger.c: where a message goes. The other files' calls of `logger` are the effects `log` of
-- their traces; `written` passes such a trace through this component.
pub mod Written
use Prim.Native.String.{String}
use exact.Base.{Bool, true, false, Option, none, some, List, [], ◌∷◌, Bytes, if◌then◌else◌}
use exact.Os.{Os}
use exact.Outcome.{
  Outcome, exit, Level, Arg, Effect, Trace, log, openlog, open_append, stderr, log_debug, ◌>>=◌,
  ◌>>◌, pure, emit,
}

-- A stream that a message can be printed to.
pub data Stream : Type 0 where
  standard_error : Stream
  log_file : Bytes → Stream

-- The globals; `lf` is `none` for the null stream.
pub record Logger : Type 0 where
  pub use_syslog : Bool
  pub lf : Option Stream
  pub debug : Bool

-- The globals' initial values.
abbrev pub initial : Logger
initial = record { use_syslog = false; lf = none; debug = false }

-- The stream that messages go to without syslog.
unfoldable pub open_stream : Os → Option Bytes → Outcome (Option Stream)
open_stream os none = pure (some standard_error)
open_stream os (some path) =
    if os.appendable path
    then emit (open_append path) >> pure (some (log_file path))
    else exit (stderr "Unable to open log file %s\n" (Arg.str path ∷ []) ∷ []) 100

unfoldable pub logger_init : Os → Bool → Bool → Option Bytes → Logger → Outcome Logger
unfolding open_stream
logger_init os u d logfile l = do
  lf ←
      (if u
        then emit (openlog "exact[%d]" (Arg.num os.getpid ∷ [])) >> pure l.lf
        else open_stream os logfile)
  exact.Outcome.logger log_debug "Running in debug mode\n" []
  pure (record { use_syslog = u; lf = lf; debug = d })

pub data Destination : Type 0 where
  syslog : Destination
  printed : Stream → Destination

-- A message that has left the program.
pub record Message : Type 0 where
  pub destination : Destination
  pub level : Level
  pub format : String
  pub args : List Arg

-- `level == LOG_DEBUG`
abbrev pub is_debug : Level → Bool
is_debug log_debug = true
is_debug _ = false

-- The message behind the filter; the null stream becomes the standard error.
unfoldable pub print_message : Logger → Level → String → List Arg → Logger × Option Message
print_message l level fmt args =
    if l.use_syslog
    then (l, some (record { destination = syslog; level = level; format = fmt; args = args }))
    else elim l.lf [
      | none ↦ (
        record l { lf = some standard_error },
        some (record {
          destination = printed standard_error;
          level = level;
          format = fmt;
          args = args;
        }),
      )
      | some stream ↦ (
        l,
        some (record { destination = printed stream; level = level; format = fmt; args = args }),
      )
    ]

unfoldable pub logger : Logger → Level → String → List Arg → Logger × Option Message
unfolding print_message
logger l level fmt args =
    if is_debug level
    then (if l.debug then print_message l level fmt args else (l, none))
    else print_message l level fmt args

abbrev pub cons_some {ℓ} : {A : Type ℓ} → Option A → List A → List A
cons_some none xs = xs
cons_some (some x) xs = x ∷ xs

-- The messages that the calls in a trace leave.
unfoldable pub written : Logger → Trace → List Message
unfolding logger
written l [] = []
written l (log level fmt args ∷ t) =
    cons_some (logger l level fmt args).1 (written (logger l level fmt args).0 t)
written l (_ ∷ t) = written l t
