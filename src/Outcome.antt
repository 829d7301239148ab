-- ===== src/Outcome.antt =====
-- What a call of the program does: the effects that it has on the world, in order, and then a
-- result, an exit with a status, or a fault. A fault is what C leaves undefined (a null pointer
-- that is read, a write out of bounds, a free of what was not allocated) and a failed assert.
pub mod Laws
pub mod Files
pub mod Quiet
pub mod Returns
pub mod Triple
pub mod Faultless
use Prim.Native.String.{String}
use exact.Base.{ℕ, Bool, true, false, Option, none, some, List, [], ◌∷◌, ◌++◌, Bytes}
use exact.Base.Int.{ℤ}

pub data Level : Type 0 where
  log_crit log_err log_notice log_debug : Level

-- An argument of a printf call; `date t` is the text that `strftime` makes of the local time `t`.
pub data Arg : Type 0 where
  str : Bytes → Arg
  num date : ℕ → Arg
  int : ℤ → Arg

pub data Effect : Type 0 where
  log : Level → String → List Arg → Effect
  creat open_append unlink chdir : Bytes → Effect
  fprintf : Bytes → String → List Arg → Effect
  chmod : Bytes → ℕ → Effect
  -- the disk is full: of the bytes written to the file the first so many are kept
  truncated : Bytes → ℕ → Effect
  rename : Bytes → Bytes → Effect
  signal : ℕ → String → Effect
  alarm : ℤ → Effect
  nap sleep close umask setgid setegid setuid seteuid : ℕ → Effect
  openlog : String → List Arg → Effect
  stderr : String → List Arg → Effect
  fork setsid : Effect

abbrev pub Trace : Type 0
Trace = List Effect

pub data Outcome (A : Type 0) : Type 0 where
  done : Trace → A → Outcome A
  exit : Trace → ℕ → Outcome A
  fault : Trace → Outcome A

-- `after t m` is `m` with the effects `t` in front.
abbrev pub after : {A : Type 0} → Trace → Outcome A → Outcome A
after t (done u a) = done (t ++ u) a
after t (exit u n) = exit (t ++ u) n
after t (fault u) = fault (t ++ u)

infixl 5 ◌>>=◌ ◌>>◌
abbrev pub ◌>>=◌ : {A B : Type 0} → Outcome A → (A → Outcome B) → Outcome B
done t a >>= f = after t (f a)
exit t n >>= f = exit t n
fault t >>= f = fault t

abbrev pub ◌>>◌ : {B : Type 0} → Outcome (Unit {0}) → Outcome B → Outcome B
m >> k = m >>= λ _. k

abbrev pub pure : {A : Type 0} → A → Outcome A
pure a = done [] a

abbrev pub emit : Effect → Outcome (Unit {0})
emit e = done (e ∷ []) tt

-- `logger(level, fmt, …)`
abbrev pub logger : Level → String → List Arg → Outcome (Unit {0})
logger level fmt args = emit (log level fmt args)

-- `logger(level, fmt, …); exit(status);`
abbrev pub die : {A : Type 0} → Level → String → List Arg → ℕ → Outcome A
die level fmt args status = exit (log level fmt args ∷ []) status

-- A pointer that the code follows without a test.
abbrev pub deref : {A : Type 0} → Option A → Outcome A
deref none = fault []
deref (some a) = pure a

abbrev pub trace_of : {A : Type 0} → Outcome A → Trace
trace_of (done t _) = t
trace_of (exit t _) = t
trace_of (fault t) = t

-- How a call ends: it returns a value with `P`, or exits with a status with `E`; it never faults.
abbrev pub Ends : {A : Type 0} → (ℕ → Type 0) → (A → Type 0) → Outcome A → Type 0
Ends E P (done _ a) = P a
Ends E P (exit _ n) = E n
Ends E P (fault _) = ⊥

abbrev pub IsFault : {A : Type 0} → Outcome A → Type 0
IsFault (done _ _) = ⊥
IsFault (exit _ _) = ⊥
IsFault (fault _) = Unit
