-- ===== src/Outcome/Files.antt =====
-- What a trace of effects does to the files: a file system as a map from paths to bytes, and the
-- text that a printf call makes.
use Prim.Native.String.{String}
use exact.Base.{
  Bool, false, ◌≢◌, inl, inr, arith, Option-cases, Bool-cases, ℕ, zero, suc, ◌+◌, ◌/◌, ◌%◌, Option,
  none, some, List, [], ◌∷◌, ◌++◌, ◌≡◌, refl, Bytes, codes, ltb, ◌==◌, if◌then◌else◌, take,
}
use exact.Base.Int.{pos, negsuc}
use exact.Libc.{str_eq}
use exact.Libc.Order.{str_eq_iff}
use exact.Outcome.{
  Level, log, Arg, Effect, Trace, creat, open_append, fprintf, truncated, rename, unlink,
}

decimal_onto : ℕ → ℕ → Bytes → Bytes
decimal_onto zero n out = out
decimal_onto (suc fuel) n out =
    let more = decimal_onto fuel (n / 10) ((b'0' + n % 10) ∷ out) in
    if ltb n 10 then (b'0' + n) ∷ out else more

-- `%d` of a number below 2^64, which has 20 digits at most.
unfoldable pub decimal : ℕ → Bytes
unfolding decimal_onto
decimal n = decimal_onto 20 n []

abbrev pub Files : Type 0
Files = Bytes → Option Bytes

abbrev pub update : Bytes → Option Bytes → Files → Files
update path content fs p = if str_eq path p then content else fs p

-- What the text of a message depends on: the C library's `strftime`, the file that an internal logger
-- appends to, and whether it writes the messages of a level.
pub record Printing : Type 0 where
  pub strftime : ℕ → Bytes
  pub log_file : Option Bytes
  pub shows : Level → Bool

-- A path that is apart from another one, and from the log file.
abbrev pub Apart : Printing → Bytes → Bytes → Type 0
Apart printing temp file = (temp ≢ file) × (printing.log_file ≢ some file)

module _ (printing : Printing) where
  abbrev arg_text : Arg → Bytes
  arg_text (Arg.str s) = s
  arg_text (Arg.num n) = decimal n
  arg_text (Arg.int (pos n)) = decimal n
  arg_text (Arg.int (negsuc n)) = b'-' ∷ decimal (suc n)
  arg_text (Arg.date n) = printing.strftime n

  -- A directive takes the next argument. (One that is missing is left out.)
  abbrev directive : List Arg → (List Arg → Bytes) → Bytes
  directive [] rest = rest []
  directive (a ∷ args) rest = arg_text a ++ rest args

  -- A format with `%s` and `%d`, each of two bytes.
  abbrev pub format : Bytes → List Arg → Bytes
  format [] args = []
  format (c ∷ []) args = c ∷ []
  format (c ∷ d ∷ cs) args =
      let plain = c ∷ format (d ∷ cs) args in
      if c == b'%' then directive args (format cs) else plain

  abbrev pub append_to : Option Bytes → Bytes → Option Bytes
  append_to none text = none
  append_to (some old) text = some (old ++ text)

  abbrev pub take_of : ℕ → Option Bytes → Option Bytes
  take_of n none = none
  take_of n (some old) = some (take n old)

  unfoldable pub apply : Effect → Files → Files
  apply (creat path) fs = update path (some []) fs
  apply (fprintf path fmt args) fs = update path (append_to (fs path) (format (codes fmt) args)) fs
  apply (rename from to) fs = update from none (update to (fs from) fs)
  apply (truncated path n) fs = update path (take_of n (fs path)) fs
  apply (unlink path) fs = update path none fs
  apply (open_append path) fs =
      update path (some (elim (fs path) [ none ↦ [] | some old ↦ old ])) fs
  apply (log level fmt args) fs = elim printing.log_file [
    | none ↦ fs
    | some path ↦
        if printing.shows level
        then update path (append_to (fs path) (format (codes fmt) args)) fs
        else fs
  ]
  apply _ fs = fs

  -- A message changes the log file alone.
  pub log_other :
      (path : Bytes) (level : Level) (fmt : String) (args : List Arg) (fs : Files)
      → printing.log_file ≢ some path
      → apply (log level fmt args) fs path ≡ fs path
  unfolding apply
  log_other path level fmt args fs apart = elim (Option-cases printing.log_file) [
    | inl absent ↦ rw absent refl
    | inr (p, is) ↦ elim (Bool-cases (printing.shows level)) [
      | inl shown ↦
          let away : str_eq p path ≡ false = ground (arith, str_eq_iff p path, apart, is) in
          rw (is, shown, away) refl
      | inr hidden ↦ rw (is, hidden) refl
    ]
  ]

  unfoldable pub run : Trace → Files → Files
  run [] fs = fs
  run (e ∷ t) fs = run t (apply e fs)

  -- `Q` holds of the files before, between and after all the effects.
  abbrev pub Always : (Files → Type 0) → Trace → Files → Type 0
  Always Q [] fs = Q fs
  Always Q (e ∷ t) fs = Q fs × Always Q t (apply e fs)

  pub run-append : (t u : Trace) (fs : Files) → run (t ++ u) fs ≡ run u (run t fs)
  unfolding run
  run-append [] u fs = refl
  run-append (e ∷ t) u fs = run-append t u (apply e fs)

  pub Always-map :
      (P Q : Files → Type 0) (t : Trace) (fs : Files)
      → ((gs : Files) → P gs → Q gs)
      → Always P t fs
      → Always Q t fs
  Always-map P Q [] fs k h = k fs h
  Always-map P Q (e ∷ t) fs k h = (k fs h.0, Always-map P Q t (apply e fs) k h.1)
