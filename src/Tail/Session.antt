-- ===== src/Tail/Session.antt =====
-- tail.c: a sequence of reads of a growing log takes every byte once.
use mathlib.Core.Path.{subst}
use exact.Base.{
  ℕ, ◌+◌, ◌^◌, ◌<◌, true, false, Option, none, some, [], ◌++◌, ◌≡◌, refl, sym, ap, ◌∙◌, Bytes,
  codes, arith, length, take, drop, length-append, length-drop, drop_append, take_all, append_assoc,
  append-nil,
}
use exact.Base.Int.{ltb_ℤ, sub_ℕ}
use exact.Libc.{atoi}
use exact.Os.{Os}
use exact.Outcome.{done, Trace, Ends}
use exact.Conffile.Param.{Conf, conffile_param}
use exact.Tail.{Tail, tail_read}
use exact.Tail.Reading.{Follows, HasRead, last_growth, tail_read-HasRead}

-- The log is not quiet, and the system serves the seeks and the memory.
pub record Serves (os : Os) (conf : Conf) (s : Tail) (current : ℕ) : Type 0 where
  pub suspicious : Bytes
  pub has_suspicious : conffile_param conf (codes "suspicious") ≡ some suspicious
  pub lively : ltb_ℤ (atoi suspicious) (sub_ℕ (os.time 1) (last_growth os s current)) ≡ false
  pub seeks : (k : ℕ) → os.fseek k ≡ true
  pub memory : (size : ℕ) → os.realloc size ≡ true

-- The bytes that a pass scans.
abbrev pub scanned_bytes : Tail → Bytes
scanned_bytes t = elim t.tail_buff [ none ↦ [] | some b ↦ take t.tail_bufflen b ]

-- Reads one after the other, from a state and a log on: the log at the last of them, all the bytes
-- that they left for the passes, and the state behind them. Between two reads the log may grow.
pub data Reads (conf : Conf) (start : Tail) (log : Bytes) : Bytes → Bytes → Tail → Type 0 where
  no_read : Reads conf start log log [] start
  next_read :
      (os : Os) (stream got added : Bytes) (t u : Tail) (tr : Trace)
      → Reads conf start log stream got t
      → os.stream ≡ stream ++ added
      → length added + 1 < 2 ^ 32
      → Serves os conf t (length stream)
      → tail_read os conf t ≡ done tr u
      → Reads conf start log os.stream (got ++ scanned_bytes u) u

-- The stream is open at a position, with a buffer.
abbrev pub OpenAt : ℕ → Tail → Type 0
OpenAt current t = (t.f ≡ some current) × ((old : Bytes) × (t.tail_buff ≡ some old))

-- One read, with its result at hand.
read_one :
    (conf : Conf) (os : Os) (stream added : Bytes) (t u : Tail) (tr : Trace)
    → OpenAt (length stream) t
    → os.stream ≡ stream ++ added
    → length added + 1 < 2 ^ 32
    → Serves os conf t (length stream)
    → tail_read os conf t ≡ done tr u
    → HasRead os.stream (length stream) t.paws u
read_one conf os stream added t u tr (is_open, (old, buff)) grows few serves result =
    let size : length os.stream ≡ length stream + length added =
      ap length grows ∙ length-append stream added in
    let fo : Follows os conf t (length stream) = record {
      is_open = is_open;
      old = old;
      has_buffer = buff;
      suspicious = serves.suspicious;
      has_suspicious = serves.has_suspicious;
      lively = serves.lively;
      seeks = serves.seeks;
      memory = serves.memory;
    } in
    subst (λ m. Ends (λ _. ⊥) (HasRead os.stream (length stream) t.paws) m) result
      (tail_read-HasRead os conf t (length stream) fo (omega (arith, size))
        (omega (arith, size, few)))

scanned_whole :
    (o : Option Bytes) (n : ℕ) (d : Bytes)
    → o ≡ some d
    → n ≡ length d
    → elim o [ none ↦ [] | some b ↦ take n b ] ≡ d
scanned_whole o n d is len = rw (is, len) (take_all (length d) d (omega arith))

scanned-HasRead :
    (stream added s : Bytes) (paws : ℕ) (u : Tail)
    → s ≡ stream ++ added
    → HasRead s (length stream) paws u
    → scanned_bytes u ≡ added
scanned-HasRead stream added s paws u grows r =
    scanned_whole u.tail_buff u.tail_bufflen (drop (length stream) s) r.buff
      (r.bufflen ∙ sym (length-drop (length stream) s))
    ∙ ap (drop (length stream)) grows
    ∙ drop_append stream added (length stream) refl

-- From a log that is open at its end: whatever the reads and whatever is appended between them, below
-- 4 GiB at a time, to a log that never gets quiet and with a system that serves the reads, the bytes
-- that the passes were given are, in order, exactly those appended to the log since, each once; and the
-- log is open at its end again.
pub Reads-whole :
    (conf : Conf) (start : Tail) (log stream got : Bytes) (t : Tail)
    → OpenAt (length log) start
    → Reads conf start log stream got t
    → (stream ≡ log ++ got) × OpenAt (length stream) t
Reads-whole conf start log stream got t open_ no_read = (sym (append-nil log), open_)
Reads-whole conf start log stream got t open_
      (next_read os old had added t' u tr before grows few serves result) =
    let (whole, at_end) = Reads-whole conf start log old had t' open_ before in
    let r = read_one conf os old added t' u tr at_end grows few serves result in
    (
      grows
          ∙ ap (λ x. x ++ added) whole
          ∙ append_assoc log had added
          ∙ ap (λ x. log ++ (had ++ x))
              (sym (scanned-HasRead old added os.stream t'.paws u grows r)),
      (r.position, (drop (length old) os.stream, r.buff)),
    )
