-- ===== src/Tail/Reading.antt =====
-- A read takes exactly the bytes that were added to the log.
use mathlib.Core.Path.{subst}
use exact.Base.{
  ℕ, min, max, ◌*◌, ◌/◌, ◌+◌, ◌-◌, ◌%◌, ◌^◌, ◌≤◌, ◌<◌, true, false, ◌&&◌, none, some, [], ◌∷◌, ◌≡◌,
  refl, sym, ap, ◌∙◌, Bytes, codes, inl, inr, arith, ltb, le→ltb, ◌==◌, if◌then◌else◌, length, take,
  drop, Bool-cases, length-drop, take_all, drop_all,
}
use exact.Base.Int.{sub_ℕ, ltb_ℤ}
use exact.Libc.{atoi}
use exact.Os.{Os}
use exact.Outcome.{after, Ends, log, log_debug, Arg, nap}
use exact.Outcome.Laws.{Ends-after}
use exact.Conffile.Param.{Conf, conffile_param, conffile_param_int-some}
use exact.Tail.{
  Tail, buffer, fill, read_bytes, read_or_reopen, read_missing, read_open, tail_read, new_bytes,
  next_paws, linecount, count_newlines, paws_max,
}

-- The newlines of a text.
abbrev pub newlines : Bytes → Bytes
newlines [] = []
newlines (c ∷ cs) = if c == b'\n' then c ∷ newlines cs else newlines cs

-- The pause behind a read of so many lines: shared out among them, but never zero; or, without a
-- line, twice as long up to the maximum.
abbrev pub pause_after : ℕ → ℕ → ℕ
pause_after lines paws = if lines == 0 then min (paws * 2) paws_max else max 1 (paws / lines)

-- The lines that are counted: from 2 GiB on none is.
abbrev pub counted : Bytes → ℕ
counted new = if ltb (length new) (2 ^ 31) then length (newlines new) else 0

count_newlines-length : (s : Bytes) → count_newlines s ≡ length (newlines s)
unfolding count_newlines
count_newlines-length [] = refl
count_newlines-length (c ∷ cs) = ground (arith, count_newlines-length cs)

linecount-counted : (s : Bytes) (n : ℕ) → length s ≡ n → linecount s n ≡ counted s
unfolding linecount
linecount-counted s n size =
    rw (← size, take_all (length s) s (omega arith), count_newlines-length s) refl

next_paws-pause_after : (lines p : ℕ) → next_paws lines p ≡ pause_after lines p
unfolding next_paws
next_paws-pause_after lines p = grind arith

-- What a read leaves: the bytes from `current` to the end, and the stream at the end.
pub record HasRead (stream : Bytes) (current paws : ℕ) (t : Tail) : Type 0 where
  pub buff : t.tail_buff ≡ some (drop current stream)
  pub bufflen : t.tail_bufflen ≡ length stream - current
  pub position : t.f ≡ some (length stream)
  pub pause : t.paws ≡ pause_after (counted (drop current stream)) paws

buffer-some :
    (os : Os) (s : Tail) (n : ℕ) (old : Bytes)
    → s.tail_buff ≡ some old
    → ((size : ℕ) → os.realloc size ≡ true)
    → (b : Bytes) × (buffer os s n ≡ some b)
buffer-some os s n old h memory = elim (Bool-cases (ltb 0 n)) [
  | inl more ↦ ([], rw (more, memory))
  | inr empty ↦ (old, rw (empty, h))
]

module _ (os : Os) (current : ℕ) (grown : current ≤ length os.stream)
    (few : length os.stream - current + 1 < 2 ^ 32) where
  whole : take (length os.stream - current) (drop current os.stream) ≡ drop current os.stream
  whole = take_all _ _ (omega (arith, length-drop current os.stream))

  pub new_bytes-grown : new_bytes (length os.stream) current ≡ length os.stream - current
  unfolding new_bytes
  new_bytes-grown = ground arith

  fill-HasRead :
      (s : Tail)
      → Ends
          (λ _. ⊥)
          (HasRead os.stream current s.paws)
          (fill os s current (length os.stream - current))
  unfolding fill
  fill-HasRead s =
      let n = length os.stream - current in
      let d = drop current os.stream in
      let size : length d ≡ n = length-drop current os.stream in
      let room : (ltb 0 n && ltb ((n + 1) % 2 ^ 32) (length d)) ≡ false = rw size (ground arith) in
      let all : (length d == n) ≡ true = rw size (ground arith) in
      rw (whole, room, all)
        (record {
          buff = refl;
          bufflen = refl;
          position = ap some (omega arith);
          pause = rw (linecount-counted d n size) (next_paws-pause_after (counted d) s.paws);
        })

  pub read_bytes-HasRead :
      (s : Tail) {old : Bytes}
      → s.tail_buff ≡ some old
      → ((size : ℕ) → os.realloc size ≡ true)
      → Ends
          (λ _. ⊥)
          (HasRead os.stream current s.paws)
          (read_bytes os s current (length os.stream - current))
  unfolding read_bytes
  read_bytes-HasRead s {old} buff memory =
      let n = length os.stream - current in
      let (b, is) = buffer-some os s n old buff memory in
      rw is (
        Ends-after (λ _. ⊥) (HasRead os.stream current s.paws)
          (log log_debug "%ld bytes added to file\n" (Arg.num n ∷ []) ∷ []) (fill os s current n)
          (fill-HasRead s))

new_bytes-shrunk :
    (os : Os) (current : ℕ)
    → length os.stream < current
    → current - length os.stream < 2 ^ 32
    → new_bytes (length os.stream) current ≡ 2 ^ 32 - (current - length os.stream)
unfolding new_bytes
new_bytes-shrunk os current cut less = ground arith

-- `last` behind the measurement.
abbrev pub last_growth : Os → Tail → ℕ → ℕ
last_growth os s current = if ltb current (length os.stream) then os.time 0 else s.last

pub tail_read-open :
    (os : Os) (conf : Conf) (s : Tail) (current : ℕ)
    → s.f ≡ some current
    → tail_read os conf s ≡ read_open os conf s current
unfolding tail_read
tail_read-open os conf s current is =
    ap (λ f. elim f [ none ↦ read_missing os conf s | some c ↦ read_open os conf s c ]) is

-- The stream is open at `current`, the log is not quiet, and the system serves the reads.
pub record Follows (os : Os) (conf : Conf) (s : Tail) (current : ℕ) : Type 0 where
  pub is_open : s.f ≡ some current
  pub old : Bytes
  pub has_buffer : s.tail_buff ≡ some old
  pub suspicious : Bytes
  pub has_suspicious : conffile_param conf (codes "suspicious") ≡ some suspicious
  pub lively : ltb_ℤ (atoi suspicious) (sub_ℕ (os.time 1) (last_growth os s current)) ≡ false
  pub seeks : (k : ℕ) → os.fseek k ≡ true
  pub memory : (size : ℕ) → os.realloc size ≡ true

module _ (os : Os) (conf : Conf) (s : Tail) (current : ℕ) (fo : Follows os conf s current) where
  abbrev measured : Tail
  measured = if ltb current (length os.stream) then record s { last = os.time 0 } else s

  module _ (E : ℕ → Type 0) (P : Tail → Type 0)
      (h : Ends E P (read_bytes os measured current (new_bytes (length os.stream) current))) where
    read_or_reopen-Ends :
        Ends E P (read_or_reopen os conf s current (length os.stream) (atoi fo.suspicious))
    unfolding read_or_reopen
    read_or_reopen-Ends = elim (Bool-cases (ltb current (length os.stream))) [
      | inl more ↦ rw (more, rw more at (fo.lively)) (rw more at h)
      | inr same ↦ rw (same, rw same at (fo.lively)) (rw same at h)
    ]

    read_open-Ends : Ends E P (read_open os conf s current)
    unfolding read_open
    read_open-Ends =
        let m = read_or_reopen os conf s current (length os.stream) (atoi fo.suspicious) in
        rw
          (
            fo.seeks 0,
            fo.seeks 1,
            conffile_param_int-some conf (codes "suspicious") fo.suspicious fo.has_suspicious,
          )
          (Ends-after E P (nap s.paws ∷ []) (after [] (after [] (after [] m))) (
            Ends-after E P [] (after [] (after [] m))
              (Ends-after E P [] (after [] m) (Ends-after E P [] m read_or_reopen-Ends))))

    -- A read of a lively log does what `read_bytes` does.
    pub tail_read-Ends : Ends E P (tail_read os conf s)
    tail_read-Ends =
        subst (Ends E P) (sym (tail_read-open os conf s current fo.is_open)) read_open-Ends

  pub tail_read-HasRead :
      current ≤ length os.stream
      → length os.stream - current + 1 < 2 ^ 32
      → Ends (λ _. ⊥) (HasRead os.stream current s.paws) (tail_read os conf s)
  tail_read-HasRead grown few =
      tail_read-Ends (λ _. ⊥) (HasRead os.stream current s.paws)
        (rw (new_bytes-grown os current grown few)
          (elim (Bool-cases (ltb current (length os.stream))) [
            | inl more ↦ rw more (
                read_bytes-HasRead os current grown few (record s { last = os.time 0 })
                  fo.has_buffer fo.memory)
            | inr same ↦ rw same (read_bytes-HasRead os current grown few s fo.has_buffer fo.memory)
          ]))

  fill-shrunk :
      (t : Tail)
      → length os.stream < current
      → current - length os.stream < 2 ^ 32
      → Ends (λ n. n ≡ 31) (λ _. ⊥) (fill os t current (new_bytes (length os.stream) current))
  unfolding fill
  fill-shrunk t cut less =
      let n = new_bytes (length os.stream) current in
      let nothing : take n (drop current os.stream) ≡ [] =
        ap (take n) (drop_all current os.stream (omega arith))
        ∙ take_all {A = ℕ} n [] (omega arith) in
      let room : (ltb 0 n && ltb ((n + 1) % 2 ^ 32) 0) ≡ false = ground arith in
      let short : (0 == n) ≡ false = ground (arith, new_bytes-shrunk os current cut less) in
      rw (nothing, room, short) refl

  -- With the log open at a position, not quiet for longer than the suspicious time, a system
  -- that serves the seeks and the memory, and the log now shorter than the position by less than
  -- 4 GiB: the read exits with status 31.
  pub tail_read-shrunk :
      length os.stream < current
      → current - length os.stream < 2 ^ 32
      → Ends (λ n. n ≡ 31) (λ _. ⊥) (tail_read os conf s)
  unfolding read_bytes
  tail_read-shrunk cut less =
      let n = new_bytes (length os.stream) current in
      let (b, is) = buffer-some os s n fo.old fo.has_buffer fo.memory in
      tail_read-Ends (λ n. n ≡ 31) (λ _. ⊥)
        (rw (le→ltb current (length os.stream) (omega arith), is)
          (Ends-after (λ n. n ≡ 31) (λ _. ⊥)
            (log log_debug "%ld bytes added to file\n" (Arg.num n ∷ []) ∷ [])
            (fill os measured current n) (fill-shrunk measured cut less)))
