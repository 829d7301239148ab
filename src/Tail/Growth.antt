-- ===== src/Tail/Growth.antt =====
-- tail.c: a read of a log that has grown, with the time of the last growth.
use exact.Base.{ℕ, ◌+◌, ◌-◌, ◌^◌, ◌≤◌, ◌<◌, [], ◌∷◌, ◌≡◌, refl, inl, inr, ltb, length, Bool-cases}
use exact.Os.{Os}
use exact.Outcome.{log, log_debug, Arg, Ends}
use exact.Outcome.Returns.{
  Returns, Returns-after, Returns-done, Returns-if, Returns-option, Returns-fault, Returns-exit,
  Ends-Returns,
}
use exact.Conffile.Param.{Conf}
use exact.Tail.{Tail, buffer, fill, read_bytes, tail_read}
use exact.Tail.Reading.{
  Follows, HasRead, last_growth, new_bytes-grown, read_bytes-HasRead, tail_read-Ends,
}

abbrev LastIs : ℕ → Tail → Type 0
LastIs n t = t.last ≡ n

fill-LastIs :
    (os : Os) (s : Tail) (current len : ℕ) → Returns (LastIs s.last) (fill os s current len)
unfolding fill
fill-LastIs os s current len = Returns-if (LastIs s.last) _ _ _ (Returns-fault (LastIs s.last) []) (
    Returns-if (LastIs s.last) _ _ _ (Returns-exit (LastIs s.last) _ 31)
      (Returns-done (LastIs s.last) _ _ refl))

read_bytes-LastIs :
    (os : Os) (s : Tail) (current len : ℕ) → Returns (LastIs s.last) (read_bytes os s current len)
unfolding read_bytes
read_bytes-LastIs os s current len =
    Returns-after (LastIs s.last)
      (log log_debug "%ld bytes added to file\n" (Arg.num len ∷ []) ∷ []) _
      (Returns-option (LastIs s.last) (buffer os s len) _ _ (Returns-exit (LastIs s.last) _ 30)
        (λ _. fill-LastIs os s current len))

-- What a read of a lively log leaves: the new bytes, and when the log last grew.
abbrev pub Grown : Os → ℕ → Tail → Tail → Type 0
Grown os current s t = HasRead os.stream current s.paws t × LastIs (last_growth os s current) t

pub tail_read-Grown :
    (os : Os) (conf : Conf) (s : Tail) (current : ℕ)
    → Follows os conf s current
    → current ≤ length os.stream
    → length os.stream - current + 1 < 2 ^ 32
    → Ends (λ _. ⊥) (Grown os current s) (tail_read os conf s)
tail_read-Grown os conf s current fo grown few =
    let n = length os.stream - current in
    tail_read-Ends os conf s current fo (λ _. ⊥) (Grown os current s)
      (rw (new_bytes-grown os current grown few)
        (elim (Bool-cases (ltb current (length os.stream))) [
          | inl more ↦
              let t : Tail = record s { last = os.time 0 } in
              rw more (
                Ends-Returns (λ _. ⊥) (HasRead os.stream current s.paws)
                  (LastIs (last_growth os s current)) _
                  (read_bytes-HasRead os current grown few t fo.has_buffer fo.memory)
                  (rw more (read_bytes-LastIs os t current n)))
          | inr same ↦ rw same (
              Ends-Returns (λ _. ⊥) (HasRead os.stream current s.paws)
                (LastIs (last_growth os s current)) _
                (read_bytes-HasRead os current grown few s fo.has_buffer fo.memory)
                (rw same (read_bytes-LastIs os s current n)))
        ]))
