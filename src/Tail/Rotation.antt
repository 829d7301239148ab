-- ===== src/Tail/Rotation.antt =====
-- tail.c: a log that has been quiet is opened again, and a log that is missing is looked for.
use mathlib.Core.Path.{subst}
use exact.Base.{
  ℕ, ◌+◌, ◌^◌, ◌<◌, true, false, Option, none, some, [], ◌∷◌, ◌≡◌, refl, sym, ap, Bytes, codes,
  arith, inl, inr, ltb, lt→ltb, if◌then◌else◌, length, Bool-cases,
}
use exact.Base.Int.{ltb_ℤ, sub_ℕ}
use exact.Libc.{atoi}
use exact.Os.{Os}
use exact.Outcome.{Ends, after, log, log_debug, nap, ◌>>=◌}
use exact.Outcome.Laws.{Ends-after, Ends-bind}
use exact.Conffile.Param.{Conf, conffile_param, conffile_param_int-some}
use exact.Tail.{
  Tail, seek_reopened, tail_reopen, reopen_quiet, read_or_reopen, read_missing, read_open,
  tail_read,
}
use exact.Tail.Reading.{HasRead, last_growth, tail_read-open, tail_read-HasRead}

-- Where reading goes on in a file that was opened again.
abbrev pub resume : ℕ → Option Bytes → Option ℕ
resume current none = none
resume current (some bytes) = some (if ltb (length bytes) current then 0 else current)

-- What a read leaves that opened the file of the log's name.
abbrev pub Reopened : Os → Bytes → Tail → ℕ → ℕ → Tail → Type 0
Reopened os maillog s current now t =
    t ≡ record s { f = resume current (os.readable maillog); last = now; tail_bufflen = 0 }

module _ (os : Os) (conf : Conf) (maillog : Bytes)
    (has_maillog : conffile_param conf (codes "maillog") ≡ some maillog)
    (seeks : (k : ℕ) → os.fseek k ≡ true) where
  seek_reopened-Ends :
      (k current : ℕ) (bytes : Bytes)
      → Ends (λ _. ⊥) (λ f. f ≡ resume current (some bytes)) (seek_reopened os k current bytes)
  unfolding seek_reopened
  seek_reopened-Ends k current bytes = elim (Bool-cases (ltb (length bytes) current)) [
    | inl rotated ↦ rw (rotated, seeks k) refl
    | inr same ↦ rw (same, seeks k) refl
  ]

  reopened :
      (k current : ℕ) (o : Option Bytes)
      → os.readable maillog ≡ o
      → Ends (λ _. ⊥) (λ f. f ≡ resume current o) (tail_reopen os conf k current)
  unfolding tail_reopen
  reopened k current none is = rw (has_maillog, is) refl
  reopened k current (some bytes) is =
      rw (has_maillog, is)
        (Ends-after (λ _. ⊥) (λ f. f ≡ resume current (some bytes))
          (log log_debug "suspicious about file, reopening\n" [] ∷ [])
          (after [] (seek_reopened os k current bytes))
          (Ends-after (λ _. ⊥) (λ f. f ≡ resume current (some bytes)) []
            (seek_reopened os k current bytes) (seek_reopened-Ends k current bytes)))

  tail_reopen-Ends :
      (k current : ℕ)
      → Ends
          (λ _. ⊥)
          (λ f. f ≡ resume current (os.readable maillog))
          (tail_reopen os conf k current)
  tail_reopen-Ends k current = reopened k current (os.readable maillog) refl

  -- With the log's parameter set, no open log, and a system that serves the seeks: a read returns; it
  -- leaves the log open at its start if it is there, an empty buffer and the same pause.
  pub tail_read-missing :
      (s : Tail)
      → s.f ≡ none
      → Ends (λ _. ⊥) (Reopened os maillog s 0 (os.time 0)) (tail_read os conf s)
  unfolding tail_read read_missing
  tail_read-missing s closed = rw closed (
      Ends-bind (λ _. ⊥) (λ f. f ≡ resume 0 (os.readable maillog))
        (Reopened os maillog s 0 (os.time 0)) (tail_reopen os conf 0 0) _ (tail_reopen-Ends 0 0)
        (λ f is. ap (λ g. record s { f = g; last = os.time 0; tail_bufflen = 0 }) is))

  module _ (suspicious : Bytes)
      (has_suspicious : conffile_param conf (codes "suspicious") ≡ some suspicious) (s : Tail)
      (current : ℕ) (is_open : s.f ≡ some current)
      (quiet : ltb_ℤ (atoi suspicious) (sub_ℕ (os.time 1) (last_growth os s current)) ≡ true) where
    reopen_quiet-Reopened :
        (t : Tail)
        → record t { last = 0 } ≡ record s { last = 0 }
        → Ends (λ _. ⊥) (Reopened os maillog s current (os.time 2)) (reopen_quiet os conf t current)
    unfolding reopen_quiet
    reopen_quiet-Reopened t same =
        Ends-bind (λ _. ⊥) (λ f. f ≡ resume current (os.readable maillog))
          (Reopened os maillog s current (os.time 2)) (tail_reopen os conf 2 current) _
          (tail_reopen-Ends 2 current)
          (λ f is. rw is (
            ap
              (λ (u : Tail). record u {
                f = resume current (os.readable maillog);
                last = os.time 2;
                tail_bufflen = 0;
              })
              same))

    read_or_reopen-Reopened :
        Ends
          (λ _. ⊥)
          (Reopened os maillog s current (os.time 2))
          (read_or_reopen os conf s current (length os.stream) (atoi suspicious))
    unfolding read_or_reopen
    read_or_reopen-Reopened = elim (Bool-cases (ltb current (length os.stream))) [
      | inl more ↦
          rw (more, rw more at quiet) (reopen_quiet-Reopened (record s { last = os.time 0 }) refl)
      | inr same ↦ rw (same, rw same at quiet) (reopen_quiet-Reopened s refl)
    ]

    read_open-Reopened :
        Ends (λ _. ⊥) (Reopened os maillog s current (os.time 2)) (read_open os conf s current)
    unfolding read_open
    read_open-Reopened =
        let P = Reopened os maillog s current (os.time 2) in
        let m = read_or_reopen os conf s current (length os.stream) (atoi suspicious) in
        rw
          (
            seeks 0,
            seeks 1,
            conffile_param_int-some conf (codes "suspicious") suspicious has_suspicious,
          )
          (Ends-after (λ _. ⊥) P (nap s.paws ∷ []) (after [] (after [] (after [] m)))
            (Ends-after (λ _. ⊥) P [] (after [] (after [] m))
              (Ends-after (λ _. ⊥) P [] (after [] m)
                (Ends-after (λ _. ⊥) P [] m read_or_reopen-Reopened))))

    -- With the log's parameter and the suspicious time set, the log open at a position but quiet for
    -- longer than that time, and a system that serves the seeks: a read returns; it leaves an empty
    -- buffer, the same pause, and the file that now has the log's name open: at the old position if it
    -- is that long, at its start if it is shorter, and no file if there is none.
    pub tail_read-quiet :
        Ends (λ _. ⊥) (Reopened os maillog s current (os.time 2)) (tail_read os conf s)
    tail_read-quiet =
        subst (Ends (λ _. ⊥) (Reopened os maillog s current (os.time 2)))
          (sym (tail_read-open os conf s current is_open)) read_open-Reopened

    -- With the log's parameter and the suspicious time set, the log open at a position but quiet for
    -- longer than that time, a buffer, the file of the log's name now shorter than the position, and a
    -- system that serves the seeks; and at the next read, that of the new file, again a log that is not
    -- quiet, below 4 GiB, and a system that serves the seeks and the memory: the two reads return, and
    -- leave the whole new file in the buffer, from its first byte.
    pub rotated-HasRead :
        (next : Os) (new old : Bytes)
        → os.readable maillog ≡ some new
        → length new < current
        → s.tail_buff ≡ some old
        → length next.stream + 1 < 2 ^ 32
        → ltb_ℤ
            (atoi suspicious)
            (sub_ℕ (next.time 1) (if ltb 0 (length next.stream) then next.time 0 else os.time 2))
          ≡ false
        → ((k : ℕ) → next.fseek k ≡ true)
        → ((size : ℕ) → next.realloc size ≡ true)
        → Ends (λ _. ⊥) (HasRead next.stream 0 s.paws) (tail_read os conf s >>= tail_read next conf)
    rotated-HasRead next new old is shorter buff few lively next_seeks memory =
        Ends-bind (λ _. ⊥) (Reopened os maillog s current (os.time 2))
          (HasRead next.stream 0 s.paws) (tail_read os conf s) (tail_read next conf) tail_read-quiet
          (λ t at. rw at (
            tail_read-HasRead next conf _ 0
              (record {
                is_open = rw (is, lt→ltb (length new) current shorter) refl;
                old = old;
                has_buffer = buff;
                suspicious = suspicious;
                has_suspicious = has_suspicious;
                lively = lively;
                seeks = next_seeks;
                memory = memory;
              })
              (omega arith) (omega (arith, few))))
