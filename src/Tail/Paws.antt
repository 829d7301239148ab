-- ===== src/Tail/Paws.antt =====
-- The pause between two reads of the log (tail.c, tail_read).
use native.Mathlib.Nat.{pow-suc}
use exact.Base.{ℕ, zero, suc, ◌*◌, ◌^◌, ◌≤◌, ◌<◌, min, ◌≡◌, ◌∙◌, arith}
use exact.Tail.{next_paws, paws_max}

abbrev pub IsPause : ℕ → Type 0
IsPause p = (1 ≤ p) × (p ≤ paws_max)

-- From a pause between one microsecond and the maximum, a read of any number of lines leaves
-- such a pause again.
pub next_paws-IsPause : (lines p : ℕ) → IsPause p → IsPause (next_paws lines p)
unfolding next_paws
next_paws-IsPause lines p h = grind arith

-- The pauses that so many reads without a line leave.
abbrev idle : ℕ → ℕ → ℕ
idle zero p = p
idle (suc k) p = next_paws 0 (idle k p)

-- From a pause p between one microsecond and the maximum, k reads without a line leave the
-- smaller of p * 2^k and the maximum.
idle_closed : (k p : ℕ) → IsPause p → idle k p ≡ min (p * 2 ^ k) paws_max
unfolding next_paws
idle_closed zero p h = omega arith
idle_closed (suc k) p h =
    let doubled : p * 2 ^ suc k ≡ p * 2 ^ k * 2 = rw pow-suc (omega arith) in
    rw doubled (ground (arith, idle_closed k p h))

-- Twenty quiet reads bring any pause back to the maximum.
pub idle_twenty : (p : ℕ) → IsPause p → idle 20 p ≡ paws_max
idle_twenty p h = idle_closed 20 p h ∙ omega arith

-- If a read finds a line, and no more lines than the old pause has microseconds, the new pause
-- times the lines is at most the old pause.
next_paws-busy : (lines p : ℕ) → 0 < lines → lines ≤ p → next_paws lines p * lines ≤ p
unfolding next_paws
next_paws-busy lines p h k = grind arith
