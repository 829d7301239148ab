-- ===== src/Libc/Lines.antt =====
-- `fgets` on a line that fits the buffer.
use exact.Base.{
  ℕ, zero, suc, ◌+◌, ◌-◌, ◌<◌, some, [], ◌∷◌, ◌++◌, false, ◌≡◌, ◌≢◌, refl, ap, Bytes, arith, length,
  All,
}
use exact.Libc.{fgets, fgets_room, c_string}

room-line :
    (room : ℕ) (l rest : Bytes)
    → All (λ c. c ≢ b'\n') l
    → length l < room
    → fgets_room room (l ++ b'\n' ∷ rest)
      ≡ record { line = l ++ b'\n' ∷ []; unread = rest; at_end = false }
unfolding fgets_room
room-line zero l rest p h = absurd (omega arith)
room-line (suc room) [] rest p h = refl
room-line (suc room) (c ∷ l) rest p h = ground (arith, room-line room l rest p.1)

pub fgets-line :
    (size : ℕ) (l rest : Bytes)
    → All (λ c. c ≢ b'\n') l
    → length l + 1 < size
    → fgets size (l ++ b'\n' ∷ rest)
      ≡ some (record { line = l ++ b'\n' ∷ []; unread = rest; at_end = false })
unfolding fgets
fgets-line size [] rest p h = ap some (room-line (size - 1) [] rest p (omega arith))
fgets-line size (c ∷ l) rest p h = ap some (room-line (size - 1) (c ∷ l) rest p (omega arith))

pub c_string-nonzero : (s : Bytes) → All (λ c. c ≢ 0) s → c_string s ≡ s
unfolding c_string
c_string-nonzero [] p = refl
c_string-nonzero (c ∷ s) p = ground (arith, c_string-nonzero s p.1)
