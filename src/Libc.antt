-- ===== src/Libc.antt =====
-- The C library's functions on strings that the program calls, over lists of bytes. A C string is
-- the list of its bytes in front of the terminator, so none of them is 0.
pub mod Order
pub mod Lines
use Prim.Native.Nat.{compare, Ordering}
use exact.Base.{
  ℕ, zero, suc, ◌+◌, ◌-◌, ◌*◌, ◌/◌, ◌%◌, ◌^◌, min, Bool, true, false, ◌&&◌, ◌||◌, Option, none,
  some, List, [], ◌∷◌, ◌++◌, Bytes, codes, ltb, leb, ◌==◌, if◌then◌else◌, take,
}
use exact.Base.Int.{ℤ, pos, negsuc, sub_ℕ}

-- `strcmp`: the sign of the result, by the first byte that differs.
unfoldable pub strcmp : Bytes → Bytes → Ordering
strcmp [] [] = Ordering.eq
strcmp [] (y ∷ ys) = Ordering.lt
strcmp (x ∷ xs) [] = Ordering.gt
strcmp (x ∷ xs) (y ∷ ys) = elim (compare x y) [
  | Ordering.lt ↦ Ordering.lt
  | Ordering.eq ↦ strcmp xs ys
  | Ordering.gt ↦ Ordering.gt
]

-- `!strcmp(s, t)`
unfoldable pub str_eq : Bytes → Bytes → Bool
unfolding strcmp
str_eq s t = elim (strcmp s t) [ Ordering.eq ↦ true | _ ↦ false ]

-- The C string that starts at the head of some memory.
unfoldable pub c_string : Bytes → Bytes
c_string [] = []
c_string (c ∷ cs) = if c == 0 then [] else c ∷ c_string cs

-- What `strncpy(dst, s, n)` stores of `s`: its first `n` bytes at most.
abbrev pub strncpy : Bytes → ℕ → Bytes
strncpy s n = take n s

is_space : ℕ → Bool
is_space c = c == b' ' || leb 9 c && leb c 13

is_digit : ℕ → Bool
is_digit c = leb b'0' c && leb c b'9'

digits_value : ℕ → Bytes → ℕ
digits_value acc [] = acc
digits_value acc (c ∷ cs) =
    let rest = digits_value (acc * 10 + (c - b'0')) cs in if is_digit c then rest else acc

signed_value : Bytes → ℤ
signed_value [] = pos 0
signed_value (c ∷ cs) =
    if c == b'-'
    then sub_ℕ 0 (digits_value 0 cs)
    else if c == b'+'
    then pos (digits_value 0 cs)
    else pos (digits_value 0 (c ∷ cs))

skip_space : Bytes → Bytes
skip_space [] = []
skip_space (c ∷ cs) = if is_space c then skip_space cs else c ∷ cs

-- The low 32 bits of a number, read as a signed int.
low_int : ℕ → ℤ
low_int m = if ltb (m % 2 ^ 32) (2 ^ 31) then pos (m % 2 ^ 32) else sub_ℕ (m % 2 ^ 32) (2 ^ 32)

-- The conversion of `strtol`'s long, which stops at its bounds, to an int.
as_int : ℤ → ℤ
unfolding low_int
as_int (pos n) = low_int (min n (2 ^ 63 - 1))
as_int (negsuc n) = low_int (2 ^ 64 - min (n + 1) (2 ^ 63))

-- `atoi`, as `(int) strtol`: blanks, a sign, and the digits that follow; 0 where there are none.
unfoldable pub atoi : Bytes → ℤ
unfolding is_space is_digit digits_value signed_value skip_space as_int
atoi s = as_int (signed_value (skip_space s))

-- What `fgets` takes from a stream: the line, what is left, and whether it met the end of the file.
pub record Line : Type 0 where
  pub line : Bytes
  pub unread : Bytes
  pub at_end : Bool

unfoldable pub fgets_room : ℕ → Bytes → Line
fgets_room zero s = record { line = []; unread = s; at_end = false }
fgets_room (suc room) [] = record { line = []; unread = []; at_end = true }
fgets_room (suc room) (c ∷ cs) =
    let rest = fgets_room room cs in
    if c == b'\n'
    then record { line = c ∷ []; unread = cs; at_end = false }
    else record rest { line = c ∷ rest.line }

-- `fgets` with a buffer of `size` bytes; `none` is the null pointer.
unfoldable pub fgets : ℕ → Bytes → Option Line
unfolding fgets_room
fgets size [] = none
fgets size (c ∷ cs) = some (fgets_room (size - 1) (c ∷ cs))
