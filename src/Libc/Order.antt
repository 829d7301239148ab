-- ===== src/Libc/Order.antt =====
-- `strcmp` is a strict total order whose ties are equal strings.
use Prim.Native.Nat.{Ordering}
use exact.Base.{◌≡◌, refl, ◌↔◌, true, [], ◌∷◌, Bytes, arith}
use exact.Libc.{strcmp, str_eq}

infix 50 ◌≺◌
abbrev pub ◌≺◌ : Bytes → Bytes → Type 0
s ≺ t = strcmp s t ≡ Ordering.lt

pub strcmp_refl : (s : Bytes) → strcmp s s ≡ Ordering.eq
unfolding strcmp
strcmp_refl [] = refl
strcmp_refl (x ∷ s) = ground (arith, strcmp_refl s)

pub eq_of_strcmp : (s t : Bytes) → strcmp s t ≡ Ordering.eq → s ≡ t
unfolding strcmp
eq_of_strcmp [] [] h = refl
eq_of_strcmp [] (y ∷ t) h = ground arith
eq_of_strcmp (x ∷ s) [] h = ground arith
eq_of_strcmp (x ∷ s) (y ∷ t) h = ground (arith, eq_of_strcmp s t)

pub strcmp_swap : (s t : Bytes) → strcmp s t ≡ Ordering.gt → strcmp t s ≡ Ordering.lt
unfolding strcmp
strcmp_swap [] [] h = ground arith
strcmp_swap [] (y ∷ t) h = ground arith
strcmp_swap (x ∷ s) [] h = refl
strcmp_swap (x ∷ s) (y ∷ t) h = ground (arith, strcmp_swap s t)

pub strcmp_trans :
    (r s t : Bytes) → strcmp r s ≡ Ordering.lt → strcmp s t ≡ Ordering.lt → strcmp r t ≡ Ordering.lt
unfolding strcmp
strcmp_trans [] [] t h k = ground arith
strcmp_trans [] (y ∷ s) [] h k = ground arith
strcmp_trans [] (y ∷ s) (z ∷ t) h k = refl
strcmp_trans (x ∷ r) [] t h k = ground arith
strcmp_trans (x ∷ r) (y ∷ s) [] h k = ground arith
strcmp_trans (x ∷ r) (y ∷ s) (z ∷ t) h k = ground (arith, strcmp_trans r s t)

pub str_eq_iff : (s t : Bytes) → (str_eq s t ≡ true) ↔ (s ≡ t)
unfolding str_eq
str_eq_iff s t = ground (arith, eq_of_strcmp s t, strcmp_refl s)
