-- ===== src/Auth/Table/Sorted.antt =====
-- The order of the table, and the map from hosts to times that it represents.
use Prim.Native.Nat.{Ordering}
use exact.Base.{
  ℕ, suc, Option, none, some, List, [], ◌∷◌, ◌++◌, ◌≡◌, refl, ◌∙◌, Bytes, arith, if◌then◌else◌,
  length, All,
}
use exact.Libc.{str_eq}
use exact.Libc.Order.{◌≺◌, strcmp_trans, strcmp_swap, eq_of_strcmp, strcmp_refl, str_eq_iff}
use exact.Auth.Table.{Entry, insert, auth_cmp, qsort}

-- The time that the table holds for a host.
abbrev pub times : List Entry → Bytes → Option ℕ
times [] h = none
times (e ∷ es) h = if str_eq e.hostname h then some e.t else times es h

-- Every host stands below all that follow it.
abbrev pub IsSorted : List Entry → Type 0
IsSorted [] = Unit
IsSorted (e ∷ es) = All (λ (x : Entry). e.hostname ≺ x.hostname) es × IsSorted es

-- No host stands twice.
abbrev pub IsUnique : List Entry → Type 0
IsUnique [] = Unit
IsUnique (e ∷ es) = (times es e.hostname ≡ none) × IsUnique es

pub All-below :
    (h k : Bytes) (es : List Entry)
    → h ≺ k
    → All (λ (x : Entry). k ≺ x.hostname) es
    → All (λ (x : Entry). h ≺ x.hostname) es
All-below h k [] p a = tt
All-below h k (e ∷ es) p a = (strcmp_trans h k e.hostname p a.0, All-below h k es p a.1)

pub times_below :
    (h : Bytes) (es : List Entry) → All (λ (x : Entry). h ≺ x.hostname) es → times es h ≡ none
times_below h [] a = refl
times_below h (e ∷ es) a =
    ground (arith, a.0, str_eq_iff e.hostname h, strcmp_refl h, times_below h es a.1)

pub IsSorted-IsUnique : (es : List Entry) → IsSorted es → IsUnique es
IsSorted-IsUnique [] s = tt
IsSorted-IsUnique (e ∷ es) s = (times_below e.hostname es s.0, IsSorted-IsUnique es s.1)

-- `insert` and `qsort` keep the map.
pub times-insert :
    (e : Entry) (es : List Entry) (h : Bytes)
    → times (insert e es) h ≡ (if str_eq e.hostname h then some e.t else times es h)
unfolding insert auth_cmp
times-insert e [] h = refl
times-insert e (x ∷ es) h =
    ground
      (arith, times-insert e es h, str_eq_iff e.hostname h, str_eq_iff x.hostname h, strcmp_refl h)

pub times-qsort : (es : List Entry) (h : Bytes) → times (qsort es) h ≡ times es h
unfolding qsort
times-qsort [] h = refl
times-qsort (e ∷ es) h = ground (arith, times-insert e (qsort es) h, times-qsort es h)

pub All-insert :
    (P : Entry → Type 0) (e : Entry) (es : List Entry) → P e → All P es → All P (insert e es)
unfolding insert
All-insert P e [] p a = (p, tt)
All-insert P e (x ∷ es) p a =
    elim (auth_cmp e x)
      as (λ (o : Ordering). All P (elim o [ Ordering.gt ↦ x ∷ insert e es | _ ↦ e ∷ x ∷ es ])) [
        | Ordering.gt ↦ (a.0, All-insert P e es p a.1)
        | Ordering.lt ↦ (p, a)
        | Ordering.eq ↦ (p, a)
      ]

insert-IsSorted :
    (e : Entry) (es : List Entry)
    → IsSorted es
    → times es e.hostname ≡ none
    → IsSorted (insert e es)
unfolding insert auth_cmp
insert-IsSorted e [] s n = (tt, tt)
insert-IsSorted e (x ∷ es) s n = ground (
  arith,
  s.0,
  s.1,
  str_eq_iff x.hostname e.hostname,
  eq_of_strcmp e.hostname x.hostname,
  strcmp_swap e.hostname x.hostname,
  All-below e.hostname x.hostname es,
  All-insert (λ (y : Entry). x.hostname ≺ y.hostname) e es,
  insert-IsSorted e es s.1,
)

-- A table in which no host stands twice comes out of the sort with every host strictly below all
-- that follow it.
pub qsort-IsSorted : (es : List Entry) → IsUnique es → IsSorted (qsort es)
unfolding qsort
qsort-IsSorted [] u = tt
qsort-IsSorted (e ∷ es) u =
    insert-IsSorted e (qsort es) (qsort-IsSorted es u.1) (times-qsort es e.hostname ∙ u.0)

length-insert : (e : Entry) (es : List Entry) → length (insert e es) ≡ suc (length es)
unfolding insert
length-insert e [] = refl
length-insert e (x ∷ es) = ground (arith, length-insert e es)

pub length-qsort : (es : List Entry) → length (qsort es) ≡ length es
unfolding qsort
length-qsort [] = refl
length-qsort (e ∷ es) = omega (arith, length-insert e (qsort es), length-qsort es)

pub All-qsort : (P : Entry → Type 0) (es : List Entry) → All P es → All P (qsort es)
unfolding qsort
All-qsort P [] a = tt
All-qsort P (e ∷ es) a = All-insert P e (qsort es) a.0 (All-qsort P es a.1)

-- A new host at the end.
pub times-append :
    (es : List Entry) (e : Entry) (h : Bytes)
    → times es e.hostname ≡ none
    → times (es ++ e ∷ []) h ≡ (if str_eq e.hostname h then some e.t else times es h)
times-append [] e h n = refl
times-append (x ∷ es) e h n = ground (
  arith,
  times-append es e h,
  str_eq_iff x.hostname h,
  str_eq_iff e.hostname h,
  str_eq_iff x.hostname e.hostname,
)

pub IsUnique-append :
    (es : List Entry) (e : Entry)
    → IsUnique es
    → times es e.hostname ≡ none
    → IsUnique (es ++ e ∷ [])
IsUnique-append [] e u n = (refl, tt)
IsUnique-append (x ∷ es) e u n = ground (
  arith,
  u.0,
  IsUnique-append es e u.1,
  times-append es e x.hostname,
  str_eq_iff x.hostname e.hostname,
  str_eq_iff e.hostname x.hostname,
)
