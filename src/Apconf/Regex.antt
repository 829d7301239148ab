-- ===== src/Apconf/Regex.antt =====
-- The POSIX regular expressions of apconf.c: a row of byte classes, each once or as often as it
-- goes, with one group. A search takes the leftmost match, and in it each class as long as it can
-- be; on a line whose only newline is its last byte that is POSIX's leftmost longest match, since
-- every expression of the program ends at a newline.
use exact.Base.{ℕ, ◌+◌, Bool, true, false, Option, none, some, List, [], ◌∷◌, Bytes}

pub data Atom : Type 0 where
  one star : (ℕ → Bool) → Atom
  group_start group_end : Atom

pub record Span : Type 0 where
  pub so : ℕ
  pub eo : ℕ

-- A match at position `i` of the rest of the text. `so` is where the group began, and the result
-- is the group; an expression with no group leaves `none`.
unfoldable pub match_at : List Atom → ℕ → Bytes → ℕ → Option Span → Option (Option Span)
match_at [] i s so group = some group
match_at (one p ∷ r) i [] so group = none
match_at (one p ∷ r) i (c ∷ s) so group = elim (p c) [
  | true ↦ match_at r (i + 1) s so group
  | false ↦ none
]
match_at (star p ∷ r) i [] so group = match_at r i [] so group
match_at (star p ∷ r) i (c ∷ s) so group = elim (p c) [
  | true ↦ elim (match_at (star p ∷ r) (i + 1) s so group) [
    | some found ↦ some found
    | none ↦ match_at r i (c ∷ s) so group
  ]
  | false ↦ match_at r i (c ∷ s) so group
]
match_at (group_start ∷ r) i s so group = match_at r i s i group
match_at (group_end ∷ r) i s so group = match_at r i s so (some (record { so = so; eo = i }))

-- The leftmost match, at position `i` or behind it.
unfoldable pub search_from : List Atom → ℕ → Bytes → Option (Option Span)
unfolding match_at
search_from r i [] = match_at r i [] 0 none
search_from r i (c ∷ s) = elim (match_at r i (c ∷ s) 0 none) [
  | some found ↦ some found
  | none ↦ search_from r (i + 1) s
]
