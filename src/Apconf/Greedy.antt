-- ===== src/Apconf/Greedy.antt =====
-- Where the matcher of apconf.c's expressions finds a class that is repeated, and a value at a line's end.
use exact.Base.{
  ℕ, ◌+◌, Bool, true, false, Option, none, some, List, [], ◌∷◌, ◌++◌, ◌≡◌, refl, ap, ◌∙◌, Bytes,
  arith, length, All,
}
use exact.Apconf.Regex.{Atom, one, star, group_start, group_end, Span, match_at, search_from}

module _ (p : ℕ → Bool) (r : List Atom) where
  pub star-stop :
      (i c : ℕ) (s : Bytes) (so : ℕ) (g : Option Span)
      → p c ≡ false
      → match_at (star p ∷ r) i (c ∷ s) so g ≡ match_at r i (c ∷ s) so g
  unfolding match_at
  star-stop i c s so g stop = rw (stop, match_at) refl

  star-step :
      (i c : ℕ) (s : Bytes) (so : ℕ) (g : Option Span)
      → match_at (star p ∷ r) i (c ∷ s) so g ≡ elim (p c) [
        | true ↦ elim (match_at (star p ∷ r) (i + 1) s so g) [
          | some found ↦ some found
          | none ↦ match_at r i (c ∷ s) so g
        ]
        | false ↦ match_at r i (c ∷ s) so g
      ]
  unfolding match_at
  star-step i c s so g = refl

  star-go :
      (i c : ℕ) (s : Bytes) (so : ℕ) (g : Option Span) (found : Option Span)
      → p c ≡ true
      → match_at (star p ∷ r) (i + 1) s so g ≡ some found
      → match_at (star p ∷ r) i (c ∷ s) so g ≡ some found
  star-go i c s so g found go is = star-step i c s so g ∙ rw (go, is) refl

  pub star-run :
      (cs : Bytes) (i d : ℕ) (s : Bytes) (so : ℕ) (g : Option Span) (found : Option Span)
      → All (λ c. p c ≡ true) cs
      → p d ≡ false
      → match_at r (i + length cs) (d ∷ s) so g ≡ some found
      → match_at (star p ∷ r) i (cs ++ d ∷ s) so g ≡ some found
  star-run [] i d s so g found all stop is =
      star-stop i d s so g stop ∙ ap (λ j. match_at r j (d ∷ s) so g) (omega arith) ∙ is
  star-run (c ∷ cs) i d s so g found all stop is = star-go i c (cs ++ d ∷ s) so g found all.0 (
      star-run cs (i + 1) d s so g found all.1 stop
        (ap (λ j. match_at r j (d ∷ s) so g) (omega arith) ∙ is))

-- A group of one byte or more, as long as it goes, in front of a byte that ends it.
pub group-run :
    (p : ℕ → Bool) (r : List Atom) (c : ℕ) (cs : Bytes) (i d : ℕ) (s : Bytes) (so : ℕ)
    (g : Option Span) (found : Option Span)
    → All (λ x. p x ≡ true) (c ∷ cs)
    → p d ≡ false
    → match_at r
        (i + length (c ∷ cs))
        (d ∷ s)
        i
        (some (record { so = i; eo = i + length (c ∷ cs) }))
      ≡ some found
    → match_at (group_start ∷ one p ∷ star p ∷ group_end ∷ r) i (c ∷ (cs ++ d ∷ s)) so g
      ≡ some found
unfolding match_at
group-run p r c cs i d s so g found all stop is =
    rw (all.0, match_at)
      (star-run p (group_end ∷ r) cs (i + 1) d s i g found all.1 stop
        (ap (λ j. match_at r j (d ∷ s) i (some (record { so = i; eo = j }))) (omega arith) ∙ is))

-- A search that finds at its first position.
pub search-here :
    (r : List Atom) (i c : ℕ) (s : Bytes) (found : Option Span)
    → match_at r i (c ∷ s) 0 none ≡ some found
    → search_from r i (c ∷ s) ≡ some found
unfolding search_from
search-here r i c s found is = rw (is, search_from) refl
