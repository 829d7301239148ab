-- ===== src/Auth/Table/Search.antt =====
-- The binary search of `auth_present` finds a host exactly when the ordered table holds it.
use Prim.Native.Nat.{Ordering}
use native.Mathlib.Decide.{dec_lt}
use mathlib.Core.Path.{subst}
use exact.Base.{
  ℕ, zero, suc, ◌+◌, ◌/◌, ◌≤◌, ◌<◌, Option, none, some, List, [], ◌∷◌, ◌≡◌, ◌≢◌, refl, sym, ap, ◌∙◌,
  Bytes, inl, inr, arith, ltb, length, get_elem?, All, Bool-cases, take_all,
}
use exact.Libc.{strcmp}
use exact.Libc.Order.{◌≺◌, strcmp_trans, strcmp_swap, eq_of_strcmp, strcmp_refl, str_eq_iff}
use exact.Auth.Table.{Entry, Auth, auth_cmp, bsearch_in, bsearch, auth_present, hostname_max}
use exact.Auth.Table.Sorted.{times, IsSorted}

pub some_inj : (a b : Entry) → some a ≡ some b → a ≡ b
some_inj a b h = cc

get_of_lt : (es : List Entry) (i : ℕ) → i < length es → (e : Entry) × (get_elem? es i ≡ some e)
get_of_lt [] i h = absurd (omega arith)
get_of_lt (e ∷ es) zero h = (e, refl)
get_of_lt (e ∷ es) (suc i) h = get_of_lt es i (omega arith)

get-lt : (es : List Entry) (i : ℕ) (e : Entry) → get_elem? es i ≡ some e → i < length es
get-lt [] i e g = absurd (cc)
get-lt (x ∷ es) zero e g = omega arith
get-lt (x ∷ es) (suc i) e g = omega (arith, get-lt es i e g)

pub All-get {κ} :
    (P : Entry → Type κ) (es : List Entry) (i : ℕ) (e : Entry)
    → All P es
    → get_elem? es i ≡ some e
    → P e
All-get P [] i e a g = absurd (cc)
All-get P (x ∷ es) zero e a g = subst P (some_inj x e g) a.0
All-get P (x ∷ es) (suc i) e a g = All-get P es i e a.1 g

get-IsSorted :
    (es : List Entry) (i j : ℕ) (a b : Entry)
    → IsSorted es
    → i < j
    → get_elem? es i ≡ some a
    → get_elem? es j ≡ some b
    → a.hostname ≺ b.hostname
get-IsSorted [] i j a b s h g k = absurd (cc)
get-IsSorted (x ∷ es) i zero a b s h g k = absurd (omega arith)
get-IsSorted (x ∷ es) zero (suc j) a b s h g k =
    All-get (λ y. a.hostname ≺ y.hostname) es j b
      (subst (λ y. All (λ z. y.hostname ≺ z.hostname) es) (some_inj x a g) s.0) k
get-IsSorted (x ∷ es) (suc i) (suc j) a b s h g k = get-IsSorted es i j a b s.1 (omega arith) g k

not_below_self : (h k : Bytes) → h ≡ k → ¬ (h ≺ k)
not_below_self h k e b = cc (strcmp_refl h)

module _ (key : Entry) (base : List Entry) where
  -- No entry with an index in the range has the key's host.
  abbrev Misses : ℕ → ℕ → Type 0
  Misses l u =
      (j : ℕ) (e : Entry) → l ≤ j → j < u → get_elem? base j ≡ some e → e.hostname ≢ key.hostname

  abbrev Finds : ℕ → ℕ → Option ℕ → Type 0
  Finds l u none = Misses l u
  Finds l u (some i) = (e : Entry) × (get_elem? base i ≡ some e) × (e.hostname ≡ key.hostname)

module _ (key : Entry) (base : List Entry) (sorted : IsSorted base) where
  module _ (l u mid : ℕ) (e : Entry) (g : get_elem? base mid ≡ some e) where
    narrow_below :
        (r : Option ℕ) → key.hostname ≺ e.hostname → Finds key base l mid r → Finds key base l u r
    narrow_below (some i) c f = f
    narrow_below none c f = λ j x p q gj same. elim (dec_lt j mid) [
      | yes less ↦ f j x p less gj same
      | no more ↦ elim (dec_lt mid j) [
        | yes past ↦ not_below_self key.hostname x.hostname (sym same) (
            strcmp_trans key.hostname e.hostname x.hostname c
              (get-IsSorted base mid j e x sorted past g gj))
        | no at ↦
            let here : j ≡ mid = omega arith in
            let ex : e ≡ x = some_inj e x (sym g ∙ ap (get_elem? base) (sym here) ∙ gj) in
            not_below_self key.hostname e.hostname (sym (rw ex same)) c
      ]
    ]

    narrow_above :
        (r : Option ℕ)
        → e.hostname ≺ key.hostname
        → Finds key base (mid + 1) u r
        → Finds key base l u r
    narrow_above (some i) c f = f
    narrow_above none c f = λ j x p q gj same. elim (dec_lt mid j) [
      | yes more ↦ f j x (omega arith) q gj same
      | no less ↦ elim (dec_lt j mid) [
        | yes before ↦ not_below_self x.hostname key.hostname same (
            strcmp_trans x.hostname e.hostname key.hostname
              (get-IsSorted base j mid x e sorted before gj g) c)
        | no at ↦
            let here : j ≡ mid = omega arith in
            let ex : e ≡ x = some_inj e x (sym g ∙ ap (get_elem? base) (sym here) ∙ gj) in
            not_below_self e.hostname key.hostname (rw ex same) c
      ]
    ]

    -- One round, by the order of the key and the middle entry.
    round-Finds :
        (o : Ordering) (below above : Option ℕ)
        → strcmp key.hostname e.hostname ≡ o
        → Finds key base l mid below
        → Finds key base (mid + 1) u above
        → Finds key base l u
            (elim o [ Ordering.lt ↦ below | Ordering.eq ↦ some mid | Ordering.gt ↦ above ])
    round-Finds Ordering.lt below above c f k = narrow_below below c f
    round-Finds Ordering.eq below above c f k = (e, g, sym (eq_of_strcmp key.hostname e.hostname c))
    round-Finds Ordering.gt below above c f k =
        narrow_above above (strcmp_swap key.hostname e.hostname c) k

  bsearch_in-Finds :
      (fuel l u : ℕ)
      → u ≤ length base
      → u < fuel + l
      → Finds key base l u (bsearch_in fuel key base l u)
  unfolding bsearch_in
  bsearch_in-Finds zero l u h f = λ j e p q. absurd (omega arith)
  bsearch_in-Finds (suc fuel) l u h f = elim (Bool-cases (ltb l u)) [
    | inr empty ↦ rw empty (λ j e p q. absurd (ground arith))
    | inl more ↦
        let mid = (l + u) / 2 in
        let l<u : l < u = ground arith in
        let (e, g) = get_of_lt base mid (omega arith) in
        rw (more, g)
          (round-Finds l u mid e g (auth_cmp key e) _ _ refl
            (bsearch_in-Finds fuel l mid (omega arith) (omega arith))
            (bsearch_in-Finds fuel (mid + 1) u h (omega arith)))
  ]

  pub bsearch-Finds : Finds key base 0 (length base) (bsearch key base)
  unfolding bsearch
  bsearch-Finds = bsearch_in-Finds (length base + 1) 0 (length base) (omega arith) (omega arith)

times_of_Misses :
    (h : Bytes) (es : List Entry)
    → ((j : ℕ) (e : Entry) → get_elem? es j ≡ some e → e.hostname ≢ h)
    → times es h ≡ none
times_of_Misses h [] m = refl
times_of_Misses h (e ∷ es) m =
    ground
      (arith, str_eq_iff e.hostname h, m 0 e refl, times_of_Misses h es (λ j x g. m (suc j) x g))

-- What `auth_present` answers for a host, in terms of the table's map.
abbrev pub Answers : List Entry → Bytes → Option ℕ → Type 0
Answers es h none = times es h ≡ none
Answers es h (some i) = (e : Entry) × (get_elem? es i ≡ some e) × (e.hostname ≡ h)

-- In a sorted table, for a host below 255 bytes, the binary search gives the index of an
-- entry with that host, or gives nothing and the table's map has no time for the host.
pub auth_present-Answers :
    (a : Auth) (h : Bytes)
    → IsSorted a.auth
    → length h < hostname_max
    → Answers a.auth h (auth_present a h)
unfolding auth_present
auth_present-Answers a h s short =
    let key : Entry = record { hostname = h; t = 0 } in
    rw (take_all hostname_max h (omega (arith, short)))
      (convert (bsearch key a.auth) (bsearch-Finds key a.auth s))
  where
    convert :
        (r : Option ℕ)
        → Finds (record { hostname = h; t = 0 }) a.auth 0 (length a.auth) r
        → Answers a.auth h r
    convert (some i) f = f
    convert none f = times_of_Misses h a.auth λ j e g. f j e (omega arith) (get-lt a.auth j e g) g
