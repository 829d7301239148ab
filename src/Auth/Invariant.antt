-- ===== src/Auth/Invariant.antt =====
-- The invariant of the table, and the writes that keep it.
use mathlib.Core.Path.{subst}
use exact.Base.{
  ℕ, zero, suc, ◌≤◌, ◌<◌, none, some, List, [], ◌∷◌, ◌≡◌, ◌≢◌, Bytes, arith, if◌then◌else◌, length,
  get_elem?, set, All, length-set,
}
use exact.Libc.{str_eq}
use exact.Libc.Order.{◌≺◌, str_eq_iff}
use exact.Auth.Table.{Entry, Auth, auth_cur, hostname_max}
use exact.Auth.Table.Sorted.{times, IsSorted, IsUnique, IsSorted-IsUnique}
use exact.Auth.Table.Search.{some_inj}
use exact.Auth.Text.{touch}

-- The host fits its field with a terminator.
abbrev pub IsShort : Entry → Type 0
IsShort e = length e.hostname < hostname_max

pub record IsValid (a : Auth) : Type 0 where
  pub sorted : IsSorted a.auth
  pub short : All IsShort a.auth
  pub allocated : a.capacity ≡ a.auth_max
  pub fits : auth_cur a ≤ a.auth_max

pub times_of_get :
    (es : List Entry) (i : ℕ) (e : Entry) → get_elem? es i ≡ some e → times es e.hostname ≢ none
times_of_get [] i e g n = cc
times_of_get (x ∷ es) zero e g n = ground (arith, some_inj x e g, str_eq_iff x.hostname e.hostname)
times_of_get (x ∷ es) (suc i) e g n =
    ground (arith, times_of_get es i e g, str_eq_iff x.hostname e.hostname)

module _ (now : ℕ) where
  times-set :
      (es : List Entry) (i : ℕ) (e : Entry) (k : Bytes)
      → IsUnique es
      → get_elem? es i ≡ some e
      → times (set es i (record e { t = now })) k
        ≡ (if str_eq e.hostname k then some now else times es k)
  times-set [] i e k u g = absurd (cc)
  times-set (x ∷ es) zero e k u g = ground (arith, some_inj x e g)
  times-set (x ∷ es) (suc i) e k u g = ground (
    arith,
    times-set es i e k u.1 g,
    str_eq_iff x.hostname k,
    str_eq_iff e.hostname k,
    times_of_get es i e g,
  )

  -- A predicate of the host alone outlives a change of the time.
  All-set :
      (P : Bytes → Type 0) (es : List Entry) (i : ℕ) (e : Entry)
      → All (λ (x : Entry). P x.hostname) es
      → get_elem? es i ≡ some e
      → All (λ (x : Entry). P x.hostname) (set es i (record e { t = now }))
  All-set P [] i e a g = tt
  All-set P (x ∷ es) zero e a g = (subst (λ y. P y.hostname) (some_inj x e g) a.0, a.1)
  All-set P (x ∷ es) (suc i) e a g = (a.0, All-set P es i e a.1 g)

  set-IsSorted :
      (es : List Entry) (i : ℕ) (e : Entry)
      → IsSorted es
      → get_elem? es i ≡ some e
      → IsSorted (set es i (record e { t = now }))
  set-IsSorted [] i e s g = tt
  set-IsSorted (x ∷ es) zero e s g =
      (subst (λ y. All (λ (z : Entry). y.hostname ≺ z.hostname) es) (some_inj x e g) s.0, s.1)
  set-IsSorted (x ∷ es) (suc i) e s g =
      (All-set (λ h. x.hostname ≺ h) es i e s.0 g, set-IsSorted es i e s.1 g)

  pub times-touch :
      (es : List Entry) (i : ℕ) (e : Entry) (k : Bytes)
      → IsSorted es
      → get_elem? es i ≡ some e
      → times (touch i now es) k ≡ (if str_eq e.hostname k then some now else times es k)
  unfolding touch
  times-touch es i e k s g = rw (g, touch) (times-set es i e k (IsSorted-IsUnique es s) g)

  pub touch-IsValid :
      (a : Auth) (i : ℕ) (e : Entry)
      → IsValid a
      → get_elem? a.auth i ≡ some e
      → IsValid (record a { auth = touch i now a.auth })
  unfolding touch
  touch-IsValid a i e v g =
      rw (g, touch)
        (record {
          sorted = set-IsSorted a.auth i e v.sorted g;
          short = All-set (λ h. length h < hostname_max) a.auth i e v.short g;
          allocated = v.allocated;
          fits = omega (arith, length-set a.auth i (record e { t = now }), v.fits);
        })
