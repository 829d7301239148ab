-- ===== src/Auth/Table/Canonical.antt =====
-- A sorted table (auth.c) is determined by the map that it represents.
use Prim.Native.Nat.{Ordering}
use exact.Base.{none, some, List, [], ◌∷◌, ◌≡◌, refl, sym, Bytes, arith}
use exact.Libc.{strcmp}
use exact.Libc.Order.{◌≺◌, strcmp_swap, eq_of_strcmp, str_eq_iff}
use exact.Auth.Table.{Entry}
use exact.Auth.Table.Sorted.{times, IsSorted, IsUnique, IsSorted-IsUnique, All-below, times_below}

-- Two tables that hold the same hosts with the same times.
abbrev pub IsSame : List Entry → List Entry → Type 0
IsSame es fs = (k : Bytes) → times es k ≡ times fs k

times-here : (e : Entry) (es : List Entry) → times (e ∷ es) e.hostname ≡ some e.t
times-here e es = ground (arith, str_eq_iff e.hostname e.hostname)

-- A host below the first one is not in the table.
times_before :
    (h : Bytes) (f : Entry) (fs : List Entry)
    → IsSorted (f ∷ fs)
    → h ≺ f.hostname
    → times (f ∷ fs) h ≡ none
times_before h f fs s b = times_below h (f ∷ fs) (b, All-below h f.hostname fs b s.0)

-- The first hosts of tables that are the same are not apart.
not_before :
    (e f : Entry) (es fs : List Entry)
    → IsSorted (f ∷ fs)
    → IsSame (e ∷ es) (f ∷ fs)
    → ¬ (e.hostname ≺ f.hostname)
not_before e f es fs s same b =
    cc (times-here e es, same e.hostname, times_before e.hostname f fs s b)

same_head :
    (e f : Entry) (es fs : List Entry)
    → IsSorted (e ∷ es)
    → IsSorted (f ∷ fs)
    → IsSame (e ∷ es) (f ∷ fs)
    → e.hostname ≡ f.hostname
same_head e f es fs s u same = go (strcmp e.hostname f.hostname) refl
  where
    go : (o : Ordering) → strcmp e.hostname f.hostname ≡ o → e.hostname ≡ f.hostname
    go Ordering.lt b = absurd (not_before e f es fs u same b)
    go Ordering.eq b = eq_of_strcmp e.hostname f.hostname b
    go Ordering.gt b =
        absurd (not_before f e fs es s (λ k. sym (same k)) (strcmp_swap e.hostname f.hostname b))

same_time :
    (e f : Entry) (es fs : List Entry)
    → e.hostname ≡ f.hostname
    → IsSame (e ∷ es) (f ∷ fs)
    → e.t ≡ f.t
same_time e f es fs h same =
    ground
      (arith, same e.hostname, str_eq_iff e.hostname e.hostname, str_eq_iff f.hostname e.hostname)

IsSame-tail :
    (e f : Entry) (es fs : List Entry)
    → IsUnique (e ∷ es)
    → IsUnique (f ∷ fs)
    → e.hostname ≡ f.hostname
    → IsSame (e ∷ es) (f ∷ fs)
    → IsSame es fs
IsSame-tail e f es fs u v h same k =
    ground (arith, same k, u.0, v.0, str_eq_iff e.hostname k, str_eq_iff f.hostname k)

Entry-ext : (e f : Entry) → e.hostname ≡ f.hostname → e.t ≡ f.t → e ≡ f
Entry-ext e f h t i = record { hostname = h i; t = t i }

-- Two sorted tables that hold the same hosts with the same times are the same list.
pub sorted_unique : (es fs : List Entry) → IsSorted es → IsSorted fs → IsSame es fs → es ≡ fs
sorted_unique [] [] s u same = refl
sorted_unique [] (f ∷ fs) s u same = absurd (cc (times-here f fs, same f.hostname))
sorted_unique (e ∷ es) [] s u same = absurd (cc (times-here e es, same e.hostname))
sorted_unique (e ∷ es) (f ∷ fs) s u same =
    let h = same_head e f es fs s u same in
    let rest =
      IsSame-tail e f es fs (IsSorted-IsUnique (e ∷ es) s) (IsSorted-IsUnique (f ∷ fs) u) h same in
    cc (Entry-ext e f h (same_time e f es fs h same), sorted_unique es fs s.1 u.1 rest)
