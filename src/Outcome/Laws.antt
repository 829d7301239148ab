-- ===== src/Outcome/Laws.antt =====
-- Rules for a sequence of calls.
use exact.Base.{ℕ, [], ◌≡◌, refl}
use exact.Outcome.{Outcome, done, exit, fault, Trace, after, ◌>>=◌, Ends}

pub Ends-after :
    {A : Type 0} (E : ℕ → Type 0) (P : A → Type 0) (t : Trace) (m : Outcome A)
    → Ends E P m
    → Ends E P (after t m)
Ends-after E P t (done u a) h = h
Ends-after E P t (exit u n) h = h
Ends-after E P t (fault u) h = h

pub Ends-bind :
    {A B : Type 0} (E : ℕ → Type 0) (P : A → Type 0) (Q : B → Type 0) (m : Outcome A)
    (f : A → Outcome B)
    → Ends E P m
    → ((a : A) → P a → Ends E Q (f a))
    → Ends E Q (m >>= f)
Ends-bind E P Q (done t a) f h k = Ends-after E Q t (f a) (k a h)
Ends-bind E P Q (exit t n) f h k = h
Ends-bind E P Q (fault t) f h k = absurd h

pub Ends-map :
    {A : Type 0} (E F : ℕ → Type 0) (P Q : A → Type 0) (m : Outcome A)
    → Ends E P m
    → ((n : ℕ) → E n → F n)
    → ((a : A) → P a → Q a)
    → Ends F Q m
Ends-map E F P Q (done t a) h e k = k a h
Ends-map E F P Q (exit t n) h e k = e n h
Ends-map E F P Q (fault t) h e k = absurd h

pub after_nil : {A : Type 0} (m : Outcome A) → after [] m ≡ m
after_nil (done t a) = refl
after_nil (exit t n) = refl
after_nil (fault t) = refl
