-- ===== src/Outcome/Returns.antt =====
-- What holds of a call's result if it returns one.
use exact.Base.{ℕ, Bool, true, false, if◌then◌else◌, Option, none, some, ◌≡◌, refl, ap}
use exact.Outcome.{Outcome, done, exit, fault, Trace, after, ◌>>=◌, pure, Ends}

unfoldable pub Returns : {A : Type 0} → (A → Type 0) → Outcome A → Type 0
Returns P (done _ a) = P a
Returns P (exit _ _) = Unit
Returns P (fault _) = Unit

pub Returns-after :
    {A : Type 0} (P : A → Type 0) (t : Trace) (m : Outcome A) → Returns P m → Returns P (after t m)
unfolding Returns
Returns-after P t (done u a) h = h
Returns-after P t (exit u n) h = tt
Returns-after P t (fault u) h = tt

pub Returns-bind :
    {A B : Type 0} (P : A → Type 0) (Q : B → Type 0) (m : Outcome A) (f : A → Outcome B)
    → Returns P m
    → ((a : A) → P a → Returns Q (f a))
    → Returns Q (m >>= f)
unfolding Returns
Returns-bind P Q (done t a) f h k = Returns-after Q t (f a) (k a h)
Returns-bind P Q (exit t n) f h k = tt
Returns-bind P Q (fault t) f h k = tt

-- Where the first call's result does not matter.
pub Returns-then :
    {A B : Type 0} (Q : B → Type 0) (m : Outcome A) (f : A → Outcome B)
    → ((a : A) → Returns Q (f a))
    → Returns Q (m >>= f)
unfolding Returns
Returns-then Q (done t a) f k = Returns-after Q t (f a) (k a)
Returns-then Q (exit t n) f k = tt
Returns-then Q (fault t) f k = tt

pub Returns-pure : {A : Type 0} (P : A → Type 0) (a : A) → P a → Returns P (pure a)
unfolding Returns
Returns-pure P a h = h

pub Returns-map :
    {A : Type 0} (P Q : A → Type 0) (m : Outcome A)
    → Returns P m
    → ((a : A) → P a → Q a)
    → Returns Q m
unfolding Returns
Returns-map P Q (done t a) h k = k a h
Returns-map P Q (exit t n) h k = tt
Returns-map P Q (fault t) h k = tt

pub Returns-done : {A : Type 0} (P : A → Type 0) (t : Trace) (a : A) → P a → Returns P (done t a)
unfolding Returns
Returns-done P t a h = h

pub Returns-exit : {A : Type 0} (P : A → Type 0) (t : Trace) (n : ℕ) → Returns P (exit t n)
unfolding Returns
Returns-exit P t n = tt

-- Two continuations that agree on what the first call returns.
pub bind-Returns :
    {A B : Type 0} (m : Outcome A) (f g : A → Outcome B)
    → Returns (λ a. f a ≡ g a) m
    → (m >>= f) ≡ (m >>= g)
unfolding Returns
bind-Returns (done t a) f g h = ap (after t) h
bind-Returns (exit t n) f g h = refl
bind-Returns (fault t) f g h = refl

pub Returns-fault : {A : Type 0} (P : A → Type 0) (t : Trace) → Returns P (fault t)
unfolding Returns
Returns-fault P t = tt

pub Returns-if :
    {A : Type 0} (P : A → Type 0) (b : Bool) (m n : Outcome A)
    → Returns P m
    → Returns P n
    → Returns P (if b then m else n)
Returns-if P true m n hm hn = hm
Returns-if P false m n hm hn = hn

pub Returns-option :
    {A B : Type 0} (P : B → Type 0) (o : Option A) (m : Outcome B) (f : A → Outcome B)
    → Returns P m
    → ((a : A) → Returns P (f a))
    → Returns P (elim o [ none ↦ m | some a ↦ f a ])
Returns-option P none m f hm hf = hm
Returns-option P (some a) m f hm hf = hf a

pub Ends-Returns :
    {A : Type 0} (E : ℕ → Type 0) (P Q : A → Type 0) (m : Outcome A)
    → Ends E P m
    → Returns Q m
    → Ends E (λ a. P a × Q a) m
unfolding Returns
Ends-Returns E P Q (done t a) h k = (h, k)
Ends-Returns E P Q (exit t n) h k = h
Ends-Returns E P Q (fault t) h k = h

pub Ends-to_Returns :
    {A : Type 0} (E : ℕ → Type 0) (P : A → Type 0) (m : Outcome A) → Ends E P m → Returns P m
unfolding Returns
Ends-to_Returns E P (done t a) h = h
Ends-to_Returns E P (exit t n) h = tt
Ends-to_Returns E P (fault t) h = tt
