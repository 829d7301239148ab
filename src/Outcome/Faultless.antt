-- ===== src/Outcome/Faultless.antt =====
-- Calls that never fault, however they end.
use exact.Base.{ℕ, Bool, true, false, Option, none, some, ◌≡◌, if◌then◌else◌}
use exact.Outcome.{Outcome, done, exit, fault, Trace, after, ◌>>=◌, deref, Ends}

unfoldable pub IsFaultless : {A : Type 0} → Outcome A → Type 0
IsFaultless m = Ends (λ _. Unit) (λ _. Unit) m

module _ where
  IsFaultless-after :
      {A : Type 0} (t : Trace) (m : Outcome A) → IsFaultless m → IsFaultless (after t m)
  unfolding IsFaultless
  IsFaultless-after t (done u a) h = tt
  IsFaultless-after t (exit u n) h = tt
  IsFaultless-after t (fault u) h = h

  pub IsFaultless-bind :
      {A B : Type 0} (m : Outcome A) (f : A → Outcome B)
      → IsFaultless m
      → ((a : A) → IsFaultless (f a))
      → IsFaultless (m >>= f)
  unfolding IsFaultless
  IsFaultless-bind (done t a) f h k = IsFaultless-after t (f a) (k a)
  IsFaultless-bind (exit t n) f h k = tt
  IsFaultless-bind (fault t) f h k = h

  pub IsFaultless-if :
      {A : Type 0} (b : Bool) (m n : Outcome A)
      → IsFaultless m
      → IsFaultless n
      → IsFaultless (if b then m else n)
  IsFaultless-if true m n hm hn = hm
  IsFaultless-if false m n hm hn = hn

  pub IsFaultless-option :
      {A B : Type 0} (o : Option A) (m : Outcome B) (f : A → Outcome B)
      → IsFaultless m
      → ((a : A) → IsFaultless (f a))
      → IsFaultless (elim o [ none ↦ m | some a ↦ f a ])
  IsFaultless-option none m f hm hf = hm
  IsFaultless-option (some a) m f hm hf = hf a

  pub IsFaultless-some : {A : Type 0} (o : Option A) (a : A) → o ≡ some a → IsFaultless (deref o)
  unfolding IsFaultless
  IsFaultless-some o a is = rw is tt

  pub IsFaultless-done : {A : Type 0} (t : Trace) (a : A) → IsFaultless (done t a)
  unfolding IsFaultless
  IsFaultless-done t a = tt

  pub IsFaultless-exit : (A : Type 0) (t : Trace) (n : ℕ) → IsFaultless {A = A} (exit t n)
  unfolding IsFaultless
  IsFaultless-exit A t n = tt

  pub ruleset faultless = (
    IsFaultless-bind, IsFaultless-if, IsFaultless-option, IsFaultless-some, IsFaultless-done,
    IsFaultless-exit,
  )
