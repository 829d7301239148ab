-- ===== src/Outcome/Quiet.antt =====
-- Calls that leave all files but the log file alone, and those that do so until they have become a user.
use Prim.Native.String.{String}
use exact.Base.{
  ℕ, Bool, true, false, Option, none, some, List, [], ◌∷◌, ◌++◌, ◌≡◌, refl, ◌⊎◌, inl, inr,
  if◌then◌else◌, All, All-append,
}
use exact.Outcome.{
  Outcome, done, exit, fault, Trace, Effect, Level, Arg, creat, open_append, unlink, fprintf, chmod,
  truncated, rename, setuid, after, ◌>>=◌, ◌>>◌, pure, emit, logger, die, deref, trace_of,
}

-- Whether an effect changes a file, a message's own log file aside.
abbrev pub writes : Effect → Bool
writes (creat _) = true
writes (open_append _) = true
writes (unlink _) = true
writes (fprintf _ _ _) = true
writes (chmod _ _) = true
writes (truncated _ _) = true
writes (rename _ _) = true
writes _ = false

-- The call changes no file but the log file, however it ends.
unfoldable pub IsQuiet : {A : Type 0} → Outcome A → Type 0
IsQuiet m = All (λ e. writes e ≡ false) (trace_of m)

-- No file is changed in front of the first `setuid(uid)`.
unfoldable pub Confined : ℕ → Trace → Type 0
Confined uid [] = Unit
Confined uid (e ∷ t) = (e ≡ setuid uid) ⊎ ((writes e ≡ false) × Confined uid t)

-- The trace holds a `setuid(uid)`, and changes no file in front of it.
unfoldable pub Drops : ℕ → Trace → Type 0
Drops uid [] = ⊥
Drops uid (e ∷ t) = (e ≡ setuid uid) ⊎ ((writes e ≡ false) × Drops uid t)

-- A call that returns has become the user; however it ends, it has changed no file before that.
unfoldable pub DropsFirst : {A : Type 0} → ℕ → Outcome A → Type 0
unfolding Drops Confined
DropsFirst uid (done t _) = Drops uid t
DropsFirst uid (exit t _) = Confined uid t
DropsFirst uid (fault t) = Confined uid t

module _ where
  IsQuiet-after :
      {A : Type 0} (t : Trace) (m : Outcome A)
      → All (λ e. writes e ≡ false) t
      → IsQuiet m
      → IsQuiet (after t m)
  unfolding IsQuiet
  IsQuiet-after t (done u a) = All-append (λ e. writes e ≡ false) t u
  IsQuiet-after t (exit u n) = All-append (λ e. writes e ≡ false) t u
  IsQuiet-after t (fault u) = All-append (λ e. writes e ≡ false) t u

  pub IsQuiet-bind :
      {A B : Type 0} (m : Outcome A) (f : A → Outcome B)
      → IsQuiet m
      → ((a : A) → IsQuiet (f a))
      → IsQuiet (m >>= f)
  unfolding IsQuiet
  IsQuiet-bind (done t a) f h k = IsQuiet-after t (f a) h (k a)
  IsQuiet-bind (exit t n) f h k = h
  IsQuiet-bind (fault t) f h k = h

  pub IsQuiet-if :
      {A : Type 0} (b : Bool) (m n : Outcome A)
      → IsQuiet m
      → IsQuiet n
      → IsQuiet (if b then m else n)
  IsQuiet-if true m n hm hn = hm
  IsQuiet-if false m n hm hn = hn

  pub IsQuiet-option :
      {A B : Type 0} (o : Option A) (m : Outcome B) (f : A → Outcome B)
      → IsQuiet m
      → ((a : A) → IsQuiet (f a))
      → IsQuiet (elim o [ none ↦ m | some a ↦ f a ])
  IsQuiet-option none m f hm hf = hm
  IsQuiet-option (some a) m f hm hf = hf a

  pub IsQuiet-deref : {A : Type 0} (o : Option A) → IsQuiet (deref o)
  unfolding IsQuiet
  IsQuiet-deref none = tt
  IsQuiet-deref (some a) = tt

  pub IsQuiet-log :
      {A : Type 0} (level : Level) (fmt : String) (args : List Arg) (m : Outcome A)
      → IsQuiet m
      → IsQuiet (logger level fmt args >> m)
  IsQuiet-log level fmt args m h = IsQuiet-after (Effect.log level fmt args ∷ []) m (refl, tt) h

  pub IsQuiet-pure : {A : Type 0} (a : A) → IsQuiet (pure a)
  unfolding IsQuiet
  IsQuiet-pure a = tt

  pub IsQuiet-fault : (A : Type 0) → IsQuiet {A = A} (fault [])
  unfolding IsQuiet
  IsQuiet-fault A = tt

  pub IsQuiet-exit : (A : Type 0) (n : ℕ) → IsQuiet {A = A} (exit [] n)
  unfolding IsQuiet
  IsQuiet-exit A n = tt

  pub IsQuiet-die :
      (A : Type 0) (level : Level) (fmt : String) (args : List Arg) (n : ℕ)
      → IsQuiet {A = A} (die level fmt args n)
  unfolding IsQuiet
  IsQuiet-die A level fmt args n = (refl, tt)

  pub IsQuiet-stderr :
      (A : Type 0) (fmt : String) (args : List Arg) (n : ℕ)
      → IsQuiet {A = A} (exit (Effect.stderr fmt args ∷ []) n)
  unfolding IsQuiet
  IsQuiet-stderr A fmt args n = (refl, tt)

  pub IsQuiet-logged :
      {A : Type 0} (level : Level) (fmt : String) (args : List Arg) (a : A)
      → IsQuiet (done (Effect.log level fmt args ∷ []) a)
  unfolding IsQuiet
  IsQuiet-logged level fmt args a = (refl, tt)

  pub IsQuiet-emit : (e : Effect) → writes e ≡ false → IsQuiet (emit e)
  unfolding IsQuiet
  IsQuiet-emit e h = (h, tt)

  pub ruleset quiet = (
    IsQuiet-bind, IsQuiet-if, IsQuiet-option, IsQuiet-deref, IsQuiet-log, IsQuiet-pure,
    IsQuiet-fault, IsQuiet-exit, IsQuiet-die, IsQuiet-stderr, IsQuiet-logged, IsQuiet-emit,
  )

module _ (uid : ℕ) where
  append-Confined :
      (t u : Trace) → All (λ e. writes e ≡ false) t → Confined uid u → Confined uid (t ++ u)
  unfolding Confined
  append-Confined [] u q h = h
  append-Confined (e ∷ t) u q h = inr (q.0, append-Confined t u q.1 h)

  append-Drops : (t u : Trace) → All (λ e. writes e ≡ false) t → Drops uid u → Drops uid (t ++ u)
  unfolding Drops
  append-Drops [] u q h = h
  append-Drops (e ∷ t) u q h = inr (q.0, append-Drops t u q.1 h)

  Drops-append : (t u : Trace) → Drops uid t → Drops uid (t ++ u)
  unfolding Drops
  Drops-append [] u h = absurd h
  Drops-append (e ∷ t) u (inl here) = inl here
  Drops-append (e ∷ t) u (inr (q, h)) = inr (q, Drops-append t u h)

  Drops-append-Confined : (t u : Trace) → Drops uid t → Confined uid (t ++ u)
  unfolding Drops Confined
  Drops-append-Confined [] u h = absurd h
  Drops-append-Confined (e ∷ t) u (inl here) = inl here
  Drops-append-Confined (e ∷ t) u (inr (q, h)) = inr (q, Drops-append-Confined t u h)

  All-Confined : (t : Trace) → All (λ e. writes e ≡ false) t → Confined uid t
  unfolding Confined
  All-Confined [] q = tt
  All-Confined (e ∷ t) q = inr (q.0, All-Confined t q.1)

  Drops-after-DropsFirst :
      {A : Type 0} (t : Trace) (m : Outcome A) → Drops uid t → DropsFirst uid (after t m)
  unfolding DropsFirst
  Drops-after-DropsFirst t (done u a) h = Drops-append t u h
  Drops-after-DropsFirst t (exit u n) h = Drops-append-Confined t u h
  Drops-after-DropsFirst t (fault u) h = Drops-append-Confined t u h

  pub DropsFirst-bind :
      {A B : Type 0} (m : Outcome A) (f : A → Outcome B)
      → DropsFirst uid m
      → DropsFirst uid (m >>= f)
  unfolding DropsFirst
  DropsFirst-bind (done t a) f h = Drops-after-DropsFirst t (f a) h
  DropsFirst-bind (exit t n) f h = h
  DropsFirst-bind (fault t) f h = h

  pub IsQuiet-after-DropsFirst :
      {A : Type 0} (t : Trace) (m : Outcome A)
      → All (λ e. writes e ≡ false) t
      → DropsFirst uid m
      → DropsFirst uid (after t m)
  unfolding DropsFirst
  IsQuiet-after-DropsFirst t (done u a) q h = append-Drops t u q h
  IsQuiet-after-DropsFirst t (exit u n) q h = append-Confined t u q h
  IsQuiet-after-DropsFirst t (fault u) q h = append-Confined t u q h

  pub IsQuiet-bind-DropsFirst :
      {A B : Type 0} (m : Outcome A) (f : A → Outcome B)
      → IsQuiet m
      → ((a : A) → DropsFirst uid (f a))
      → DropsFirst uid (m >>= f)
  unfolding IsQuiet DropsFirst
  IsQuiet-bind-DropsFirst (done t a) f q h = IsQuiet-after-DropsFirst t (f a) q (h a)
  IsQuiet-bind-DropsFirst (exit t n) f q h = All-Confined t q
  IsQuiet-bind-DropsFirst (fault t) f q h = All-Confined t q
