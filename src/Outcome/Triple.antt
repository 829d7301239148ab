-- ===== src/Outcome/Triple.antt =====
-- What a call does to one file: a triple of what holds of its content in front of the call, at every
-- moment of it, and behind it where it returns.
use exact.Base.{
  ◌≢◌, some, Bool, true, false, ℕ, Option, [], ◌∷◌, ◌++◌, ◌≡◌, refl, ◌∙◌, Bytes, if◌then◌else◌, All,
}
use exact.Outcome.{
  Outcome, done, exit, fault, Trace, Effect, log, chdir, signal, alarm, nap, sleep, close, umask,
  setgid, setegid, setuid, seteuid, openlog, stderr, fork, setsid, creat, open_append, unlink,
  fprintf, chmod, truncated, rename, after, ◌>>=◌, pure, trace_of,
}
use exact.Outcome.Files.{log_other, Printing, Files, apply, run, run-append, Always}
use exact.Outcome.Quiet.{IsQuiet, writes}
use exact.Outcome.Returns.{Returns}

abbrev pub Content : Type 1
Content = Option Bytes → Type 0

module _ (printing : Printing) (path : Bytes) where
  abbrev pub Leaves : {A : Type 0} → (A → Content) → Outcome A → Files → Type 0
  Leaves Q (done t a) fs = Q a (run printing t fs path)
  Leaves Q (exit t n) fs = Unit
  Leaves Q (fault t) fs = Unit

  unfoldable pub Triple : {A : Type 0} → Content → Content → (A → Content) → Outcome A → Type 0
  Triple I P Q m =
      (fs : Files)
      → P (fs path)
      → Always printing (λ gs. I (gs path)) (trace_of m) fs × Leaves Q m fs

  Always-append :
      (I : Files → Type 0) (t u : Trace) (fs : Files)
      → Always printing I t fs
      → Always printing I u (run printing t fs)
      → Always printing I (t ++ u) fs
  unfolding run
  Always-append I [] u fs h k = k
  Always-append I (e ∷ t) u fs h k = (h.0, Always-append I t u (apply printing e fs) h.1 k)

  Triple-after :
      {A : Type 0} (I : Content) (Q : A → Content) (t : Trace) (m : Outcome A) (fs : Files)
      → Always printing (λ gs. I (gs path)) t fs
      → Always printing (λ gs. I (gs path)) (trace_of m) (run printing t fs)
        × Leaves Q m (run printing t fs)
      → Always printing (λ gs. I (gs path)) (trace_of (after t m)) fs × Leaves Q (after t m) fs
  Triple-after I Q t (done u a) fs h k =
      (Always-append (λ gs. I (gs path)) t u fs h k.0, rw (run-append printing t u fs) k.1)
  Triple-after I Q t (exit u n) fs h k = (Always-append (λ gs. I (gs path)) t u fs h k.0, tt)
  Triple-after I Q t (fault u) fs h k = (Always-append (λ gs. I (gs path)) t u fs h k.0, tt)

  pub Triple-bind :
      {A B : Type 0} (I P : Content) (Q : A → Content) (R : B → Content) (m : Outcome A)
      (f : A → Outcome B)
      → Triple I P Q m
      → ((a : A) → Triple I (Q a) R (f a))
      → Triple I P R (m >>= f)
  unfolding Triple
  Triple-bind I P Q R (done t a) f h k fs p =
      Triple-after I R t (f a) fs (h fs p).0 (k a (run printing t fs) (h fs p).1)
  Triple-bind I P Q R (exit t n) f h k fs p = ((h fs p).0, tt)
  Triple-bind I P Q R (fault t) f h k fs p = ((h fs p).0, tt)

  pub Leaves-map :
      {A : Type 0} (Q R : A → Content) (m : Outcome A) (fs : Files)
      → ((a : A) (c : Option Bytes) → Q a c → R a c)
      → Leaves Q m fs
      → Leaves R m fs
  Leaves-map Q R (done t a) fs k h = k a (run printing t fs path) h
  Leaves-map Q R (exit t n) fs k h = tt
  Leaves-map Q R (fault t) fs k h = tt

  pub Triple-map :
      {A : Type 0} (I P P' : Content) (Q R : A → Content) (m : Outcome A)
      → Triple I P Q m
      → ((c : Option Bytes) → P' c → P c)
      → ((a : A) (c : Option Bytes) → Q a c → R a c)
      → Triple I P' R m
  unfolding Triple
  Triple-map I P P' Q R m h before behind fs p =
      let (always, leaves) = h fs (before (fs path) p) in
      (always, Leaves-map Q R m fs behind leaves)

  pub Triple-pure :
      {A : Type 0} (I P : Content) (Q : A → Content) (a : A)
      → ((c : Option Bytes) → P c → I c × Q a c)
      → Triple I P Q (pure a)
  unfolding Triple run
  Triple-pure I P Q a k fs p = k (fs path) p

  pub Triple-if :
      {A : Type 0} (I P : Content) (Q : A → Content) (b : Bool) (m n : Outcome A)
      → Triple I P Q m
      → Triple I P Q n
      → Triple I P Q (if b then m else n)
  Triple-if I P Q true m n hm hn = hm
  Triple-if I P Q false m n hm hn = hn

  -- A fact that has nothing to do with the file.
  pub Triple-fact :
      {A : Type 0} (I P : Content) (F : Type 0) (Q : A → Content) (m : Outcome A)
      → (F → Triple I P Q m)
      → Triple I (λ c. F × P c) Q m
  unfolding Triple
  Triple-fact I P F Q m h fs p = h p.0 fs p.1

  -- The effect leaves the file alone.
  abbrev pub Spares : Effect → Type 0
  Spares e = (fs : Files) → apply printing e fs path ≡ fs path

  Spares-run : (t : Trace) (fs : Files) → All Spares t → run printing t fs path ≡ fs path
  unfolding run
  Spares-run [] fs h = refl
  Spares-run (e ∷ t) fs h = Spares-run t (apply printing e fs) h.1 ∙ h.0 fs

  Spares-Always :
      (I : Content) (t : Trace) (fs : Files)
      → All Spares t
      → I (fs path)
      → Always printing (λ gs. I (gs path)) t fs
  Spares-Always I [] fs h i = i
  Spares-Always I (e ∷ t) fs h i = (i, Spares-Always I t (apply printing e fs) h.1 (rw (h.0 fs) i))

  -- A call whose effects all leave the file alone.
  pub Spares-Triple :
      {A : Type 0} (I P : Content) (m : Outcome A)
      → All Spares (trace_of m)
      → ((c : Option Bytes) → P c → I c)
      → Triple I P (λ _. P) m
  unfolding Triple
  Spares-Triple I P (done t a) h k fs p =
      (Spares-Always I t fs h (k (fs path) p), rw (Spares-run t fs h) p)
  Spares-Triple I P (exit t n) h k fs p = (Spares-Always I t fs h (k (fs path) p), tt)
  Spares-Triple I P (fault t) h k fs p = (Spares-Always I t fs h (k (fs path) p), tt)

  writes-Spares : printing.log_file ≢ some path → (e : Effect) → writes e ≡ false → Spares e
  unfolding apply
  writes-Spares apart (creat _) q fs = absurd (cc)
  writes-Spares apart (open_append _) q fs = absurd (cc)
  writes-Spares apart (unlink _) q fs = absurd (cc)
  writes-Spares apart (fprintf _ _ _) q fs = absurd (cc)
  writes-Spares apart (chmod _ _) q fs = absurd (cc)
  writes-Spares apart (truncated _ _) q fs = absurd (cc)
  writes-Spares apart (rename _ _) q fs = absurd (cc)
  writes-Spares apart (log l f a) q fs = log_other printing path l f a fs apart
  writes-Spares apart (chdir _) q fs = refl
  writes-Spares apart (signal _ _) q fs = refl
  writes-Spares apart (alarm _) q fs = refl
  writes-Spares apart (nap _) q fs = refl
  writes-Spares apart (sleep _) q fs = refl
  writes-Spares apart (close _) q fs = refl
  writes-Spares apart (umask _) q fs = refl
  writes-Spares apart (setgid _) q fs = refl
  writes-Spares apart (setegid _) q fs = refl
  writes-Spares apart (setuid _) q fs = refl
  writes-Spares apart (seteuid _) q fs = refl
  writes-Spares apart (openlog _ _) q fs = refl
  writes-Spares apart (stderr _ _) q fs = refl
  writes-Spares apart fork q fs = refl
  writes-Spares apart setsid q fs = refl

  pub IsQuiet-Triple :
      {A : Type 0}
      → printing.log_file ≢ some path
      → (I P : Content) (m : Outcome A) → IsQuiet m
      → ((c : Option Bytes) → P c → I c)
      → Triple I P (λ _. P) m
  unfolding IsQuiet
  IsQuiet-Triple apart I P m q k = Spares-Triple I P m (quiet_all (trace_of m) q) k
    where
      quiet_all : (t : Trace) → All (λ e. writes e ≡ false) t → All Spares t
      quiet_all [] h = tt
      quiet_all (e ∷ t) h = (writes-Spares apart e h.0, quiet_all t h.1)

  -- What is known of the result alone.
  pub Triple-Returns :
      {A : Type 0} (I P : Content) (Q : A → Content) (F : A → Type 0) (m : Outcome A)
      → Triple I P Q m
      → Returns F m
      → Triple I P (λ a c. F a × Q a c) m
  unfolding Triple Returns
  Triple-Returns I P Q F (done t a) h k fs p = let (always, q) = h fs p in (always, (k, q))
  Triple-Returns I P Q F (exit t n) h k fs p = h fs p
  Triple-Returns I P Q F (fault t) h k fs p = h fs p

  pub Leaves-intro :
      {A : Type 0} (Q : A → Content) (m : Outcome A) (fs : Files)
      → ((a : A) → Q a (run printing (trace_of m) fs path))
      → Leaves Q m fs
  Leaves-intro Q (done t a) fs h = h a
  Leaves-intro Q (exit t n) fs h = tt
  Leaves-intro Q (fault t) fs h = tt

  pub Leaves-Returns :
      {A : Type 0} (P : A → Type 0) (Q : A → Content) (m : Outcome A) (fs : Files)
      → Returns P m
      → Leaves Q m fs
      → Leaves (λ a c. P a × Q a c) m fs
  unfolding Returns
  Leaves-Returns P Q (done t a) fs p q = (p, q)
  Leaves-Returns P Q (exit t n) fs p q = tt
  Leaves-Returns P Q (fault t) fs p q = tt

  pub Triple-exit :
      {A : Type 0} (I P : Content) (Q : A → Content) (n : ℕ)
      → ((c : Option Bytes) → P c → I c)
      → Triple I P Q (exit [] n)
  unfolding Triple run
  Triple-exit I P Q n k fs p = (k (fs path) p, tt)
