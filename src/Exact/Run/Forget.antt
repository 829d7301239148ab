-- ===== src/Exact/Run/Forget.antt =====
-- What the abstract machine forgets of a host.
use exact.Base.{ℕ, ◌+◌, false, Option, none, some, List, [], ◌∷◌, ◌≡◌, ◌≢◌, refl, Bytes, arith}
use exact.Base.Int.{ℤ, sub_ℕ, ltb_ℤ}
use exact.Libc.{atoi}
use exact.Libc.Order.{str_eq_iff}
use exact.Os.{Os}
use exact.Auth.Clean.{expire}
use exact.Match.Line.{text}
use exact.Exact.Pass.{Verdict, refuses, accepts, note, Verdicts, note_all}
use exact.Exact.Run.{Event}
use exact.Exact.Run.Machine.{
  Settings, View, Allowed, growing, quiet, missing, dumping, cleaning, Through, stop, next,
}

module _ (S : Settings) (h : Bytes) where
  -- No line's login is from the host.
  abbrev pub Other : {os : Os} {line : Bytes} → Verdict os S.conf S.pattern_ line → Type 0
  Other (refuses _) = Unit
  Other (accepts m _) = text m.host ≢ h

  abbrev pub Others :
      (os : ℕ → Os) (k : ℕ) (ls : List Bytes)
      → Verdicts S.conf S.temp S.file S.order S.pattern_ S.has_temp S.has_file S.has_order os k ls
      → Type 0
  Others os k [] vs = Unit
  Others os k (l ∷ ls) vs = Other vs.0 × Others os (k + 1) ls vs.1

  abbrev pub Silent : {v u : View} {e : Event} → Allowed S v e u → Type 0
  Silent (growing _ os line_os position ls vs _ _ _ _) = Others line_os 0 ls vs
  Silent (quiet _ os line_os position _ _ _) = Unit
  Silent (missing _ os line_os _ _) = Unit
  Silent (dumping _ os) = Unit
  Silent (cleaning _ os) = Unit

  abbrev pub SilentThrough : {v u : View} {es : List Event} → Through S v es u → Type 0
  SilentThrough (stop _) = Unit
  SilentThrough (next _ m _ _ _ a through) = Silent a × SilentThrough through

  note-none :
      (os : Os) (line : Bytes) (v : Verdict os S.conf S.pattern_ line) (f : Bytes → Option ℕ)
      → Other v
      → f h ≡ none
      → note v f h ≡ none
  note-none os line (refuses _) f other is = is
  note-none os line (accepts m _) f other is = ground (arith, str_eq_iff (text m.host) h)

  note_all-none :
      (os : ℕ → Os) (k : ℕ) (ls : List Bytes)
      (vs : Verdicts S.conf S.temp S.file S.order S.pattern_ S.has_temp S.has_file S.has_order os k
        ls)
      (f : Bytes → Option ℕ)
      → Others os k ls vs
      → f h ≡ none
      → note_all S.conf S.temp S.file S.order S.pattern_ S.has_temp S.has_file S.has_order os k ls
          vs f h
        ≡ none
  note_all-none os k [] vs f others is = is
  note_all-none os k (l ∷ ls) vs f others is =
      note_all-none os (k + 1) ls vs.1 (note vs.0 f) others.1
        (note-none (os k) l vs.0 f others.0 is)

  turn-none :
      (v u : View) (e : Event) (a : Allowed S v e u)
      → Silent a
      → v.hosts h ≡ none
      → u.hosts h ≡ none
  turn-none v u e (growing _ os line_os position ls vs _ _ _ _) silent is =
      note_all-none line_os 0 ls vs v.hosts silent is
  turn-none v u e (quiet _ os line_os position _ _ _) silent is = is
  turn-none v u e (missing _ os line_os _ _) silent is = is
  turn-none v u e (dumping _ os) silent is = is
  turn-none v u e (cleaning _ os) silent is = rw is refl

  through-none :
      (v u : View) (es : List Event) (t : Through S v es u)
      → SilentThrough t
      → v.hosts h ≡ none
      → u.hosts h ≡ none
  through-none v u [] (stop _) silent is = is
  through-none v u (e ∷ es) (next _ m _ _ _ a t) silent is =
      through-none m u es t silent.1 (turn-none v m e a silent.0 is)

  expire-old :
      (t s : ℕ) (max : ℤ) (o : Option ℕ)
      → ltb_ℤ (sub_ℕ t s) max ≡ false
      → o ≡ some s
      → expire t max o ≡ none
  expire-old t s max o old is = rw (is, old) refl

  -- A host whose time is out at a cleaning, and that no later login names, is forgotten.
  pub through-expired :
      (s : ℕ) (v u : View) (os : Os) (es : List Event)
      (t : Through S
        (record v { hosts = λ k. expire (os.time 0) (atoi S.timeout) (v.hosts k) })
        es
        u)
      → SilentThrough t
      → v.hosts h ≡ some s
      → ltb_ℤ (sub_ℕ (os.time 0) s) (atoi S.timeout) ≡ false
      → u.hosts h ≡ none
  through-expired s v u os es t silent is old =
      through-none (record v { hosts = λ k. expire (os.time 0) (atoi S.timeout) (v.hosts k) }) u es
        t silent (expire-old (os.time 0) s (atoi S.timeout) (v.hosts h) old is)
