-- ===== src/Exact/Run/Remember.antt =====
-- What the abstract machine keeps and forgets of a host.
use exact.Base.{
  ℕ, ◌+◌, ◌≤◌, true, Option, some, List, [], ◌∷◌, ◌≡◌, refl, Bytes, arith, Bool-cases, inl, inr,
  All,
}
use exact.Base.Int.{ℤ, sub_ℕ, ltb_ℤ}
use exact.Libc.{str_eq, atoi}
use exact.Os.{Os}
use exact.Auth.Clean.{expire}
use exact.Match.Line.{text}
use exact.Exact.Pass.{Verdict, refuses, accepts, note, Verdicts, note_all}
use exact.Exact.Run.{Event, pass, dump, clean}
use exact.Exact.Run.Machine.{
  Settings, View, Allowed, growing, quiet, missing, dumping, cleaning, Through, stop, next,
}

-- The time is there, and no older than `s`.
abbrev pub Since : ℕ → Option ℕ → Type 0
Since s o = (n : ℕ) × (s ≤ n) × (o ≡ some n)

-- A later start is a shorter while.
later_shorter :
    (t s n : ℕ) (max : ℤ) → s ≤ n → ltb_ℤ (sub_ℕ t s) max ≡ true → ltb_ℤ (sub_ℕ t n) max ≡ true
later_shorter t s n max since young = ground arith

expire-Since :
    (t s : ℕ) (max : ℤ) (o : Option ℕ)
    → ltb_ℤ (sub_ℕ t s) max ≡ true
    → Since s o
    → Since s (expire t max o)
expire-Since t s max o young (n, since, is) =
    rw (is, later_shorter t s n max since young) (n, since, refl)

module _ (S : Settings) (h : Bytes) where
  -- The clock has not gone back behind `s`, and a cleaning comes before the timeout is over.
  abbrev pub Recent : ℕ → Event → Type 0
  Recent s (pass os line_os) = (k : ℕ) → s ≤ (line_os k).time 0
  Recent s (dump os) = Unit
  Recent s (clean os) = ltb_ℤ (sub_ℕ (os.time 0) s) (atoi S.timeout) ≡ true

  note-Since :
      (s : ℕ) (os : Os) (line : Bytes) (v : Verdict os S.conf S.pattern_ line)
      (f : Bytes → Option ℕ)
      → s ≤ os.time 0
      → Since s (f h)
      → Since s (note v f h)
  note-Since s os line (refuses _) f since is = is
  note-Since s os line (accepts m _) f since is = elim (Bool-cases (str_eq (text m.host) h)) [
    | inl same ↦ rw same (os.time 0, since, refl)
    | inr other ↦ rw other is
  ]

  note_all-Since :
      (s : ℕ) (os : ℕ → Os) (k : ℕ) (ls : List Bytes)
      (vs : Verdicts S.conf S.temp S.file S.order S.pattern_ S.has_temp S.has_file S.has_order os k
        ls)
      (f : Bytes → Option ℕ)
      → ((j : ℕ) → s ≤ (os j).time 0)
      → Since s (f h)
      → Since s (
          note_all S.conf S.temp S.file S.order S.pattern_ S.has_temp S.has_file S.has_order os k ls
            vs f h)
  note_all-Since s os k [] vs f since is = is
  note_all-Since s os k (l ∷ ls) vs f since is =
      note_all-Since s os (k + 1) ls vs.1 (note vs.0 f) since
        (note-Since s (os k) l vs.0 f (since k) is)

  turn-Since :
      (s : ℕ) (v u : View) (e : Event)
      → Allowed S v e u
      → Recent s e
      → Since s (v.hosts h)
      → Since s (u.hosts h)
  turn-Since s v u e (growing _ os line_os position ls vs _ _ _ _) recent is =
      note_all-Since s line_os 0 ls vs v.hosts recent is
  turn-Since s v u e (quiet _ os line_os position _ _ _) recent is = is
  turn-Since s v u e (missing _ os line_os _ _) recent is = is
  turn-Since s v u e (dumping _ os) recent is = is
  turn-Since s v u e (cleaning _ os) recent is =
      expire-Since (os.time 0) s (atoi S.timeout) (v.hosts h) recent is

  pub through-Since :
      (s : ℕ) (v u : View) (es : List Event)
      → Through S v es u
      → All (Recent s) es
      → Since s (v.hosts h)
      → Since s (u.hosts h)
  through-Since s v u [] (stop _) recent is = is
  through-Since s v u (e ∷ es) (next _ m _ _ _ a through) recent is =
      through-Since s m u es through recent.1 (turn-Since s v m e a recent.0 is)
