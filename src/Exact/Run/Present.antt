-- ===== src/Exact/Run/Present.antt =====
-- exact.c, auth.c: a pass takes no host from the relay file.
use exact.Base.{
  ℕ, zero, suc, none, some, List, [], ◌∷◌, ◌++◌, ◌≡◌, ◌≢◌, refl, sym, ◌∙◌, Bytes, codes,
  Option-cases, inl, inr, arith, get_elem?, set,
}
use exact.Os.{Os}
use exact.Outcome.{trace_of}
use exact.Outcome.Files.{Printing, Apart, Files, Always}
use exact.Outcome.Triple.{Triple}
use exact.Conffile.Param.{Conf, conffile_param}
use exact.Auth.Table.{Entry}
use exact.Auth.Table.Sorted.{times, times-qsort}
use exact.Auth.Table.Search.{some_inj}
use exact.Auth.Text.{touch}
use exact.Auth.Publish.{host_lines}
use exact.Auth.Relay.{Kept}
use exact.Exact.{World, onepass}
use exact.Exact.Run.Published.{onepass-Keeps}

-- The table has the host.
abbrev pub IsHost : List Entry → Bytes → Type 0
IsHost es h = times es h ≢ none

append-IsHost : (es : List Entry) (e : Entry) (h : Bytes) → IsHost es h → IsHost (es ++ e ∷ []) h
append-IsHost [] e h is = absurd (is refl)
append-IsHost (x ∷ es) e h is = ground (arith, append-IsHost es e h)

set-IsHost :
    (es : List Entry) (i now : ℕ) (e : Entry) (h : Bytes)
    → get_elem? es i ≡ some e
    → IsHost es h
    → IsHost (set es i (record e { t = now })) h
set-IsHost [] i now e h g is = is
set-IsHost (x ∷ es) zero now e h g is = ground (arith, some_inj x e g)
set-IsHost (x ∷ es) (suc i) now e h g is = ground (arith, set-IsHost es i now e h g)

touch-IsHost : (es : List Entry) (i now : ℕ) (h : Bytes) → IsHost es h → IsHost (touch i now es) h
unfolding touch
touch-IsHost es i now h is = elim (Option-cases (get_elem? es i)) [
  | inl absent ↦ rw (absent, touch) is
  | inr (e, g) ↦ rw (g, touch) (set-IsHost es i now e h g is)
]

abbrev Covers : List Entry → List Entry → Type 0
Covers old es = (h : Bytes) → IsHost old h → IsHost es h

Covers-Kept : (old : List Entry) → Kept (Covers old)
Covers-Kept old = record {
  add = λ es e t h is.
      λ gone. append-IsHost es e h (t h is) (sym (times-qsort (es ++ e ∷ []) h) ∙ gone);
  touched = λ es i now t h is. touch-IsHost es i now h (t h is);
}

module _ (printing : Printing) (conf : Conf) (temp file : Bytes) (apart : Apart printing temp file)
    (has_temp : conffile_param conf (codes "authtemp") ≡ some temp)
    (has_file : conffile_param conf (codes "authfile") ≡ some file) where
  -- With the parameters for the two files set to different paths, a log file that is not the relay file,
  -- a disk that takes what is written to the temporary file, and from a world with this configuration
  -- whose table the relay file lists: at every moment of a pass, whatever the log holds, whatever else
  -- the system answers and however the pass ends, the relay file is the whole list of a table that has
  -- every host of the table in front of the pass.
  pub onepass-IsHost :
      (os : Os) (line_os : ℕ → Os) (w : World) (fs : Files)
      → ((n : ℕ) → (line_os n).fclose temp ≡ none)
      → w.conf ≡ conf
      → fs file ≡ some (host_lines w.auth.auth)
      → Always printing
          (λ gs.
            (es : List Entry) × (((h : Bytes) → IsHost w.auth.auth h → IsHost es h)
              × (gs file ≡ some (host_lines es))))
          (trace_of (onepass os line_os w))
          fs
  unfolding Triple
  onepass-IsHost os line_os w fs room is lists =
      (onepass-Keeps printing conf temp file apart has_temp has_file (Covers w.auth.auth)
        (Covers-Kept w.auth.auth) os line_os w room fs (is, ((λ h host. host), lists))).0
