-- ===== src/Auth/Relay.antt =====
-- auth.c: what the operations on a text database do to the relay file.
pub mod Add
pub mod Clean
use exact.Base.{
  ℕ, ◌+◌, true, false, Option, none, some, List, [], ◌∷◌, ◌++◌, ◌≡◌, ◌≢◌, refl, sym, ap, ◌∙◌, Bytes,
  codes, inl, inr, Bool-cases, Option-cases, ◌==◌, zero, suc, get_elem?, set, ltb, length, not,
  if◌then◌else◌, ◌*◌,
}
use exact.Libc.{strncpy}
use exact.Os.{Os}
use exact.Outcome.{
  Outcome, done, pure, ◌>>=◌, ◌>>◌, logger, trace_of, Effect, log, log_notice, log_debug, log_err,
  Arg, deref,
}
use exact.Outcome.Files.{Printing, Apart, Files, run, Always, Always-map}
use exact.Outcome.Quiet.{IsQuiet, quiet}
use exact.Outcome.Returns.{
  Returns, Returns-if, Returns-exit, Returns-pure, Returns-done, Returns-fault,
}
use exact.Outcome.Triple.{
  Content, Triple, Triple-bind, Triple-map, Triple-pure, Triple-fact, Triple-Returns,
  IsQuiet-Triple, Leaves, Leaves-intro,
}
use exact.Conffile.Param.{Conf, conffile_param}
use exact.Auth.Table.{
  Entry, Auth, auth_cur, auth_init_mem, entry_size, append_entry, auth_present, qsort, hostname_max,
}
use exact.Auth.Table.Search.{some_inj}
use exact.Auth.Text.{
  auth_write_text, make_room, touch, refresh, store_entry, authorise, auth_text_add,
}
use exact.Auth.Publish.{
  host_lines, OldOrNew, taken, auth_write_text-Always, auth_write_text-truncated,
}

-- A new time leaves the file as it is to be.
lines-set :
    (now i : ℕ) (e : Entry) (es : List Entry)
    → get_elem? es i ≡ some e
    → host_lines (set es i (record e { t = now })) ≡ host_lines es
lines-set now i e [] is = refl
lines-set now zero e (x ∷ es) is =
    ap (λ (y : Entry). y.hostname ++ b'\n' ∷ host_lines es) (sym (some_inj x e is))
lines-set now (suc i) e (x ∷ es) is = ap (λ r. x.hostname ++ b'\n' ∷ r) (lines-set now i e es is)

pub lines-touch : (now i : ℕ) (es : List Entry) → host_lines (touch i now es) ≡ host_lines es
unfolding touch
lines-touch now i es = elim (Option-cases (get_elem? es i)) [
  | inl absent ↦ rw (absent, touch) refl
  | inr (e, is) ↦ rw (is, touch) (lines-set now i e es is)
]

-- Tables of which the relay file may be a list.
pub record Kept (T : List Entry → Type 0) : Type 0 where
  pub add : (es : List Entry) (e : Entry) → T es → T (qsort (es ++ e ∷ []))
  pub touched : (es : List Entry) (i now : ℕ) → T es → T (touch i now es)

module _ (T : List Entry → Type 0) where
  -- The content lists the table.
  abbrev pub Shown : List Entry → Content
  Shown es c = T es × (c ≡ some (host_lines es))

  -- The content lists some table, as a whole.
  abbrev pub Whole : Content
  Whole c = (es : List Entry) × Shown es c

module _ (printing : Printing) (conf : Conf) (temp file : Bytes) (apart : Apart printing temp file)
    (has_temp : conffile_param conf (codes "authtemp") ≡ some temp)
    (has_file : conffile_param conf (codes "authfile") ≡ some file) (T : List Entry → Type 0) where
  -- A call with a table in the file, another one or the same behind it, and no part of one between.
  abbrev pub Relays : {A : Type 0} → List Entry → (A → List Entry) → Outcome A → Type 0
  Relays es table m = Triple printing file (Whole T) (Shown T es) (λ a. Shown T (table a)) m

  whole : (es : List Entry) (c : Option Bytes) → Shown T es c → Whole T c
  whole es c s = (es, s)

  -- The disk takes the whole list of the table.
  abbrev pub Fits : Os → List Entry → Type 0
  Fits os es = taken (os.fclose temp) (host_lines es) ≡ host_lines es

  pub fclose-Fits : (os : Os) (es : List Entry) → os.fclose temp ≡ none → Fits os es
  fclose-Fits os es room = ap (λ c. taken c (host_lines es)) room

  pub written :
      (os : Os) (new : List Entry) (fs : Files)
      → Fits os new
      → T new
      → Leaves printing file (λ _. Shown T new) (auth_write_text os conf new) fs
  unfolding auth_write_text
  written os new fs fits t = elim (Bool-cases (os.writable temp)) [
    | inr closed ↦ rw (has_temp, has_file, closed) tt
    | inl open_ ↦ elim (Bool-cases (os.rename temp file)) [
      | inr stuck ↦ rw (has_temp, has_file, open_, stuck) tt
      | inl moved ↦
          Leaves-intro printing file (λ _. Shown T new) (auth_write_text os conf new) fs
            (λ _. (
              t,
              (auth_write_text-truncated printing temp file apart fs new os conf has_temp has_file
                    open_ moved).1
                  ∙ ap some fits,
            ))
    ]
  ]

  pub write-Relays :
      (os : Os) (old new : List Entry)
      → Fits os new
      → (T old → T new)
      → Relays old (λ _. new) (auth_write_text os conf new)
  unfolding Triple
  write-Relays os old new fits t fs p = (
    Always-map printing
        (OldOrNew printing temp file apart fs (taken (os.fclose temp) (host_lines new)))
        (λ gs. Whole T (gs file)) (trace_of (auth_write_text os conf new)) fs (λ gs. whole_of gs)
        (auth_write_text-Always printing temp file apart fs new os conf has_temp has_file),
    written os new fs fits (t p.0),
  )
    where
      whole_of :
          (gs : Files)
          → OldOrNew printing temp file apart fs (taken (os.fclose temp) (host_lines new)) gs
          → Whole T (gs file)
      whole_of gs (inl same) = (old, (p.0, same ∙ p.1))
      whole_of gs (inr changed) = (new, (t p.0, changed ∙ ap some fits))

  -- A call that leaves the files alone, and the table's hosts.
  pub quiet-Relays :
      {A : Type 0} (es : List Entry) (table : A → List Entry) (m : Outcome A)
      → IsQuiet m
      → Returns (λ a. (T es → T (table a)) × (host_lines (table a) ≡ host_lines es)) m
      → Relays es table m
  quiet-Relays es table m q r =
      Triple-map printing file (Whole T) (Shown T es) (Shown T es) _ (λ a. Shown T (table a)) m
        (Triple-Returns printing file (Whole T) (Shown T es) (λ _. Shown T es)
          (λ a. (T es → T (table a)) × (host_lines (table a) ≡ host_lines es)) m
          (IsQuiet-Triple printing file apart.1 (Whole T) (Shown T es) m q (whole es)) r)
        (λ c s. s) (λ a c f. (f.0.0 f.1.0, f.1.1 ∙ ap some (sym f.0.1)))
