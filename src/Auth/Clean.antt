-- ===== src/Auth/Clean.antt =====
-- The cleaning cycle drops exactly the hosts whose time has run out.
use mathlib.Core.Path.{subst}
use exact.Base.{
  ℕ, ◌+◌, ◌≤◌, Option, none, some, List, [], ◌∷◌, ◌++◌, ◌≡◌, refl, sym, ap, ◌∙◌, Bytes, codes, inl,
  inr, arith, if◌then◌else◌, lt→ltb, length, All, Bool-cases, length-append, take_all, append_assoc,
  append-nil,
}
use exact.Base.Int.{ℤ, sub_ℕ, ltb_ℤ}
use exact.Libc.{str_eq, atoi}
use exact.Libc.Order.{◌≺◌, str_eq_iff}
use exact.Os.{Os}
use exact.Outcome.{Trace, log, log_notice, log_debug, Ends, ◌>>=◌, after, Arg}
use exact.Outcome.Laws.{Ends-after, Ends-bind, Ends-map}
use exact.Conffile.Param.{Conf, conffile_param, conffile_param_int-some}
use exact.Auth.Table.{Entry, Auth, hostname_max}
use exact.Auth.Table.Sorted.{times, IsSorted, IsUnique, IsSorted-IsUnique}
use exact.Auth.Handlers.{auth_clean}
use exact.Auth.Text.{auth_write_text, clean_loop, swap_tables, clean_with, auth_text_clean}
use exact.Auth.Invariant.{IsValid, IsShort}
use exact.Auth.Add.{Refused, auth_write_text-Ends}

module _ (t : ℕ) (max : ℤ) where
  -- The entries that are still live, in their order.
  abbrev pub live : List Entry → List Entry
  live [] = []
  live (e ∷ es) = if ltb_ℤ (sub_ℕ t e.t) max then e ∷ live es else live es

  -- What becomes of a host's time.
  abbrev pub expire : Option ℕ → Option ℕ
  expire none = none
  expire (some s) = if ltb_ℤ (sub_ℕ t s) max then some s else none

  length-live : (es : List Entry) → length (live es) ≤ length es
  length-live [] = omega arith
  length-live (e ∷ es) = ground (arith, length-live es)

  All-live : (P : Entry → Type 0) (es : List Entry) → All P es → All P (live es)
  All-live P [] a = tt
  All-live P (e ∷ es) a = elim (Bool-cases (ltb_ℤ (sub_ℕ t e.t) max)) [
    | inl keep ↦ rw keep (a.0, All-live P es a.1)
    | inr drop ↦ rw drop (All-live P es a.1)
  ]

  live-IsSorted : (es : List Entry) → IsSorted es → IsSorted (live es)
  live-IsSorted [] s = tt
  live-IsSorted (e ∷ es) s = elim (Bool-cases (ltb_ℤ (sub_ℕ t e.t) max)) [
    | inl keep ↦
        rw keep (All-live (λ (x : Entry). e.hostname ≺ x.hostname) es s.0, live-IsSorted es s.1)
    | inr drop ↦ rw drop (live-IsSorted es s.1)
  ]

  times-live : (es : List Entry) (k : Bytes) → IsUnique es → times (live es) k ≡ expire (times es k)
  times-live [] k u = refl
  times-live (e ∷ es) k u = elim (Bool-cases (str_eq e.hostname k)) [
    | inl here ↦
        let same : e.hostname ≡ k = (str_eq_iff e.hostname k).0 here in
        let later : times (live es) k ≡ none =
          times-live es k u.1 ∙ ap expire (subst (λ h. times es h ≡ none) same u.0) in
        ground (arith, here, later)
    | inr there ↦ ground (arith, there, times-live es k u.1)
  ]

  -- The loop's copies fit the shadow array, and are the live entries.
  clean_loop-Ends :
      (capacity : ℕ) (es shadow : List Entry)
      → All IsShort es
      → length shadow + length es ≤ capacity
      → Ends (λ _. ⊥) (λ kept. kept ≡ shadow ++ live es) (clean_loop t max capacity es shadow)
  unfolding clean_loop
  clean_loop-Ends capacity [] shadow short fits = sym (append-nil shadow)
  clean_loop-Ends capacity (e ∷ es) shadow short fits =
      elim (Bool-cases (ltb_ℤ (sub_ℕ t e.t) max)) [
        | inl keep ↦
            rw
              (
                keep,
                lt→ltb (length shadow) capacity (omega arith),
                take_all hostname_max e.hostname (omega (arith, short.0)),
              )
              (subst
                (λ r.
                  Ends (λ _. ⊥) (λ kept. kept ≡ r)
                    (clean_loop t max capacity es (shadow ++ e ∷ [])))
                (append_assoc shadow (e ∷ []) (live es))
                (clean_loop-Ends capacity es (shadow ++ e ∷ []) short.1
                  (omega (arith, length-append shadow (e ∷ [])))))
        | inr flush ↦ rw flush (
            Ends-after (λ _. ⊥) (λ kept. kept ≡ shadow ++ live es)
              (log log_notice "flushing %s\n" (Arg.str e.hostname ∷ []) ∷ [])
              (clean_loop t max capacity es shadow)
              (clean_loop-Ends capacity es shadow short.1 (omega arith)))
      ]

-- The table after a cleaning cycle: valid, and every host's time kept or expired.
abbrev pub Cleaned : ℕ → ℤ → Auth → Auth → Type 0
Cleaned t max a b = IsValid b × ((k : Bytes) → times b.auth k ≡ expire t max (times a.auth k))

live-Cleaned :
    (t : ℕ) (max : ℤ) (a : Auth)
    → IsValid a
    → Cleaned t max a (record a { auth = live t max a.auth; shadow_auth = a.auth })
live-Cleaned t max a v = (
  record {
    sorted = live-IsSorted t max a.auth v.sorted;
    short = All-live t max IsShort a.auth v.short;
    allocated = v.allocated;
    fits = omega (arith, length-live t max a.auth, v.fits);
  },
  λ k. times-live t max a.auth k (IsSorted-IsUnique a.auth v.sorted),
)

module _ (os : Os) (conf : Conf) (temp file timeout : Bytes)
    (has_temp : conffile_param conf (codes "authtemp") ≡ some temp)
    (has_file : conffile_param conf (codes "authfile") ≡ some file)
    (has_timeout : conffile_param conf (codes "timeout") ≡ some timeout) where
  swap_tables-Ends :
      (a : Auth) (kept : List Entry) (P : Auth → Type 0)
      → P (record a { auth = kept; shadow_auth = a.auth })
      → Ends (Refused os temp file) P (swap_tables os conf a kept)
  unfolding swap_tables
  swap_tables-Ends a kept P p =
      Ends-bind (Refused os temp file) (λ _. Unit) P (auth_write_text os conf kept) _
        (auth_write_text-Ends os conf temp file has_temp has_file kept) (λ _ _. p)

  clean_with-Ends :
      (a : Auth) (max : ℤ)
      → IsValid a
      → Ends (Refused os temp file) (Cleaned (os.time 0) max a) (clean_with os conf a max)
  unfolding clean_with
  clean_with-Ends a max v =
      let loop = clean_loop (os.time 0) max a.capacity a.auth [] in
      let begun : Trace = log log_debug "Starting cleaning cycle\n" [] ∷ [] in
      Ends-after (Refused os temp file) (Cleaned (os.time 0) max a)
        (log log_notice "cleaning state tables\n" [] ∷ [])
        (after begun (loop >>= swap_tables os conf a))
        (Ends-after (Refused os temp file) (Cleaned (os.time 0) max a) begun
          (loop >>= swap_tables os conf a)
          (Ends-bind (Refused os temp file) (λ kept. kept ≡ live (os.time 0) max a.auth)
            (Cleaned (os.time 0) max a) loop (swap_tables os conf a)
            (Ends-map (λ _. ⊥) (Refused os temp file) (λ kept. kept ≡ live (os.time 0) max a.auth)
              (λ kept. kept ≡ live (os.time 0) max a.auth) loop
              (clean_loop-Ends (os.time 0) max a.capacity a.auth [] v.short
                (omega (arith, v.fits, v.allocated)))
              (λ _ h. absurd h) (λ _ h. h))
            λ kept same.
              swap_tables-Ends a kept (Cleaned (os.time 0) max a)
                (rw same (live-Cleaned (os.time 0) max a v))))

  -- With the two file parameters and the timeout set and a valid table: a cleaning cycle never
  -- faults. It either gives up where the system refuses memory, the temporary file or the
  -- rename; or it leaves a valid table whose map has kept the time of each host that is younger
  -- than the timeout, and has dropped every other host.
  pub auth_text_clean-Ends :
      (a : Auth)
      → IsValid a
      → Ends
          (Refused os temp file)
          (Cleaned (os.time 0) (atoi timeout) a)
          (auth_text_clean os conf a)
  unfolding auth_text_clean
  auth_text_clean-Ends a v =
      rw (conffile_param_int-some conf (codes "timeout") timeout has_timeout) (
        Ends-after (Refused os temp file) (Cleaned (os.time 0) (atoi timeout) a) []
          (clean_with os conf a (atoi timeout)) (clean_with-Ends a (atoi timeout) v))

pub auth_clean-Ends :
    (os : Os) (conf : Conf) (temp file timeout : Bytes)
    → conffile_param conf (codes "authtemp") ≡ some temp
    → conffile_param conf (codes "authfile") ≡ some file
    → conffile_param conf (codes "timeout") ≡ some timeout
    → (a : Auth) → IsValid a
    → Ends (Refused os temp file) (Cleaned (os.time 0) (atoi timeout) a) (auth_clean os conf a)
unfolding auth_clean
auth_clean-Ends os conf temp file timeout has_temp has_file has_timeout a v =
    let C = Cleaned (os.time 0) (atoi timeout) a in
    Ends-bind (Refused os temp file) C C (auth_text_clean os conf a) _
      (auth_text_clean-Ends os conf temp file timeout has_temp has_file has_timeout a v) (λ b c. c)
