-- ===== src/Auth/Add.antt =====
-- `auth_text_add` sets one host's time in the table's map, and nothing else.
use exact.Base.{
  ℕ, ◌+◌, ◌*◌, ◌<◌, true, false, Option, none, some, List, [], ◌∷◌, ◌++◌, ◌≡◌, refl, ◌∙◌, Bytes,
  codes, ◌⊎◌, inl, inr, arith, if◌then◌else◌, ltb, lt→ltb, ◌==◌, length, get_elem?, All-append,
  Bool-cases, length-append, take_all,
}
use exact.Libc.{str_eq}
use exact.Os.{Os}
use exact.Outcome.{log, Ends, ◌>>=◌, pure, Arg, log_notice}
use exact.Outcome.Laws.{Ends-after, Ends-bind}
use exact.Conffile.Param.{Conf, conffile_param}
use exact.Auth.Table.{
  Entry, Auth, auth_cur, hostname_max, entry_size, auth_present, auth_init_mem, qsort,
}
use exact.Auth.Table.Sorted.{
  times, IsSorted-IsUnique, times-qsort, qsort-IsSorted, length-qsort, All-qsort, times-append,
  IsUnique-append,
}
use exact.Auth.Table.Search.{Answers, auth_present-Answers}
use exact.Auth.Text.{auth_write_text, make_room, refresh, store_entry, authorise, auth_text_add}
use exact.Auth.Invariant.{IsValid, IsShort, times-touch, touch-IsValid}

-- The ways in which an operation on the text database may give up: no memory, no temporary file,
-- no rename.
abbrev pub Refused : Os → Bytes → Bytes → ℕ → Type 0
Refused os temp file n =
    ((n ≡ 20) × ((size : ℕ) × (os.realloc size ≡ false)))
    ⊎ (((n ≡ 21) × (os.writable temp ≡ false)) ⊎ ((n ≡ 22) × (os.rename temp file ≡ false)))

-- The table after an addition: valid, and with the new time at the host alone.
abbrev pub Added : ℕ → Bytes → Auth → Auth → Type 0
Added now h a b =
    IsValid b × ((k : Bytes) → times b.auth k ≡ (if str_eq h k then some now else times a.auth k))

-- The sorted table with one new host.
qsort_append-Added :
    (now : ℕ) (h : Bytes) (a b : Auth)
    → IsValid a
    → length h < hostname_max
    → times a.auth h ≡ none
    → (b.auth ≡ a.auth) × (auth_cur a < b.capacity) × (b.capacity ≡ b.auth_max)
    → Added now h a (record b { auth = qsort (b.auth ++ record { hostname = h; t = now } ∷ []) })
qsort_append-Added now h a b v short new (same, room, cap) =
    let e : Entry = record { hostname = h; t = now } in
    rw same (
      record {
        sorted =
            qsort-IsSorted _ (IsUnique-append a.auth e (IsSorted-IsUnique a.auth v.sorted) new);
        short = All-qsort IsShort _ (All-append IsShort a.auth (e ∷ []) v.short (short, tt));
        allocated = cap;
        fits =
            omega
              (arith, length-qsort (a.auth ++ e ∷ []), length-append a.auth (e ∷ []), room, cap);
      },
      λ k. times-qsort (a.auth ++ e ∷ []) k ∙ times-append a.auth e k new,
    )

module _ (os : Os) (conf : Conf) (temp file : Bytes)
    (has_temp : conffile_param conf (codes "authtemp") ≡ some temp)
    (has_file : conffile_param conf (codes "authfile") ≡ some file) where
  pub auth_write_text-Ends :
      (es : List Entry) → Ends (Refused os temp file) (λ _. Unit) (auth_write_text os conf es)
  unfolding auth_write_text
  auth_write_text-Ends es =
      rw (has_temp, has_file)
        (elim (Bool-cases (os.writable temp)) [
          | inr closed ↦ rw closed (inr (inl (refl, closed)))
          | inl open_ ↦ elim (Bool-cases (os.rename temp file)) [
            | inr stuck ↦ rw (open_, stuck) (inr (inr (refl, stuck)))
            | inl moved ↦ rw (open_, moved) tt
          ]
        ])

  make_room-Ends :
      (a : Auth)
      → IsValid a
      → Ends
          (Refused os temp file)
          (λ (b : Auth). (b.auth ≡ a.auth) × (auth_cur a < b.capacity) × (b.capacity ≡ b.auth_max))
          (make_room os a)
  unfolding make_room auth_init_mem
  make_room-Ends a v = elim (Bool-cases (auth_cur a == a.auth_max)) [
    | inr room ↦ rw room (refl, ground arith, v.allocated)
    | inl full ↦ elim (Bool-cases (os.realloc (entry_size * (a.auth_max + 1024)))) [
      | inr no_memory ↦ rw (full, no_memory) (inl (refl, (_, no_memory)))
      | inl grown ↦ rw (full, grown) (refl, ground arith, refl)
    ]
  ]

  store_entry-Ends :
      (h : Bytes) (a b : Auth)
      → IsValid a
      → length h < hostname_max
      → times a.auth h ≡ none
      → (b.auth ≡ a.auth) × (auth_cur a < b.capacity) × (b.capacity ≡ b.auth_max)
      → Ends (Refused os temp file) (Added (os.time 0) h a) (store_entry os conf h b)
  unfolding store_entry
  store_entry-Ends h a b v short new f =
      let room : ltb (auth_cur b) b.capacity ≡ true = rw f.0 (lt→ltb _ _ f.1) in
      let e : Entry = record { hostname = h; t = os.time 0 } in
      let entries = qsort (b.auth ++ e ∷ []) in
      let stored : Auth = record b { auth = entries } in
      rw (room, take_all hostname_max h (omega arith))
        (Ends-after (Refused os temp file) (Added (os.time 0) h a) [] _ (
          Ends-bind (Refused os temp file) (λ _. Unit) (Added (os.time 0) h a)
            (auth_write_text os conf entries) (λ _. pure stored) (auth_write_text-Ends entries)
            (λ _ _. qsort_append-Added (os.time 0) h a b v short new f)))

  pub authorise-Ends :
      (user h : Bytes) (a : Auth)
      → IsValid a
      → length h < hostname_max
      → times a.auth h ≡ none
      → Ends (Refused os temp file) (Added (os.time 0) h a) (authorise os conf user h a)
  unfolding authorise
  authorise-Ends user h a v short new =
      Ends-after (Refused os temp file) (Added (os.time 0) h a)
        (log log_notice "authorising %s at %s\n" (Arg.str user ∷ Arg.str h ∷ []) ∷ [])
        (make_room os a >>= store_entry os conf h)
        (Ends-bind (Refused os temp file)
          (λ b. (b.auth ≡ a.auth) × (auth_cur a < b.capacity) × (b.capacity ≡ b.auth_max))
          (Added (os.time 0) h a) (make_room os a) (store_entry os conf h) (make_room-Ends a v)
          (λ b f. store_entry-Ends h a b v short new f))

  refresh-Added :
      (user h : Bytes) (a : Auth) (i : ℕ) (e : Entry)
      → IsValid a
      → get_elem? a.auth i ≡ some e
      → e.hostname ≡ h
      → Ends (Refused os temp file) (Added (os.time 0) h a) (refresh os user h i a)
  unfolding refresh
  refresh-Added user h a i e v g same = (
    touch-IsValid (os.time 0) a i e v g,
    λ k. rw (← same) (times-touch (os.time 0) a.auth i e k v.sorted g),
  )

  -- With the two file parameters set, a valid table and a host shorter than its field: an
  -- addition never faults. It either gives up with status 20, 21 or 22, where the system refused
  -- memory, the temporary file or the rename; or it leaves a valid table whose map from hosts to
  -- times has the present time at the host and is unchanged elsewhere.
  pub auth_text_add-Ends :
      (user h : Bytes) (a : Auth)
      → IsValid a
      → length h < hostname_max
      → Ends (Refused os temp file) (Added (os.time 0) h a) (auth_text_add os conf user h a)
  unfolding auth_text_add
  auth_text_add-Ends user h a v short =
      go (auth_present a h) (auth_present-Answers a h v.sorted (omega arith))
    where
      go :
          (r : Option ℕ)
          → Answers a.auth h r
          → Ends
              (Refused os temp file)
              (Added (os.time 0) h a)
              (elim r [ none ↦ authorise os conf user h a | some i ↦ refresh os user h i a ])
      go none new = authorise-Ends user h a v short new
      go (some i) found = refresh-Added user h a i found.0 v found.1 found.2
