-- ===== src/Auth/Relay/Add.antt =====
-- auth.c: an addition to a text database, and the relay file.
use exact.Base.{
  ℕ, ◌+◌, Option, none, some, List, [], ◌∷◌, ◌++◌, ◌≡◌, refl, ap, Bytes, codes, ◌==◌, ltb, not, ◌*◌,
}
use exact.Libc.{strncpy}
use exact.Os.{Os}
use exact.Outcome.Files.{Printing, Apart}
use exact.Outcome.{Outcome, pure, ◌>>=◌, logger, log_notice, Arg}
use exact.Outcome.Quiet.{IsQuiet, quiet}
use exact.Outcome.Returns.{
  Returns, Returns-if, Returns-exit, Returns-map, Returns-pure, Returns-done, Returns-fault,
}
use exact.Outcome.Triple.{Triple-bind, Triple-pure, Triple-fact, Triple-Returns, IsQuiet-Triple}
use exact.Conffile.Param.{Conf, conffile_param}
use exact.Auth.Table.{
  Entry, Auth, auth_cur, auth_init_mem, entry_size, append_entry, auth_present, qsort, hostname_max,
}
use exact.Auth.Text.{auth_write_text, make_room, refresh, store_entry, authorise, auth_text_add}
use exact.Auth.Publish.{host_lines}
use exact.Auth.Relay.{
  lines-touch, Kept, Shown, Whole, Relays, quiet-Relays, write-Relays, fclose-Fits,
}

make_room-auth : (os : Os) (a : Auth) → Returns (λ b. b.auth ≡ a.auth) (make_room os a)
unfolding make_room auth_init_mem
make_room-auth os a =
    Returns-if (λ b. b.auth ≡ a.auth) (auth_cur a == a.auth_max) _ _
      (Returns-if (λ b. b.auth ≡ a.auth) (not (os.realloc (entry_size * (a.auth_max + 1024)))) _ _
        (Returns-exit (λ b. b.auth ≡ a.auth) _ 20) (Returns-pure (λ b. b.auth ≡ a.auth) _ refl))
      (Returns-pure (λ b. b.auth ≡ a.auth) a refl)

make_room-IsQuiet : (os : Os) (a : Auth) → IsQuiet (make_room os a)
unfolding make_room auth_init_mem
make_room-IsQuiet os a = search quiet depth 8

append_entry-IsQuiet : (e : Entry) (a : Auth) → IsQuiet (append_entry e a)
unfolding append_entry
append_entry-IsQuiet e a = search quiet depth 8

append_entry-auth :
    (e : Entry) (a : Auth) → Returns (λ b. b.auth ≡ a.auth ++ e ∷ []) (append_entry e a)
unfolding append_entry
append_entry-auth e a =
    Returns-if (λ b. b.auth ≡ a.auth ++ e ∷ []) (ltb (auth_cur a) a.capacity) _ _
      (Returns-pure (λ b. b.auth ≡ a.auth ++ e ∷ []) _ refl)
      (Returns-fault (λ b. b.auth ≡ a.auth ++ e ∷ []) [])

module _ (printing : Printing) (conf : Conf) (temp file : Bytes) (apart : Apart printing temp file)
    (has_temp : conffile_param conf (codes "authtemp") ≡ some temp)
    (has_file : conffile_param conf (codes "authfile") ≡ some file) (T : List Entry → Type 0)
    (kept : Kept T) (os : Os) (room : os.fclose temp ≡ none) where
  abbrev pub Publishes : List Entry → Outcome Auth → Type 0
  Publishes es m =
      Relays printing conf temp file apart has_temp has_file T es (λ (b : Auth). b.auth) m

  refresh-Publishes : (user h : Bytes) (i : ℕ) (a : Auth) → Publishes a.auth (refresh os user h i a)
  unfolding refresh
  refresh-Publishes user h i a =
      quiet-Relays printing conf temp file apart has_temp has_file T a.auth (λ (b : Auth). b.auth) _
        (search quiet depth 8)
        (Returns-done _ _ _ (kept.touched a.auth i (os.time 0), lines-touch (os.time 0) i a.auth))

  store_entry-Publishes : (h : Bytes) (a : Auth) → Publishes a.auth (store_entry os conf h a)
  unfolding store_entry
  store_entry-Publishes h a =
      let e : Entry = record { hostname = strncpy h hostname_max; t = os.time 0 } in
      let F : Auth → Type 0 = λ b. b.auth ≡ a.auth ++ e ∷ [] in
      Triple-bind printing file (Whole T) (Shown T a.auth) (λ b c. F b × Shown T a.auth c)
        (λ b. Shown T b.auth) (append_entry e a) _
        (Triple-Returns printing file (Whole T) (Shown T a.auth) (λ _. Shown T a.auth) F
          (append_entry e a)
          (IsQuiet-Triple printing file apart.1 (Whole T) (Shown T a.auth) _
            (append_entry-IsQuiet e a) (λ c s. (a.auth, s)))
          (append_entry-auth e a))
        (λ b.
          Triple-fact printing file (Whole T) (Shown T a.auth) (F b) (λ d. Shown T d.auth) _
            (λ same. stored e b same))
    where
      stored :
          (e : Entry) (b : Auth)
          → b.auth ≡ a.auth ++ e ∷ []
          → Publishes a.auth (
              auth_write_text os conf (qsort b.auth) >>= λ _.
              pure (record b { auth = qsort b.auth }))
      stored e b same =
          Triple-bind printing file (Whole T) (Shown T a.auth) (λ _. Shown T (qsort b.auth))
            (λ d. Shown T d.auth) (auth_write_text os conf (qsort b.auth)) _
            (write-Relays printing conf temp file apart has_temp has_file T os a.auth (qsort b.auth)
              (fclose-Fits printing conf temp file apart has_temp has_file T os (qsort b.auth) room)
              (λ t. rw same (kept.add a.auth e t)))
            (λ _.
              Triple-pure printing file (Whole T) (Shown T (qsort b.auth)) _ _
                (λ c s. ((qsort b.auth, s), s)))

  authorise-Publishes : (user h : Bytes) (a : Auth) → Publishes a.auth (authorise os conf user h a)
  unfolding authorise
  authorise-Publishes user h a =
      Triple-bind printing file (Whole T) (Shown T a.auth) (λ _. Shown T a.auth)
        (λ b. Shown T b.auth)
        (logger log_notice "authorising %s at %s\n" (Arg.str user ∷ Arg.str h ∷ [])) _
        (IsQuiet-Triple printing file apart.1 (Whole T) (Shown T a.auth) _ (search quiet depth 4)
          (λ c s. (a.auth, s)))
        (λ _.
          Triple-bind printing file (Whole T) (Shown T a.auth) (λ b. Shown T b.auth)
            (λ b. Shown T b.auth) (make_room os a) (store_entry os conf h)
            (quiet-Relays printing conf temp file apart has_temp has_file T a.auth
              (λ (b : Auth). b.auth) (make_room os a) (make_room-IsQuiet os a)
              (Returns-map _ _ _ (make_room-auth os a)
                (λ b same. ((λ t. rw same t), ap host_lines same))))
            (store_entry-Publishes h))

  pub auth_text_add-Publishes :
      (user h : Bytes) (a : Auth) → Publishes a.auth (auth_text_add os conf user h a)
  unfolding auth_text_add
  auth_text_add-Publishes user h a = answered (auth_present a h)
    where
      answered :
          (r : Option ℕ)
          → Publishes a.auth
              (elim r [ none ↦ authorise os conf user h a | some i ↦ refresh os user h i a ])
      answered none = authorise-Publishes user h a
      answered (some i) = refresh-Publishes user h i a
