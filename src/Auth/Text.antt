-- ===== src/Auth/Text.antt =====
-- auth.c: the operations on a text database.
use exact.Base.{
  ℕ, ◌+◌, Option, none, some, List, [], ◌∷◌, ◌++◌, Bytes, ltb, ◌==◌, if◌then◌else◌, length,
  get_elem?, set, codes,
}
use exact.Base.Int.{ℤ, sub_ℕ, ltb_ℤ}
use exact.Libc.{strncpy}
use exact.Os.{Os}
use exact.Outcome.{
  Outcome, done, fault, Trace, creat, chmod, fprintf, truncated, rename, Arg, log_err, log_notice,
  log_debug, ◌>>=◌, ◌>>◌, pure, emit, logger, die, deref,
}
use exact.Conffile.Param.{Conf, conffile_param, conffile_param_int}
use exact.Auth.Table.{
  Entry, Auth, auth_cur, hostname_max, qsort, auth_present, auth_init_mem, append_entry,
}

-- The `fprintf` of each live entry to the file.
abbrev pub print_hosts : Bytes → List Entry → Trace
print_hosts path [] = []
print_hosts path (e ∷ es) = fprintf path "%s\n" (Arg.str e.hostname ∷ []) ∷ print_hosts path es

-- What `fclose` does to the file, by its answer.
abbrev pub closing : Bytes → Option ℕ → Trace
closing path none = []
closing path (some n) = truncated path n ∷ []

-- The results of `fprintf` and `fclose` are ignored.
unfoldable pub auth_write_text : Os → Conf → List Entry → Outcome (Unit {0})
auth_write_text os conf entries = do
  authtemp ← deref (conffile_param conf (codes "authtemp"))
  if os.writable authtemp
      then emit (creat authtemp)
      else die log_err "Fatal Error: cannot write to %s\n" (Arg.str authtemp ∷ []) 21
  emit (chmod authtemp 0o640)
  done (print_hosts authtemp entries) tt
  done (closing authtemp (os.fclose authtemp)) tt
  authfile ← deref (conffile_param conf (codes "authfile"))
  if os.rename authtemp authfile
      then emit (rename authtemp authfile)
      else die log_err "Fatal Error: rename( \"%s\".\"%s\" ) failed\n"
          (Arg.str authtemp ∷ Arg.str authfile ∷ []) 22

-- The growth of a full table.
unfoldable pub make_room : Os → Auth → Outcome Auth
make_room os a =
    if auth_cur a == a.auth_max
    then auth_init_mem os (record a { auth_max = a.auth_max + 1024 })
    else pure a

-- `e->t = time(NULL)` at the entry with index `i`.
unfoldable pub touch : ℕ → ℕ → List Entry → List Entry
touch i now entries = elim (get_elem? entries i) [
  | none ↦ entries
  | some e ↦ set entries i (record e { t = now })
]

-- The branch for a host that the table holds at index `i`.
unfoldable pub refresh : Os → Bytes → Bytes → ℕ → Auth → Outcome Auth
unfolding touch
refresh os username hostname i a = do
  logger log_notice "updating timeout for %s at %s\n" (Arg.str username ∷ Arg.str hostname ∷ [])
  pure (record a { auth = touch i (os.time 0) a.auth })

-- The new entry is stored behind the others and sorted in. The file is written at once, so that
-- the host can send mail.
unfoldable pub store_entry : Os → Conf → Bytes → Auth → Outcome Auth
unfolding append_entry auth_write_text
store_entry os conf hostname a = do
  let e : Entry = record { hostname = strncpy hostname hostname_max; t = os.time 0 }
  b ← append_entry e a
  auth_write_text os conf (qsort b.auth)
  pure (record b { auth = qsort b.auth })

-- The branch for a new host.
unfoldable pub authorise : Os → Conf → Bytes → Bytes → Auth → Outcome Auth
unfolding make_room store_entry
authorise os conf username hostname a = do
  logger log_notice "authorising %s at %s\n" (Arg.str username ∷ Arg.str hostname ∷ [])
  b ← make_room os a
  store_entry os conf hostname b

unfoldable pub auth_text_add : Os → Conf → Bytes → Bytes → Auth → Outcome Auth
unfolding refresh authorise
auth_text_add os conf username hostname a = elim (auth_present a hostname) [
  | some i ↦ refresh os username hostname i a
  | none ↦ authorise os conf username hostname a
]

-- The loop of the cleaning cycle, at the entries that are left; `shadow` holds those copied so
-- far, and a copy past the memory of the shadow array is a fault.
unfoldable pub clean_loop : ℕ → ℤ → ℕ → List Entry → List Entry → Outcome (List Entry)
clean_loop t max capacity [] shadow = pure shadow
clean_loop t max capacity (e ∷ es) shadow =
    let copied : Entry = record { hostname = strncpy e.hostname hostname_max; t = e.t } in
    let keep = clean_loop t max capacity es (shadow ++ copied ∷ []) in
    let flush = clean_loop t max capacity es shadow in
    if ltb_ℤ (sub_ℕ t e.t) max
    then (if ltb (length shadow) capacity then keep else fault [])
    else (logger log_notice "flushing %s\n" (Arg.str e.hostname ∷ []) >> flush)

-- The swap of the two arrays, with `auth_cur = n`, and the write of the file.
unfoldable pub swap_tables : Os → Conf → Auth → List Entry → Outcome Auth
unfolding auth_write_text
swap_tables os conf a kept = do
  auth_write_text os conf kept
  logger log_debug "Finished cleaning cycle\n" []
  pure (record a { auth = kept; shadow_auth = a.auth })

-- The cycle, with the timeout at hand.
unfoldable pub clean_with : Os → Conf → Auth → ℤ → Outcome Auth
unfolding clean_loop swap_tables
clean_with os conf a max = do
  logger log_notice "cleaning state tables\n" []
  logger log_debug "Starting cleaning cycle\n" []
  kept ← clean_loop (os.time 0) max a.capacity a.auth []
  swap_tables os conf a kept

unfoldable pub auth_text_clean : Os → Conf → Auth → Outcome Auth
unfolding clean_with
auth_text_clean os conf a = do
  max ← conffile_param_int conf (codes "timeout")
  clean_with os conf a max

-- The `fprintf` of each entry with its time.
abbrev pub print_state : Bytes → List Entry → Trace
print_state path [] = []
print_state path (e ∷ es) =
    fprintf path "%s\t\t%d (%s)\n" (Arg.str e.hostname ∷ Arg.num e.t ∷ Arg.date e.t ∷ [])
    ∷ print_state path es

unfoldable pub auth_text_dump : Os → Conf → Auth → Outcome (Unit {0})
auth_text_dump os conf a = do
  dumpfile ← deref (conffile_param conf (codes "dumpfile"))
  if os.writable dumpfile
      then (do
        emit (creat dumpfile)
        emit (chmod dumpfile 0o640)
        logger log_notice "dumping state\n" []
        done (print_state dumpfile a.auth) tt)
      else logger log_err "Unable to write to dump file %s\n" (Arg.str dumpfile ∷ [])
