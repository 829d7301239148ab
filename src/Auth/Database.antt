-- ===== src/Auth/Database.antt =====
-- auth.c: the operations on a Berkeley database, and the entry points in a build with `WITH_DB`
-- and a library version above 4.0. The library is a parameter: its calls, on a state of its own.
pub mod Clean
use exact.Base.{
  ℕ, ◌+◌, Bool, true, false, Option, none, some, List, [], ◌∷◌, ◌++◌, Bytes, codes, if◌then◌else◌,
}
use exact.Base.Int.{ℤ, ltb_ℤ, sub_ℕ}
use exact.Libc.{str_eq}
use exact.Os.{Os}
use exact.Outcome.{
  Outcome, done, Trace, log_err, log_debug, log_notice, creat, chmod, fprintf, signal, alarm, Arg,
  exit, ◌>>=◌, ◌>>◌, pure, emit, logger, die, deref,
}
use exact.Conffile.Param.{Conf, conffile_param, conffile_param_int}
use exact.Auth.Table.{Auth, auth_init_mem}
use exact.Auth.Text.{auth_text_add, auth_text_clean, auth_text_dump, auth_write_text}

-- What a cursor gives: a key, the address `data.data` of its data, and the time that stands there.
pub record Item : Type 0 where
  pub key : Bytes
  pub address : ℕ
  pub t : ℕ

-- The calls of the library; `none` and `false` are results other than 0.
pub record Berkeley (State : Type 0) : Type 0 where
  pub db_create : Bool
  pub db_open : Bytes → Option State
  pub put : Bytes → ℕ → State → Option State
  pub sync : State → Bool
  pub del : Bytes → State → Option State
  pub cursor : State → Bool
  -- what `c_get` with `DB_NEXT` gives, one after the other
  pub items : State → List Item
  -- `c_del` with the cursor at the item
  pub c_del : Item → State → Option State
  -- the text that `err` makes of its message
  pub message : Bytes → Bytes

-- The globals; `db` is `none` for the null pointer.
pub record AuthDb (State : Type 0) : Type 0 where
  pub text : Auth
  pub db : Option State

module _ {State : Type 0} (b : Berkeley State) where
  unfoldable pub db_errcall_fn : Bytes → Outcome (Unit {0})
  db_errcall_fn msg = logger log_err "Berkeley Database: %s\n" (Arg.str msg ∷ [])

  -- `db->err(db, ret, …); exit(status);`
  unfoldable pub db_fail : {A : Type 0} → Bytes → ℕ → Outcome A
  unfolding db_errcall_fn
  db_fail msg status = db_errcall_fn (b.message msg) >> exit [] status

  -- A call with its test.
  unfoldable pub checked : {A : Type 0} → Option A → Bytes → ℕ → Outcome A
  unfolding db_fail
  checked none msg status = db_fail msg status
  checked (some a) msg status = pure a

  unfoldable pub opendb : Conf → Outcome State
  unfolding checked
  opendb conf = do
    if b.db_create
        then pure tt
        else die log_err "Fatal Error: unable to create berkeley database\n" [] 22
    db_path ← deref (conffile_param conf (codes "authfile"))
    db ← checked (b.db_open db_path) (codes "Opening Database") 22
    logger log_debug "Database %s Opened\n" (Arg.str db_path ∷ [])
    pure db

  unfoldable pub auth_db_add : Os → Bytes → Bytes → State → Outcome State
  unfolding checked db_fail
  auth_db_add os username hostname db = do
    logger log_debug "Berkeley DB: %s -> %d\n" (Arg.str hostname ∷ Arg.num (os.time 0) ∷ [])
    logger log_notice "authorising %s at %s\n" (Arg.str username ∷ Arg.str hostname ∷ [])
    stored ← checked (b.put hostname (os.time 0) db) (codes "writing hostname") 22
    if b.sync stored then pure stored else db_fail (codes "syncing database") 23

  -- Nothing calls it. The handle is closed behind it.
  unfoldable pub auth_db_delete : Bytes → State → Outcome (Option State)
  unfolding checked
  auth_db_delete hostname db =
      checked (b.del hostname db) (codes "deleting hostname") 22 >>= λ _. pure none

  -- The loop at the items that are left. `then` is the address of the data, not the time there.
  unfoldable pub db_clean_loop : ℕ → ℤ → List Item → State → Outcome State
  unfolding checked
  db_clean_loop now max [] db = pure db
  db_clean_loop now max (i ∷ is) db =
      let keep = db_clean_loop now max is db in
      let drop_it = checked (b.c_del i db) (codes "deleting key") 22 >>= db_clean_loop now max is in
      if ltb_ℤ max (sub_ℕ now i.address) then drop_it else keep

  unfoldable pub open_cursor : State → Outcome (List Item)
  unfolding db_fail
  open_cursor db = if b.cursor db then pure (b.items db) else db_fail (codes "opening cursor") 22

  unfoldable pub auth_db_clean : Os → Conf → State → Outcome State
  unfolding open_cursor db_clean_loop
  auth_db_clean os conf db = do
    max ← conffile_param_int conf (codes "timeout")
    logger log_notice "cleaning db file\n" []
    is ← open_cursor db
    cleaned ← db_clean_loop (os.time 0) max is db
    logger log_debug "Finished cleaning cycle\n" []
    pure cleaned

  -- The `fprintf` of each item.
  abbrev print_items : Bytes → List Item → Trace
  print_items path [] = []
  print_items path (i ∷ is) =
      fprintf path "%s\t%s\n" (Arg.str i.key ∷ Arg.date i.t ∷ []) ∷ print_items path is

  -- Behind a successful `fopen`.
  unfoldable pub dump_items : Bytes → State → Outcome (Unit {0})
  unfolding open_cursor
  dump_items dumpfile db = do
    emit (creat dumpfile)
    emit (chmod dumpfile 0o640)
    logger log_notice "dumping state\n" []
    is ← open_cursor db
    done (print_items dumpfile is) tt

  unfoldable pub auth_db_dump : Os → Conf → State → Outcome (Unit {0})
  unfolding dump_items
  auth_db_dump os conf db = do
    dumpfile ← deref (conffile_param conf (codes "dumpfile"))
    if os.writable dumpfile
        then dump_items dumpfile db
        else logger log_err "Unable to write to dump file %s\n" (Arg.str dumpfile ∷ [])

  -- `!strcmp(conffile_param("authtype"), "db")`
  unfoldable pub uses_db : Conf → Outcome Bool
  uses_db conf =
      deref (conffile_param conf (codes "authtype")) >>= λ t. pure (str_eq t (codes "db"))

  unfoldable pub auth_add : Os → Conf → Bytes → Bytes → AuthDb State → Outcome (AuthDb State)
  unfolding uses_db auth_db_add
  auth_add os conf username hostname a = do
    by_db ← uses_db conf
    if by_db
        then (deref a.db >>= λ db.
            auth_db_add os username hostname db >>= λ stored. pure (record a { db = some stored }))
        else (auth_text_add os conf username hostname a.text >>= λ t. pure (record a { text = t }))

  unfoldable pub auth_dump : Os → Conf → AuthDb State → Outcome (Unit {0})
  unfolding uses_db auth_db_dump
  auth_dump os conf a = do
    by_db ← uses_db conf
    if by_db then deref a.db >>= auth_db_dump os conf else auth_text_dump os conf a.text

  -- The cleaning by the configured kind.
  unfoldable pub clean_kind : Os → Conf → AuthDb State → Bool → Outcome (AuthDb State)
  unfolding auth_db_clean
  clean_kind os conf a by_db =
      if by_db
      then (deref a.db >>= λ db.
          auth_db_clean os conf db >>= λ cleaned. pure (record a { db = some cleaned }))
      else (auth_text_clean os conf a.text >>= λ t. pure (record a { text = t }))

  unfoldable pub auth_clean : Os → Conf → AuthDb State → Outcome (AuthDb State)
  unfolding uses_db clean_kind
  auth_clean os conf a = do
    by_db ← uses_db conf
    cleaned ← clean_kind os conf a by_db
    emit (signal 14 "auth_clean")
    emit (alarm cleaned.text.auth_alarm)
    pure cleaned

  -- The database that is opened, or the relay file that is written.
  unfoldable pub first_output : Os → Conf → AuthDb State → Bool → Outcome (AuthDb State)
  unfolding opendb
  first_output os conf a by_db =
      if by_db
      then (opendb conf >>= λ db. pure (record a { db = some db }))
      else (auth_write_text os conf a.text.auth >> pure a)

  unfoldable pub auth_init : Os → Conf → AuthDb State → Outcome (AuthDb State)
  unfolding uses_db first_output
  auth_init os conf a = do
    logger log_debug "initialising authentication tables\n" []
    t ← auth_init_mem os a.text
    flush ← conffile_param_int conf (codes "flush")
    emit (signal 14 "auth_clean")
    emit (alarm flush)
    by_db ← uses_db conf
    ready ← first_output os conf (record a { text = record t { auth_alarm = flush } }) by_db
    logger log_debug "authentication tables initialised\n" []
    pure ready

  -- The handle is followed whatever the kind; with a text database it is the null pointer.
  unfoldable pub auth_exit : AuthDb State → Outcome (AuthDb State)
  auth_exit a = deref a.db >>= λ db. pure (record a { db = none })
