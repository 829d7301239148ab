-- ===== src/Auth/Database/Clean.antt =====
-- auth.c: what the operations on a Berkeley database do, and the alarm behind a cleaning.
use exact.Base.{
  none, ℕ, ◌≤◌, true, false, Option, some, List, [], ◌∷◌, ◌++◌, ◌≡◌, refl, sym, ap, ◌∙◌, ◌⊎◌, Bytes,
  codes, arith, if◌then◌else◌, append_assoc, All,
}
use exact.Base.Int.{pos, ltb_ℤ, sub_ℕ}
use exact.Libc.{str_eq, atoi}
use exact.Os.{Os}
use exact.Outcome.{Outcome, done, exit, fault, Trace, signal, alarm, Ends, after, pure, ◌>>=◌}
use exact.Conffile.Param.{Conf, conffile_param, conffile_param_int-some}
use exact.Auth.Database.{
  Item, Berkeley, AuthDb, db_clean_loop, open_cursor, auth_db_clean, uses_db, clean_kind,
  auth_clean,
}

-- What the library documents of `put`, on the map that a database represents.
pub record Stores {State : Type 0} (b : Berkeley State) (value : State → Bytes → Option ℕ)
    : Type 0 where
  pub put_value :
      (k : Bytes) (t : ℕ) (db db' : State)
      → b.put k t db ≡ some db'
      → (h : Bytes) → value db' h ≡ (if str_eq k h then some t else value db h)

module _ {State : Type 0} (b : Berkeley State) where
  -- How an addition fails: the library refuses the write, or to sync it.
  abbrev pub NotAdded : Os → Bytes → State → ℕ → Type 0
  NotAdded os host db n =
      ((n ≡ 22) × (b.put host (os.time 0) db ≡ none))
      ⊎ ((n ≡ 23) × ((db' : State) × (b.put host (os.time 0) db ≡ some db') × (b.sync db' ≡ false)))

  loop-keeps :
      (now n : ℕ) (is : List Item) (db : State)
      → All (λ (i : Item). now ≤ i.address) is
      → db_clean_loop b now (pos n) is db ≡ pure db
  unfolding db_clean_loop
  loop-keeps now n [] db h = refl
  loop-keeps now n (i ∷ is) db h =
      let young : ltb_ℤ (pos n) (sub_ℕ now i.address) ≡ false = ground arith in
      rw (young, loop-keeps now n is db h.1) refl

  -- With a timeout that is not negative, a cursor that opens, and all its data at addresses not
  -- below the number of the present time: a cleaning returns the database unchanged, however old
  -- the times that are stored there.
  pub auth_db_clean-keeps :
      (os : Os) (conf : Conf) (db : State) (timeout : Bytes) (n : ℕ)
      → conffile_param conf (codes "timeout") ≡ some timeout
      → atoi timeout ≡ pos n
      → b.cursor db ≡ true
      → All (λ (i : Item). os.time 0 ≤ i.address) (b.items db)
      → Ends (λ _. ⊥) (λ db'. db' ≡ db) (auth_db_clean b os conf db)
  unfolding auth_db_clean open_cursor
  auth_db_clean-keeps os conf db timeout n has is_n opens high =
      rw
        (
          conffile_param_int-some conf (codes "timeout") timeout has,
          is_n,
          opens,
          loop-keeps (os.time 0) n (b.items db) db high,
        )
        refl

  -- If the call returns, the last things it did are to install the handler and to set the alarm.
  abbrev pub Rearms : Outcome (AuthDb State) → Type 0
  Rearms (done t a) =
      (u : Trace) × (t ≡ u ++ (signal 14 "auth_clean" ∷ alarm a.text.auth_alarm ∷ []))
  Rearms (exit _ _) = Unit
  Rearms (fault _) = Unit

  after-Rearms : (t : Trace) (m : Outcome (AuthDb State)) → Rearms m → Rearms (after t m)
  after-Rearms t (done u a) (v, e) = (t ++ v, ap (λ x. t ++ x) e ∙ sym (append_assoc t v _))
  after-Rearms t (exit u n) r = tt
  after-Rearms t (fault u) r = tt

  bind-Rearms :
      {A : Type 0} (m : Outcome A) (f : A → Outcome (AuthDb State))
      → ((a : A) → Rearms (f a))
      → Rearms (m >>= f)
  bind-Rearms (done t a) f h = after-Rearms t (f a) (h a)
  bind-Rearms (exit t n) f h = tt
  bind-Rearms (fault t) f h = tt

  -- By either kind of database, a cleaning that returns has, as its last effects, installed the
  -- handler again and armed the alarm with the interval of the state it leaves.
  pub auth_clean-Rearms :
      (os : Os) (conf : Conf) (a : AuthDb State) → Rearms (auth_clean b os conf a)
  unfolding auth_clean
  auth_clean-Rearms os conf a =
      bind-Rearms (uses_db b conf) _
        (λ by_db. bind-Rearms (clean_kind b os conf a by_db) _ (λ cleaned. ([], refl)))
