-- ===== src/Tests/Berkeley.antt =====
-- The theorems on a Berkeley database, at a library that keeps its items in a list.
use exact.Base.{
  ℕ, true, Option, none, some, List, [], ◌∷◌, ◌≡◌, refl, Bytes, codes, arith, if◌then◌else◌,
}
use exact.Libc.{atoi, str_eq}
use exact.Outcome.{Ends}
use exact.Auth.Database.{Item, Berkeley, auth_db_clean, auth_clean}
use exact.Auth.Database.Clean.{auth_db_clean-keeps, Rearms, auth_clean-Rearms}
use exact.Tests.{demo_conf, demo_os, demo_auth, demo-timeout}

abbrev Store : Type 0
Store = List (Bytes × ℕ)

abbrev value_of : Store → Bytes → Option ℕ
value_of [] h = none
value_of (e ∷ es) h = if str_eq e.0 h then some e.1 else value_of es h

-- All data stands at one address, as a cursor's buffer does.
abbrev items_of : Store → List Item
items_of [] = []
items_of (e ∷ es) = record { key = e.0; address = 65536; t = e.1 } ∷ items_of es

abbrev library : Berkeley Store
library = record {
  db_create = true;
  db_open = λ _. some [];
  put = λ k t db. some ((k, t) ∷ db);
  sync = λ _. true;
  del = λ _ db. some db;
  cursor = λ _. true;
  items = items_of;
  c_del = λ _ _. some [];
  message = λ s. s;
}

-- One host from the time 20, which is past its timeout.
abbrev old_store : Store
old_store = (codes "1.1", 20) ∷ []

or_old : Option Store → Store
or_old none = old_store
or_old (some s) = s

auth_db_clean-keeps_example :
    Ends (λ _. ⊥) (λ db'. db' ≡ old_store) (auth_db_clean library demo_os demo_conf old_store)
unfolding atoi
auth_db_clean-keeps_example =
    auth_db_clean-keeps library demo_os demo_conf old_store (codes "60") 60 demo-timeout refl refl
      (omega arith, tt)

auth_clean-Rearms_example :
    Rearms library
      (auth_clean library demo_os demo_conf (record { text = demo_auth; db = some old_store }))
auth_clean-Rearms_example =
    auth_clean-Rearms library demo_os demo_conf (record { text = demo_auth; db = some old_store })
