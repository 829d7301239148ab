-- ===== src/Auth/Table.antt =====
-- auth.c: the table's state, its order, its search and its allocation.
pub mod Sorted
pub mod Search
pub mod Canonical
use Prim.Native.Nat.{Ordering}
use exact.Base.{
  ℕ, zero, suc, ◌+◌, ◌*◌, ◌/◌, not, Option, none, some, List, [], ◌∷◌, ◌++◌, Bytes, ltb,
  if◌then◌else◌, length, get_elem?,
}
use exact.Base.Int.{ℤ}
use exact.Libc.{strcmp, strncpy}
use exact.Os.{Os}
use exact.Outcome.{Outcome, pure, fault, die, log_err}

-- `MATCH_LOGIN_HOSTNAME_MAX`
abbrev pub hostname_max : ℕ
hostname_max = 255

-- `auth_entry`; its size with the padding behind `hostname`.
pub record Entry : Type 0 where
  pub hostname : Bytes
  pub t : ℕ

abbrev pub entry_size : ℕ
entry_size = 264

-- The globals of auth.c. `auth` is the part of the array below `auth_cur`, so that `auth_cur` is
-- its length; what lies above is never read. `capacity` is the number of entries for which both
-- arrays have memory.
pub record Auth : Type 0 where
  pub auth : List Entry
  pub shadow_auth : List Entry
  pub capacity : ℕ
  pub auth_max : ℕ
  pub auth_alarm : ℤ

abbrev pub auth_cur : Auth → ℕ
auth_cur a = length a.auth

-- The globals' initial values.
abbrev pub initial : Auth
initial = record {
  auth = [];
  shadow_auth = [];
  capacity = 0;
  auth_max = 16384;
  auth_alarm = ℤ.pos 0;
}

unfoldable pub auth_cmp : Entry → Entry → Ordering
auth_cmp a b = strcmp a.hostname b.hostname

pub insert : Entry → List Entry → List Entry
insert e [] = e ∷ []
insert e (x ∷ xs) = elim (auth_cmp e x) [ Ordering.gt ↦ x ∷ insert e xs | _ ↦ e ∷ x ∷ xs ]

-- `qsort` by `auth_cmp`: the entries in ascending order.
unfoldable pub qsort : List Entry → List Entry
unfolding insert auth_cmp
qsort [] = []
qsort (x ∷ xs) = insert x (qsort xs)

-- `bsearch` by `auth_cmp`, on the index range from `l` to `u`, with fuel for the rounds.
unfoldable pub bsearch_in : ℕ → Entry → List Entry → ℕ → ℕ → Option ℕ
unfolding auth_cmp
bsearch_in zero key base l u = none
bsearch_in (suc fuel) key base l u =
    let mid = (l + u) / 2 in
    let below = bsearch_in fuel key base l mid in
    let above = bsearch_in fuel key base (mid + 1) u in
    if not (ltb l u) then none else elim (get_elem? base mid) [
      | none ↦ none
      | some e ↦ elim (auth_cmp key e) [
        | Ordering.lt ↦ below
        | Ordering.eq ↦ some mid
        | Ordering.gt ↦ above
      ]
    ]

unfoldable pub bsearch : Entry → List Entry → Option ℕ
unfolding bsearch_in
bsearch key base = bsearch_in (length base + 1) key base 0 (length base)

-- The index of a host's entry, for the pointer that the function returns. (A host of 255 bytes is
-- copied without a terminator, and the comparison reads the padding behind it, taken to be zero.)
unfoldable pub auth_present : Auth → Bytes → Option ℕ
unfolding bsearch
auth_present a hostname =
    bsearch (record { hostname = strncpy hostname hostname_max; t = 0 }) a.auth

unfoldable pub auth_init_mem : Os → Auth → Outcome Auth
auth_init_mem os a =
    if not (os.realloc (entry_size * a.auth_max))
    then die log_err "Fatal error: out of memory in auth\n" [] 20
    else pure (record a { capacity = a.auth_max })

-- A write of the entry at index `auth_cur`, and `auth_cur++`.
unfoldable pub append_entry : Entry → Auth → Outcome Auth
append_entry e a =
    if ltb (auth_cur a) a.capacity then pure (record a { auth = a.auth ++ e ∷ [] }) else fault []
