-- ===== src/Match/Login.antt =====
-- match.h, match.c: the memory of `match_login`, and the copy of one group into it.
use exact.Base.{
  ℕ, ◌+◌, ◌-◌, Option, none, some, [], ◌∷◌, ◌++◌, Bytes, leb, ltb, if◌then◌else◌, length, take,
  drop, replicate,
}
use exact.Libc.{c_string}
use exact.Outcome.{Outcome, fault, pure}

-- `MATCH_LOGIN_USERNAME_MAX`, `MATCH_LOGIN_HOSTNAME_MAX`
abbrev pub username_max : ℕ
username_max = 255

abbrev pub hostname_max : ℕ
hostname_max = 255

-- The bytes of the structure: the two arrays stand one behind the other.
pub record MatchLogin : Type 0 where
  pub memory : Bytes

abbrev pub login_size : ℕ
login_size = 510

-- The static `l` before the first match.
abbrev pub zeroed : MatchLogin
zeroed = record { memory = replicate login_size 0 }

-- What the callers read through `l->username` and `l->hostname`.
unfoldable pub username : MatchLogin → Bytes
username l = c_string l.memory

unfoldable pub hostname : MatchLogin → Bytes
hostname l = c_string (drop username_max l.memory)

-- A write of bytes from an offset on; past the end of the structure it is a fault.
unfoldable pub poke : ℕ → Bytes → MatchLogin → Outcome MatchLogin
poke at bytes l =
    if leb (at + length bytes) (length l.memory)
    then pure (record { memory = take at l.memory ++ bytes ++ drop (at + length bytes) l.memory })
    else fault []

-- `r.rm_eo - r.rm_so`; both are -1 for a group that took no part.
abbrev pub group_length : Option (ℕ × ℕ) → ℕ
group_length none = 0
group_length (some (so, eo)) = eo - so

abbrev pub group_start : Bytes → Option (ℕ × ℕ) → Bytes
group_start buff none = buff
group_start buff (some (so, eo)) = drop so buff

-- `length > MAX ? MAX : length`
abbrev pub clip : ℕ → ℕ → ℕ
clip max n = if ltb max n then max else n

-- What `strncpy(dst, src, n)` writes: n bytes, with zeros behind the end of the string.
abbrev pub padded : ℕ → Bytes → Bytes
padded n s = take n s ++ replicate (n - length (take n s)) 0

-- `strncpy` of the group to the array at offset `at`, and a zero behind it.
unfoldable pub copy_group : Bytes → Option (ℕ × ℕ) → ℕ → ℕ → MatchLogin → Outcome MatchLogin
unfolding poke
copy_group buff group at max l =
    let n = clip max (group_length group) in poke at (padded n (group_start buff group) ++ 0 ∷ []) l
