-- ===== src/Match.antt =====
-- match.c: a line of the log against the configured pattern, and the user and host that it names.
pub mod Login
pub mod Reads
pub mod Copy
pub mod Line
use exact.Base.{
  ℕ, zero, suc, ◌+◌, ◌-◌, Bool, true, false, not, Option, none, some, List, [], ◌∷◌, ◌++◌, Bytes,
  codes, ltb, ◌==◌, if◌then◌else◌, length, take, drop, replicate,
}
use exact.Libc.{str_eq}
use exact.Os.{Os, Regexec, matched, no_match, out_of_space, other_error}
use exact.Outcome.{
  Outcome, done, exit, fault, Trace, log, log_debug, log_err, Arg, ◌>>=◌, ◌>>◌, pure, logger, die,
  deref,
}
use exact.Conffile.Param.{Conf, conffile_param}
use exact.Match.Login.{MatchLogin, username_max, hostname_max, copy_group}

-- The globals: the pattern that `patbuf` was compiled from, if it was.
abbrev pub Pattern : Type 0
Pattern = Option Bytes

-- `match_init`. The callers ignore its result; a pattern that is refused leaves nothing to match by.
unfoldable pub match_init : Os → Conf → Outcome Pattern
match_init os conf = do
  pattern_ ← deref (conffile_param conf (codes "match"))
  if os.regcomp pattern_ then pure (some pattern_) else pure none

-- `MATCH_MAX`
abbrev pub match_max : ℕ
match_max = 100

-- The loop that logs the groups, for the rounds that are left: it stops at a group that starts
-- at 0 and passes over one that took no part.
unfoldable pub log_groups : ℕ → ℕ → (ℕ → Option (ℕ × ℕ)) → Trace
log_groups zero i r = []
log_groups (suc rounds) i r =
    let rest = log_groups rounds (i + 1) r in
    elim (r i) [
      | none ↦ rest
      | some (so, eo) ↦
          if so == 0
          then []
          else log log_debug "Match between %d and %d\n" (Arg.num so ∷ Arg.num eo ∷ []) ∷ rest
    ]

-- The user's and the host's group, copied into the static structure.
unfoldable pub copy_both :
    ℕ → ℕ → Bytes → (ℕ → Option (ℕ × ℕ)) → MatchLogin → Outcome (Option MatchLogin)
copy_both username_pos hostname_pos buff r l = do
  l' ← copy_group buff (r username_pos) 0 username_max l
  l'' ← copy_group buff (r hostname_pos) username_max hostname_max l'
  pure (some l'')

-- The case of a match.
unfoldable pub copy_login :
    ℕ → ℕ → Bytes → (ℕ → Option (ℕ × ℕ)) → MatchLogin → Outcome (Option MatchLogin)
unfolding log_groups copy_both
copy_login username_pos hostname_pos buff r l = do
  logger log_debug "Matched\n" []
  done (log_groups match_max 0 r) tt
  copy_both username_pos hostname_pos buff r l

-- The switch on the result of `regexec`.
unfoldable pub match_result : ℕ → ℕ → Bytes → Regexec → MatchLogin → Outcome (Option MatchLogin)
unfolding copy_login
match_result username_pos hostname_pos buff (matched r) l =
    copy_login username_pos hostname_pos buff r l
match_result username_pos hostname_pos buff no_match l = do
  logger log_debug "No match\n" []
  pure none
match_result username_pos hostname_pos buff out_of_space l =
    die log_err "Out of space while matching\n" [] 50
match_result username_pos hostname_pos buff other_error l = fault []

-- `match_username_pos` and `match_hostname_pos`.
unfoldable pub positions : Bytes → ℕ × ℕ
positions order = if str_eq order (codes "username,address") then (2, 3) else (3, 2)

unfoldable pub match_line : Os → Conf → Pattern → Bytes → MatchLogin → Outcome (Option MatchLogin)
unfolding match_result
match_line os conf patbuf buff l = do
  order ← deref (conffile_param conf (codes "order"))
  logger log_debug "Matching against %s\n" (Arg.str buff ∷ [])
  pattern_ ← deref patbuf
  match_result (positions order).0 (positions order).1 buff (os.regexec pattern_ buff) l
