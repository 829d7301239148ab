-- ===== src/Exact/Run/Quiet.antt =====
-- tail.c, match.c: reading the log and matching its lines changes no file.
use exact.Base.{
  ℕ, zero, suc, ◌+◌, false, Option, none, ◌≡◌, refl, Bytes, codes, [], ◌∷◌, All, ◌==◌, Bool-cases,
  Option-cases, inl, inr,
}
use exact.Base.Int.{ℤ}
use exact.Os.{Os, Regexec, matched, no_match, out_of_space, other_error}
use exact.Outcome.{
  done, nap, emit, logger, deref, Arg, log_debug, log_notice, log_err, die, pure, ◌>>◌,
}
use exact.Outcome.Quiet.{IsQuiet, IsQuiet-emit, writes, quiet, IsQuiet-bind, IsQuiet-option}
use exact.Conffile.Param.{Conf, conffile_param, conffile_param_int-IsQuiet}
use exact.Match.Login.{MatchLogin, copy_group, poke}
use exact.Match.{Pattern, log_groups, match_max, copy_both, copy_login, match_result, match_line}
use exact.Tail.{
  Tail, seek_reopened, tail_reopen, fill, buffer, read_bytes, reopen_quiet, read_or_reopen,
  read_missing, read_open, tail_read,
}

seek_reopened-IsQuiet :
    (os : Os) (k current : ℕ) (bytes : Bytes) → IsQuiet (seek_reopened os k current bytes)
unfolding seek_reopened
seek_reopened-IsQuiet os k current bytes = search quiet depth 10

tail_reopen-IsQuiet :
    (os : Os) (conf : Conf) (k current : ℕ) → IsQuiet (tail_reopen os conf k current)
unfolding tail_reopen
tail_reopen-IsQuiet os conf k current =
    IsQuiet-bind (logger log_debug "suspicious about file, reopening\n" []) _ (search quiet depth 4)
      (λ _.
        IsQuiet-bind (deref (conffile_param conf (codes "maillog"))) _ (search quiet depth 4)
          (λ path.
            IsQuiet-option (os.readable path)
              (logger log_notice "log file '%s' has disappeared.\n" (Arg.str path ∷ [])
                >> pure none)
              (seek_reopened os k current) (search quiet depth 6)
              (seek_reopened-IsQuiet os k current)))

fill-IsQuiet : (os : Os) (s : Tail) (current len : ℕ) → IsQuiet (fill os s current len)
unfolding fill
fill-IsQuiet os s current len = search quiet depth 10

read_bytes-IsQuiet : (os : Os) (s : Tail) (current len : ℕ) → IsQuiet (read_bytes os s current len)
unfolding read_bytes
read_bytes-IsQuiet os s current len =
    IsQuiet-bind (logger log_debug "%ld bytes added to file\n" (Arg.num len ∷ [])) _
      (search quiet depth 4)
      (λ _.
        IsQuiet-option (buffer os s len)
          (die log_err "unable to realloc %d bytes\n" (Arg.num len ∷ []) 30)
          (λ _. fill os s current len) (search quiet depth 4) (λ _. fill-IsQuiet os s current len))

reopen_quiet-IsQuiet :
    (os : Os) (conf : Conf) (s : Tail) (current : ℕ) → IsQuiet (reopen_quiet os conf s current)
unfolding reopen_quiet
reopen_quiet-IsQuiet os conf s current = search (tail_reopen-IsQuiet, quiet) depth 6

read_or_reopen-IsQuiet :
    (os : Os) (conf : Conf) (s : Tail) (current end : ℕ) (suspicious : ℤ)
    → IsQuiet (read_or_reopen os conf s current end suspicious)
unfolding read_or_reopen
read_or_reopen-IsQuiet os conf s current end suspicious =
    search (reopen_quiet-IsQuiet, read_bytes-IsQuiet, quiet) depth 6

nap-IsQuiet : (n : ℕ) → IsQuiet (emit (nap n))
nap-IsQuiet n = IsQuiet-emit (nap n) refl

read_missing-IsQuiet : (os : Os) (conf : Conf) (s : Tail) → IsQuiet (read_missing os conf s)
unfolding read_missing
read_missing-IsQuiet os conf s = search (tail_reopen-IsQuiet, nap-IsQuiet, quiet) depth 8

read_open-IsQuiet :
    (os : Os) (conf : Conf) (s : Tail) (current : ℕ) → IsQuiet (read_open os conf s current)
unfolding read_open
read_open-IsQuiet os conf s current =
    search (read_or_reopen-IsQuiet, conffile_param_int-IsQuiet, nap-IsQuiet, quiet) depth 12

pub tail_read-IsQuiet : (os : Os) (conf : Conf) (s : Tail) → IsQuiet (tail_read os conf s)
unfolding tail_read
tail_read-IsQuiet os conf s =
    IsQuiet-option s.f _ _ (read_missing-IsQuiet os conf s) (read_open-IsQuiet os conf s)

log_groups-quiet :
    (rounds i : ℕ) (r : ℕ → Option (ℕ × ℕ)) → All (λ e. writes e ≡ false) (log_groups rounds i r)
unfolding log_groups
log_groups-quiet zero i r = tt
log_groups-quiet (suc rounds) i r = elim (Option-cases (r i)) [
  | inl absent ↦ rw (absent, log_groups) (log_groups-quiet rounds (i + 1) r)
  | inr (g, is) ↦ elim (Bool-cases (g.0 == 0)) [
    | inl first ↦ rw (is, log_groups, first) tt
    | inr more ↦ rw (is, log_groups, more) (refl, log_groups-quiet rounds (i + 1) r)
  ]
]

copy_group-IsQuiet :
    (buff : Bytes) (g : Option (ℕ × ℕ)) (at max : ℕ) (l : MatchLogin)
    → IsQuiet (copy_group buff g at max l)
unfolding copy_group poke
copy_group-IsQuiet buff g at max l = search quiet depth 10

groups-IsQuiet : (r : ℕ → Option (ℕ × ℕ)) → IsQuiet (done (log_groups match_max 0 r) tt)
unfolding IsQuiet
groups-IsQuiet r = log_groups-quiet match_max 0 r

copy_login-IsQuiet :
    (user host : ℕ) (buff : Bytes) (r : ℕ → Option (ℕ × ℕ)) (l : MatchLogin)
    → IsQuiet (copy_login user host buff r l)
unfolding copy_login copy_both
copy_login-IsQuiet user host buff r l = search (groups-IsQuiet, copy_group-IsQuiet, quiet) depth 12

match_result-IsQuiet :
    (user host : ℕ) (buff : Bytes) (r : Regexec) (l : MatchLogin)
    → IsQuiet (match_result user host buff r l)
unfolding match_result
match_result-IsQuiet user host buff (matched r) l = copy_login-IsQuiet user host buff r l
match_result-IsQuiet user host buff no_match l = search quiet depth 6
match_result-IsQuiet user host buff out_of_space l = search quiet depth 6
match_result-IsQuiet user host buff other_error l = search quiet depth 6

pub match_line-IsQuiet :
    (os : Os) (conf : Conf) (patbuf : Pattern) (buff : Bytes) (l : MatchLogin)
    → IsQuiet (match_line os conf patbuf buff l)
unfolding match_line
match_line-IsQuiet os conf patbuf buff l = search (match_result-IsQuiet, quiet) depth 10
