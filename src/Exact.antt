-- ===== src/Exact.antt =====
-- exact.c: the state of the whole program, and one pass over the log.
pub mod Lines
pub mod Pass
pub mod Follow
pub mod Cmdline
pub mod Pid
pub mod Alone
pub mod Ending
pub mod Silence
pub mod Main
pub mod Quiet
pub mod Run
pub mod Begin
use exact.Base.{
  ℕ, zero, suc, ◌+◌, ◌-◌, Bool, true, false, not, ◌||◌, Option, none, some, List, [], ◌∷◌, ◌++◌,
  Bytes, ltb, ◌^◌, ◌==◌, if◌then◌else◌, take,
}
use exact.Os.{Os}
use exact.Outcome.{Outcome, ◌>>=◌, ◌>>◌, pure, fault, deref}
use exact.Conffile.Param.{Conf}
use exact.Auth.Table.{Auth}
use exact.Auth.Handlers.{auth_add}
use exact.Match.Login.{MatchLogin, username, hostname}
use exact.Match.{Pattern, match_line}
use exact.Tail.{Tail, tail_read}

-- The globals of all files but the command line's and the logger's.
pub record World : Type 0 where
  pub conf : Conf
  pub auth : Auth
  pub tail : Tail
  pub patbuf : Pattern
  pub login : MatchLogin

-- `l = match_line(…); if(l) auth_add(l->username, l->hostname);`
unfoldable pub add_login : Os → World → Option MatchLogin → Outcome World
add_login os w none = pure w
add_login os w (some l) = do
  a ← auth_add os w.conf (username l) (hostname l) w.auth
  pure (record w { auth = a; login = l })

unfoldable pub handle_line : Os → Bytes → World → Outcome World
unfolding add_login
handle_line os line w = do found ← match_line os w.conf w.patbuf line w.login; add_login os w found

-- The loop of `onepass` at the bytes that are left; `line` holds the bytes from `start` on. The
-- k-th line of the pass meets the k-th record of the system.
unfoldable pub scan_lines : (ℕ → Os) → ℕ → Bytes → Bytes → World → Outcome World
unfolding handle_line
scan_lines os k line [] w = pure w
scan_lines os k line (c ∷ cs) w =
    let ended = handle_line (os k) line w >>= scan_lines os (k + 1) [] cs in
    let going = scan_lines os k (line ++ c ∷ []) cs w in
    if c == b'\n' || c == 0 then ended else going

-- The loop on a buffer of `len` bytes. Its index is a signed int of 32 bits: behind the first 2 GiB
-- the index overflows, a fault.
unfoldable pub scan_buffer : (ℕ → Os) → ℕ → Bytes → World → Outcome World
unfolding scan_lines
scan_buffer os len bytes w =
    if ltb len (2 ^ 31)
    then scan_lines os 0 [] bytes w
    else (scan_lines os 0 [] (take (2 ^ 31) bytes) w >>= λ _. fault [])

unfoldable pub onepass : Os → (ℕ → Os) → World → Outcome World
unfolding scan_buffer
onepass os line_os w = do
  tail ← tail_read os w.conf w.tail
  let read : World = record w { tail = tail }
  buff ← (if tail.tail_bufflen == 0 then pure [] else deref tail.tail_buff)
  scan_buffer line_os tail.tail_bufflen (take tail.tail_bufflen buff) read
