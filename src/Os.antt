-- ===== src/Os.antt =====
-- What the operating system and the C library answer during one call into the program. A step of
-- the program is given such a record; the next step may be given another.
use exact.Base.{ℕ, Bool, Option, Bytes}
use exact.Base.Int.{ℤ}

-- The result of `regexec`: the groups, each with its start and end if it took part in the match.
pub data Regexec : Type 0 where
  matched : (ℕ → Option (ℕ × ℕ)) → Regexec
  no_match out_of_space other_error : Regexec

-- The result of `fork`.
pub data Fork : Type 0 where
  fork_failed child parent : Fork

pub record Os : Type 0 where
  -- the k-th `time(NULL)` of the call
  pub time : ℕ → ℕ
  -- `fopen(path, "r")`: the bytes of the file
  pub readable : Bytes → Option Bytes
  -- whether `fopen(path, "w")` succeeds
  pub writable : Bytes → Bool
  -- whether `fopen(path, "a")` succeeds
  pub appendable : Bytes → Bool
  -- `fclose` of a file that was written: none if the disk took all bytes, and otherwise the number of
  -- those that it took
  pub fclose : Bytes → Option ℕ
  pub rename : Bytes → Bytes → Bool
  pub unlink : Bytes → Bool
  -- whether `malloc` or `realloc` of so many bytes succeeds
  pub realloc : ℕ → Bool
  -- whether the k-th checked `fseek` succeeds
  pub fseek : ℕ → Bool
  -- the bytes of the file behind the open log stream, after the pause
  pub stream : Bytes
  -- whether `regcomp` accepts a pattern
  pub regcomp : Bytes → Bool
  -- the text of `regerror`
  pub regerror : Bytes
  -- `regexec` by a pattern on a text
  pub regexec : Bytes → Bytes → Regexec
  pub getpid : ℕ
  -- whether `kill(pid, 0)` finds a process
  pub kill : ℤ → Bool
  -- the k-th `fork`
  pub fork : ℕ → Fork
  pub setsid : Bool
  pub chdir : Bool
  pub getgrnam : Bytes → Option ℕ
  pub getpwnam : Bytes → Option ℕ
  pub setgid : ℕ → Bool
  pub setuid : ℕ → Bool
  -- what stands at `count` of a fresh `apconf`, past the memory that `malloc(sizeof(a))` gave
  pub stale_count : ℕ
  -- how many bytes the block that `malloc(sizeof(a))` gave really has; 8 were asked for
  pub usable : ℕ
  -- the build's constant `CONFDIR`
  pub confdir : Bytes
