-- ===== src/Tail.antt =====
-- tail.c: the watched log, read from where the last read stopped.
pub mod Paws
pub mod Reading
pub mod Session
pub mod Growth
pub mod Rotation
use exact.Base.{
  ℕ, zero, suc, ◌+◌, ◌-◌, ◌*◌, ◌/◌, ◌%◌, ◌^◌, Bool, true, false, not, ◌&&◌, Option, none, some,
  List, [], ◌∷◌, ◌++◌, Bytes, codes, ltb, leb, ◌==◌, if◌then◌else◌, length, take, drop,
}
use exact.Base.Int.{ℤ, pos, sub_ℕ, ltb_ℤ}
use exact.Os.{Os}
use exact.Outcome.{
  Outcome, done, exit, fault, Effect, nap, log, log_debug, log_err, log_notice, Arg, ◌>>=◌, ◌>>◌,
  pure, emit, logger, die, deref,
}
use exact.Conffile.Param.{Conf, conffile_param, conffile_param_int}

-- `PAWS_MAX`, in microseconds.
abbrev pub paws_max : ℕ
paws_max = 1000000

-- The globals. `f` is the position in the open log, and `none` for the null stream. `tail_buff` is
-- the buffer's bytes in front of the terminator, and `none` for the null pointer.
pub record Tail : Type 0 where
  pub f : Option ℕ
  pub paws : ℕ
  pub last : ℕ
  pub tail_buff : Option Bytes
  pub tail_bufflen : ℕ

-- The globals' initial values.
abbrev pub initial : Tail
initial = record { f = none; paws = 0; last = 0; tail_buff = none; tail_bufflen = 0 }

-- `fopen(conffile_param("maillog"), "r")`
abbrev pub open_log : Os → Conf → Outcome (Option Bytes)
open_log os conf = deref (conffile_param conf (codes "maillog")) >>= λ path. pure (os.readable path)

-- The stream stands at the end of the file, so that only later lines are read.
unfoldable pub tail_open : Os → Conf → Tail → Outcome (Tail × Bool)
tail_open os conf s = do
  file ← open_log os conf
  let t : Tail = record s { last = os.time 0; paws = paws_max }
  elim file [
    | none ↦ pure (record t { f = none }, false)
    | some bytes ↦ pure (
      record t { f = some (length bytes); tail_buff = if os.realloc 1024 then some [] else none },
      true,
    )
  ]

-- The loop of `linecount`.
unfoldable pub count_newlines : Bytes → ℕ
count_newlines [] = 0
count_newlines (c ∷ cs) = if c == b'\n' then count_newlines cs + 1 else count_newlines cs

-- The newlines among the first `len` bytes. The parameter is a signed int of 32 bits: a length of
-- 2 GiB or more comes in as a negative number, and the loop has no round.
unfoldable pub linecount : Bytes → ℕ → ℕ
unfolding count_newlines
linecount bytes len = if ltb len (2 ^ 31) then count_newlines (take len bytes) else 0

-- Behind a successful `fopen`: the seek to the place where reading goes on. `k` is the number of
-- the `fseek` call.
unfoldable pub seek_reopened : Os → ℕ → ℕ → Bytes → Outcome (Option ℕ)
seek_reopened os k current bytes =
    if ltb (length bytes) current
    then (do
      logger log_debug "the file has been rotated.\n" []
      if os.fseek k
          then pure (some 0)
          else die log_err "Unable to seek to beginning of logfile\n" [] 71)
    else (do
      logger log_debug "the file hasn't been rotated\n" []
      if os.fseek k
          then pure (some current)
          else die log_err "Unable to seek to end of logfile\n" [] 71)

-- `tail_reopen`: the new stream.
unfoldable pub tail_reopen : Os → Conf → ℕ → ℕ → Outcome (Option ℕ)
unfolding seek_reopened
tail_reopen os conf k current = do
  logger log_debug "suspicious about file, reopening\n" []
  path ← deref (conffile_param conf (codes "maillog"))
  elim (os.readable path) [
    | none ↦ logger log_notice "log file '%s' has disappeared.\n" (Arg.str path ∷ []) >> pure none
    | some bytes ↦ seek_reopened os k current bytes
  ]

-- The next pause: one line for each, or twice as long when there was none.
unfoldable pub next_paws : ℕ → ℕ → ℕ
next_paws lines paws =
    if ltb 0 lines
    then (if paws / lines == 0 then 1 else paws / lines)
    else if ltb paws_max (paws * 2)
    then paws_max
    else paws * 2

-- `tail_bufflen = end - current`, kept in an unsigned int of 32 bits.
unfoldable pub new_bytes : ℕ → ℕ → ℕ
new_bytes end current =
    if leb current end
    then (end - current) % 2 ^ 32
    else (2 ^ 32 - (current - end) % 2 ^ 32) % 2 ^ 32

-- `fread` of `len` bytes at `current`, the terminator, and the new pause. A read of more bytes
-- than the buffer has memory for is a fault.
unfoldable pub fill : Os → Tail → ℕ → ℕ → Outcome Tail
unfolding linecount next_paws
fill os s current len =
    let bytes = take len (drop current os.stream) in
    let lines = linecount bytes len in
    if ltb 0 len && ltb ((len + 1) % 2 ^ 32) (length bytes)
    then fault []
    else if not (length bytes == len)
    then die log_err "read %d bytes, wanted %d bytes\n" (Arg.num (length bytes) ∷ Arg.num len ∷ [])
        31
    else (do
      logger log_debug "read %d lines with a pause of %ld usecs\n"
          (Arg.num lines ∷ Arg.num s.paws ∷ [])
      pure (record s {
        f = some (current + len);
        tail_buff = some bytes;
        tail_bufflen = len;
        paws = next_paws lines s.paws;
      }))

-- The buffer for `len` bytes; `none` is the null pointer.
abbrev pub buffer : Os → Tail → ℕ → Option Bytes
buffer os s len =
    if ltb 0 len then (if os.realloc ((len + 1) % 2 ^ 32) then some [] else none) else s.tail_buff

unfoldable pub read_bytes : Os → Tail → ℕ → ℕ → Outcome Tail
unfolding fill
read_bytes os s current len = do
  logger log_debug "%ld bytes added to file\n" (Arg.num len ∷ [])
  elim (buffer os s len) [
    | none ↦ die log_err "unable to realloc %d bytes\n" (Arg.num len ∷ []) 30
    | some _ ↦ fill os s current len
  ]

-- The log has been quiet for longer than `suspicious` seconds: it is opened again.
unfoldable pub reopen_quiet : Os → Conf → Tail → ℕ → Outcome Tail
unfolding tail_reopen
reopen_quiet os conf s current = do
  f' ← tail_reopen os conf 2 current
  pure (record s { f = f'; last = os.time 2; tail_bufflen = 0 })

-- The choice behind the measurement of the file. `time(NULL)` is read by calls 0, 1 and 2.
unfoldable pub read_or_reopen : Os → Conf → Tail → ℕ → ℕ → ℤ → Outcome Tail
unfolding read_bytes reopen_quiet new_bytes
read_or_reopen os conf s current end suspicious =
    let t : Tail = if ltb current end then record s { last = os.time 0 } else s in
    if ltb_ℤ suspicious (sub_ℕ (os.time 1) t.last)
    then reopen_quiet os conf t current
    else read_bytes os t current (new_bytes end current)

-- The null stream: the file is looked for again, from its start.
unfoldable pub read_missing : Os → Conf → Tail → Outcome Tail
unfolding tail_reopen
read_missing os conf s = do
  f' ← tail_reopen os conf 0 0
  emit (nap s.paws)
  pure (record s { f = f'; last = os.time 0; tail_bufflen = 0 })

-- The open stream at `current`.
unfoldable pub read_open : Os → Conf → Tail → ℕ → Outcome Tail
unfolding read_or_reopen
read_open os conf s current = do
  emit (nap s.paws)
  if os.fseek 0 then pure tt else die log_err "Unable to seek to end of logfile\n" [] 71
  if os.fseek 1 then pure tt else die log_err "Unable to seek to current position\n" [] 72
  suspicious ← conffile_param_int conf (codes "suspicious")
  read_or_reopen os conf s current (length os.stream) suspicious

unfoldable pub tail_read : Os → Conf → Tail → Outcome Tail
unfolding read_missing read_open
tail_read os conf s = elim s.f [
  | none ↦ read_missing os conf s
  | some current ↦ read_open os conf s current
]
