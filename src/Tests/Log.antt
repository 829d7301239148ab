-- ===== src/Tests/Log.antt =====
-- The theorems on the reads of the log and their pauses, and on the messages.
use exact.Base.{ℕ, false, some, [], ◌∷◌, ◌≡◌, refl, codes, arith}
use exact.Libc.{atoi}
use exact.Outcome.{Ends, Trace, log, log_debug, log_err, signal}
use exact.Logger.{Logger, log_file, written}
use exact.Logger.Written.{destination_of, selected, written-selected}
use exact.Tail.{Tail, tail_read, next_paws}
use exact.Tail.Paws.{IsPause, next_paws-IsPause}
use exact.Tail.Reading.{Follows, tail_read-shrunk}
use exact.Base.{ℕ, length}
use exact.Outcome.{done, nap, num}
use exact.Conffile.Param.{conffile_param, conffile_param_int}
use exact.Libc.{str_eq, strcmp}
use exact.Tail.{read_open, read_or_reopen, read_bytes, fill, new_bytes, linecount}
use exact.Tail.Session.{Reads, no_read, next_read, OpenAt, Reads-whole}
use exact.Tests.{demo_conf, demo_os, demo-suspicious}

-- The log is open at some position, and had a line ten seconds ago.
abbrev tail_at : ℕ → Tail
tail_at current = record {
  f = some current;
  paws = 1000;
  last = 95;
  tail_buff = some [];
  tail_bufflen = 0;
}

abbrev follows_at_0 : Follows demo_os demo_conf (tail_at 0) 0
unfolding atoi
follows_at_0 = record {
  is_open = refl;
  old = [];
  has_buffer = refl;
  suspicious = codes "10";
  has_suspicious = demo-suspicious;
  lively = refl;
  seeks = λ _. refl;
  memory = λ _. refl;
}

abbrev follows_at_20 : Follows demo_os demo_conf (tail_at 20) 20
unfolding atoi
follows_at_20 = record {
  is_open = refl;
  old = [];
  has_buffer = refl;
  suspicious = codes "10";
  has_suspicious = demo-suspicious;
  lively = refl;
  seeks = λ _. refl;
  memory = λ _. refl;
}

tail_read-shrunk_example : Ends (λ n. n ≡ 31) (λ _. ⊥) (tail_read demo_os demo_conf (tail_at 20))
tail_read-shrunk_example =
    tail_read-shrunk demo_os demo_conf (tail_at 20) 20 follows_at_20 (omega arith) (omega arith)

next_paws-IsPause_example : IsPause (next_paws 3 1000)
next_paws-IsPause_example = next_paws-IsPause 3 1000 (omega arith, omega arith)

abbrev file_logger : Logger
file_logger = record { use_syslog = false; lf = some (log_file (codes "/log")); debug = false }

abbrev demo_trace : Trace
demo_trace =
    log log_debug "forking\n" [] ∷ signal 14 "auth_clean" ∷ log log_err "terminated\n" [] ∷ []

written-selected_example :
    written file_logger demo_trace ≡ selected false (destination_of file_logger) demo_trace
written-selected_example = written-selected file_logger demo_trace

-- The state and the effects behind the read of a log with one new line.
abbrev tail_behind : Tail
tail_behind = record {
  f = some 11;
  paws = 1000;
  last = 100;
  tail_buff = some (codes "ok bob 1.2\n");
  tail_bufflen = 11;
}

abbrev read_trace : Trace
read_trace =
    nap 1000
    ∷ log log_debug "%ld bytes added to file\n" (num 11 ∷ [])
    ∷ log log_debug "read %d lines with a pause of %ld usecs\n" (num 1 ∷ num 1000 ∷ [])
    ∷ []

tail_read-line : tail_read demo_os demo_conf (tail_at 0) ≡ done read_trace tail_behind
unfolding tail_read read_open read_or_reopen read_bytes fill new_bytes linecount next_paws
    conffile_param_int conffile_param str_eq strcmp atoi
tail_read-line = refl

one_read : Reads demo_conf (tail_at 0) [] demo_os.stream demo_os.stream tail_behind
unfolding atoi
one_read =
    next_read demo_os [] [] demo_os.stream (tail_at 0) tail_behind read_trace no_read refl
      (omega arith)
      (record {
        suspicious = codes "10";
        has_suspicious = demo-suspicious;
        lively = refl;
        seeks = λ _. refl;
        memory = λ _. refl;
      })
      tail_read-line

Reads-whole_example : (demo_os.stream ≡ demo_os.stream) × OpenAt (length demo_os.stream) tail_behind
Reads-whole_example =
    Reads-whole demo_conf (tail_at 0) [] demo_os.stream demo_os.stream tail_behind
      (refl, ([], refl)) one_read
