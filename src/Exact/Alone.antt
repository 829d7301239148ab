-- ===== src/Exact/Alone.antt =====
-- exact.c: one daemon for a pid file, and what its end leaves.
use exact.Base.{true, false, some, ◌≡◌, Bytes}
use exact.Libc.{atoi}
use exact.Os.{Os}
use exact.Conffile.Check.{is_zero}

-- The pid file names a process that runs.
abbrev pub Running : Os → Bytes → Type 0
Running os pidfile =
    (text : Bytes) × ((os.readable pidfile ≡ some text)
      × ((is_zero (atoi text) ≡ false) × (os.kill (atoi text) ≡ true)))
