-- ===== src/Tests/Relayed.antt =====
-- The theorems on who may relay mail after a run, at a daemon with two hosts and one login.
use exact.Base.{some, [], ◌∷◌, ◌≡◌, refl, Bytes, codes, arith, All}
use exact.Libc.{atoi, str_eq, strcmp}
use exact.Outcome.{Ends}
use exact.Outcome.Triple.{Leaves}
use exact.Auth.Table.Sorted.{times}
use exact.Exact.{World}
use exact.Exact.Run.{turns}
use exact.Exact.Run.Machine.{Through, stop, next, GaveUpIn}
use exact.Exact.Run.Remember.{Since, Recent}
use exact.Exact.Run.Relayed.{HasLine, turns-HasLine}
use exact.Tests.{demo_printing, demo_auth}
use exact.Tests.Pass.{following}
use exact.Tests.Run.{
  settings, view, view-Shows, reading, events, read_from, cleaned, reads, through, files,
  temp-apart, dump-apart, rooms,
}

-- The host with the time 90.
logged_in : Since 90 (times demo_auth.auth (codes "1.3"))
unfolding str_eq strcmp
logged_in = (90, omega arith, refl)

recent : All (Recent settings (codes "1.3") 90) events
unfolding atoi
recent = ((λ k. omega arith), (tt, (refl, tt)))

turns-HasLine_example :
    Ends (GaveUpIn settings events) (λ _. Unit) (turns events following)
    × Leaves demo_printing
        (codes "/f")
        (λ (_ : World) c. (content : Bytes) × (c ≡ some content) × HasLine (codes "1.3") content)
        (turns events following)
        files
turns-HasLine_example =
    turns-HasLine demo_printing settings temp-apart dump-apart view following files view-Shows refl
      (codes "1.3") 90 events (cleaned (read_from view)) through logged_in recent rooms

-- The host with the time 20, at a cleaning at the time 100 and a pass with another host.
silent_through : Through settings (cleaned view) (reading ∷ []) (read_from (cleaned view))
silent_through =
    next (cleaned view) (read_from (cleaned view)) (read_from (cleaned view)) reading []
      (reads (cleaned view) refl) (stop (read_from (cleaned view)))
