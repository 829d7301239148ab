-- ===== src/Exact/Run.antt =====
-- exact.c: the endless loop of `main`, and the handlers of the signals that come between two passes.
pub mod Idle
pub mod Machine
pub mod Shows
pub mod Quiet
pub mod Published
pub mod Listed
pub mod Present
pub mod Remember
pub mod Forget
pub mod Relayed
pub mod Started
pub mod First
pub mod Ready
use exact.Base.{ℕ, List, [], ◌∷◌}
use exact.Os.{Os}
use exact.Outcome.{Outcome, ◌>>=◌, ◌>>◌, pure}
use exact.Auth.Handlers.{auth_dump, auth_clean}
use exact.Exact.{World, onepass}

-- A pass of the loop, signal 10, and the alarm, each with what the system answers meanwhile.
pub data Event : Type 0 where
  pass : Os → (ℕ → Os) → Event
  dump clean : Os → Event

unfoldable pub turn : Event → World → Outcome World
turn (pass os line_os) w = onepass os line_os w
turn (dump os) w = auth_dump os w.conf w.auth >> pure w
turn (clean os) w = do a ← auth_clean os w.conf w.auth; pure (record w { auth = a })

unfoldable pub turns : List Event → World → Outcome World
unfolding turn
turns [] w = pure w
turns (e ∷ es) w = turn e w >>= turns es
