-- ===== src/Workers/Readiness.antt =====
-- internal/workers/readiness.go: waiting for a port to accept connections. Nothing calls it.
pub mod Ends
use gameserver_daemon.Common.{ℕ, ◌+◌, ◌*◌, ◌^◌, Option, none, some, ltb, if◌then◌else◌, zero, suc}
use gameserver_daemon.Errors.{GoError}

-- `dial` connects and closes, `pause` waits for five seconds or answers the context's error, and `now`
-- is the clock, in nanoseconds.
pub record Network (W : Type 0) : Type 0 where
  pub dial : W → Option GoError × W
  pub pause : W → Option GoError × W
  pub now : W → ℕ

module _ {W : Type 0} (network : Network W) where
  abbrev pub after_pause :
      (W → Option (Option GoError) × W) → Option GoError × W → Option (Option GoError) × W
  after_pause next (some e, w) = (some (some e), w)
  after_pause next (none, w) = next w

  abbrev pub after_dial :
      (W → Option (Option GoError) × W) → ℕ → Option GoError × W → Option (Option GoError) × W
  after_dial next deadline (none, w) = (some none, w)
  after_dial next deadline (some e, w) =
      if ltb deadline (network.now w)
      then (some (some e), w)
      else after_pause next (network.pause w)

  -- The loop, for a number of rounds; `none` is that they have not been enough.
  unfoldable pub rounds : ℕ → ℕ → W → Option (Option GoError) × W
  rounds zero deadline w = (none, w)
  rounds (suc n) deadline w = after_dial (rounds n deadline) deadline (network.dial w)

  -- `waitForPort`
  unfoldable pub wait_for_port : ℕ → ℕ → W → Option (Option GoError) × W
  unfolding rounds
  wait_for_port fuel timeout w = rounds fuel (network.now w + timeout) w
