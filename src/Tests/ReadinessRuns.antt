-- ===== src/Tests/ReadinessRuns.antt =====
-- Waiting for a port that opens after twelve seconds, on a clock that stands still but for the pauses.
use gameserver_daemon.Common.{ℕ, ◌+◌, ◌*◌, ◌^◌, ◌≡◌, refl, none, some, arith, ltb, if◌then◌else◌}
use gameserver_daemon.Errors.{failure}
use gameserver_daemon.Workers.Readiness.{Network, rounds, wait_for_port}
use gameserver_daemon.Workers.Readiness.Ends.{KeepsTime, Ended, wait_for_port-Ended}

abbrev opening : Network ℕ
opening = record {
  dial = λ t. (if ltb t (12 * 10 ^ 9) then some (failure "connection refused") else none, t);
  pause = λ t. (none, t + 5 * 10 ^ 9);
  now = λ t. t;
}

opening-KeepsTime : KeepsTime opening
opening-KeepsTime = record { dials = λ t. omega arith; pauses = λ t e. omega arith }

opens : wait_for_port opening 8 (30 * 10 ^ 9) 0 ≡ (some none, 15 * 10 ^ 9)
unfolding wait_for_port rounds
opens = refl

wait_for_port-Ended_example : Ended opening (30 * 10 ^ 9) (wait_for_port opening 8 (30 * 10 ^ 9) 0)
wait_for_port-Ended_example =
    wait_for_port-Ended opening opening-KeepsTime 8 (30 * 10 ^ 9) 0 (omega arith)
