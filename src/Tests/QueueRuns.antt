-- ===== src/Tests/QueueRuns.antt =====
-- Runs of the queue, the dispatcher and the labels.
use gameserver_daemon.Common.{ℕ, ◌+◌, ◌≤◌, ◌≡◌, refl, [], ◌∷◌, arith, none, some, string_dec}
use gameserver_daemon.Common.Dict.{lookup, insert}
use gameserver_daemon.Errors.{failure}
use gameserver_daemon.Labels.{WorkloadLabels, no_labels, from_map, to_map}
use gameserver_daemon.Labels.RoundTrip.{from_map-to_map}
use gameserver_daemon.Queue.Memory.{
  MemoryQueue, new_memory_queue, enqueue, dequeue, acknowledge, retry, mark_failed, taken,
}
use gameserver_daemon.Queue.Memory.Counts.{count_jobs, count_entries, one_if}
use gameserver_daemon.Queue.Memory.Invariant.{IsValid, live, seen, enqueue-IsValid}
use gameserver_daemon.Queue.Memory.Laws.{operations_conserve}
use gameserver_daemon.Workers.Reports.Kinds.{ServerJob}
use gameserver_daemon.Daemon.{server, handlers}
use gameserver_daemon.Dispatcher.{
  State, initial, Reach, start, next, arrive, poll_known, launch, finish, conclude,
}
use gameserver_daemon.Dispatcher.Invariant.{IsSound}
use gameserver_daemon.Dispatcher.Reachable.{Reach-IsSound, Reach-Concluded, Concluded}
use gameserver_daemon.Dispatcher.Runs.{steps_left, moves, arrives, Run, rest, step}
use gameserver_daemon.Dispatcher.Termination.{Run-steps_left}
use gameserver_daemon.Dispatcher.Liveness.{Follows, IsDrained, drains}
use gameserver_daemon.Tests.Data.{first_job, second_job}

new-IsValid : IsValid new_memory_queue
unfolding count_jobs count_entries
new-IsValid = record { once = λ i. omega arith; keyed = tt }

abbrev one_waiting : MemoryQueue
one_waiting = (enqueue first_job new_memory_queue).1

one_waiting-IsValid : IsValid one_waiting
one_waiting-IsValid = enqueue-IsValid first_job new_memory_queue new-IsValid fresh
  where
    fresh : live "j1" new_memory_queue ≡ 0
    fresh = unfold count_jobs in unfold count_entries in refl

operations_conserve_example :
    (seen "j1" (enqueue second_job one_waiting).1 ≡ seen "j1" one_waiting + one_if "j2" "j1")
    × (seen "j1" (dequeue one_waiting).1 ≡ seen "j1" one_waiting)
    × (seen "j1" (acknowledge "j1" one_waiting).1 ≡ seen "j1" one_waiting)
    × (seen "j1" (retry "j1" one_waiting).1 ≡ seen "j1" one_waiting)
    × (seen "j1" (mark_failed "j1" one_waiting).1 ≡ seen "j1" one_waiting)
operations_conserve_example =
    operations_conserve "j1" one_waiting "j1" second_job one_waiting-IsValid

abbrev two_waiting : MemoryQueue
two_waiting = record { pending = first_job ∷ second_job ∷ []; processing = []; settled = [] }

abbrev waiting : State
waiting = record initial { queue = one_waiting }

abbrev after_poll : State
after_poll = record waiting {
  queue = record { pending = []; processing = ("j1", taken first_job) ∷ []; settled = [] };
  held = some (taken first_job);
}

abbrev running : State
running = record after_poll { held = none; active = taken first_job ∷ [] }

arrived : Reach handlers 4 waiting
unfolding count_jobs count_entries
arrived = next start (arrive initial first_job refl refl)

polled : Reach handlers 4 after_poll
unfolding enqueue dequeue handlers insert lookup string_dec
polled = next arrived (
    poll_known waiting (taken first_job) after_poll.queue (server ServerJob.start) refl refl refl
      refl)

launched : Reach handlers 4 running
launched = next polled (launch after_poll (taken first_job) refl (omega arith))

Reach-IsSound_example : IsSound 4 running
Reach-IsSound_example = Reach-IsSound handlers 4 launched

Reach-Concluded_example :
    Concluded
      (some (failure "busy"))
      (taken first_job)
      running.queue
      (conclude (some (failure "busy")) (taken first_job) running.queue)
Reach-Concluded_example =
    Reach-Concluded handlers 4 running [] (taken first_job) [] (some (failure "busy")) launched refl

abbrev some_labels : WorkloadLabels
some_labels = record no_labels { owner_id = "o"; server_id = "s1"; project_slug = "demo" }

from_map-to_map_example : from_map (to_map some_labels) ≡ some_labels
from_map-to_map_example = from_map-to_map some_labels

abbrev done : State
done = record running { queue = conclude none (taken first_job) running.queue; active = [] }

worked_off : Run handlers 4 3 waiting done
unfolding enqueue dequeue handlers insert lookup string_dec moves arrives
worked_off =
    step
      (poll_known waiting (taken first_job) after_poll.queue (server ServerJob.start) refl refl refl
        refl)
      refl
      (step (launch after_poll (taken first_job) refl (omega arith)) refl
        (step (finish running [] (taken first_job) [] none refl) refl (rest done)))

Run-steps_left_example : 3 + steps_left done ≤ steps_left waiting
Run-steps_left_example = Run-steps_left handlers 4 arrived worked_off

drains_example :
    (n : ℕ) × (t : State) × (run : Run handlers 4 n waiting t) × Follows
      (λ j. some (failure "busy"))
      run
    × IsDrained t
    × (n ≤ steps_left waiting)
drains_example = drains handlers 4 (λ j. some (failure "busy")) waiting arrived refl (omega arith)
