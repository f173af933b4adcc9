-- ===== src/Dispatcher/Invariant.antt =====
-- internal/workers/dispatcher.go: what holds in every state that the daemon reaches.
use Prim.Native.Nat.{max}
use gameserver_daemon.Common.{
  ℕ, ◌≤◌, ◌<◌, String, ◌≡◌, ◌⊎◌, Option, none, some, List, [], ◌∷◌, ◌++◌, length, All, All-append,
  arith,
}
use gameserver_daemon.Common.Dict.{lookup, erase}
use gameserver_daemon.Errors.{GoError}
use gameserver_daemon.Jobs.{Job, JobStatus, can_retry}
use gameserver_daemon.Queue.Memory.{
  MemoryQueue, acknowledge, mark_failed, retry, taken, with_status,
}
use gameserver_daemon.Queue.Memory.Counts.{count_jobs, count_entries}
use gameserver_daemon.Queue.Memory.Invariant.{
  IsValid, acknowledge-IsValid, retry-IsValid, mark_failed-IsValid,
}
use gameserver_daemon.Dispatcher.{State, conclude}
use gameserver_daemon.Dispatcher.Found.{find_job}

-- The jobs in the hands of the dispatcher.
abbrev pub holding : Option Job → List Job → List Job
holding none js = js
holding (some j) js = j ∷ js

-- A waiting job may still be tried: it is new, or it has attempts left.
abbrev pub MayRun : Job → Type 0
MayRun j = (j.attempts ≡ 0) ⊎ (j.attempts < j.max_attempts)

-- A job in work has used one of its attempts, and no more than it has.
abbrev pub Counted : Job → Type 0
Counted j = (1 ≤ j.attempts) × (j.attempts ≤ max 1 j.max_attempts)

pub record IsSound (concurrency : ℕ) (s : State) : Type 0 where
  pub valid : IsValid s.queue
  pub bounded : length s.active ≤ concurrency
  pub linked : (i : String) → lookup i s.queue.processing ≡ find_job i (holding s.held s.active)
  pub counted :
      (i : String) → count_jobs i (holding s.held s.active) ≡ count_entries i s.queue.processing
  pub waiting : All MayRun s.queue.pending
  pub working : All Counted (holding s.held s.active)

pub taken-Counted : (j : Job) → MayRun j → Counted (taken j)
taken-Counted j h = ground arith

pub conclude-IsValid :
    (answer : Option GoError) (j : Job) (q : MemoryQueue)
    → IsValid q
    → IsValid (conclude answer j q)
unfolding conclude
conclude-IsValid none j q v = acknowledge-IsValid j.job_id q v
conclude-IsValid (some e) j q v =
    ground (arith, retry-IsValid j.job_id q v, mark_failed-IsValid j.job_id q v)

-- A goroutine's job leaves the map of jobs in work, whatever the handler has answered.
pub conclude-processing :
    (answer : Option GoError) (j : Job) (q : MemoryQueue)
    → lookup j.job_id q.processing ≡ some j
    → (conclude answer j q).processing ≡ erase j.job_id q.processing
unfolding conclude acknowledge mark_failed retry
conclude-processing none j q found = ground arith
conclude-processing (some e) j q found = ground arith

pub snoc-MayRun : (js : List Job) (j : Job) → All MayRun js → MayRun j → All MayRun (js ++ j ∷ [])
snoc-MayRun js j h k = All-append MayRun js (j ∷ []) h (k, tt)

pub conclude-MayRun :
    (answer : Option GoError) (j : Job) (q : MemoryQueue)
    → lookup j.job_id q.processing ≡ some j
    → All MayRun q.pending
    → All MayRun (conclude answer j q).pending
unfolding conclude acknowledge mark_failed retry can_retry
conclude-MayRun none j q found h = ground arith
conclude-MayRun (some e) j q found h =
    ground (arith, snoc-MayRun q.pending (with_status j JobStatus.pending) h)
