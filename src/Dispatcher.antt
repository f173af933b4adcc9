-- ===== src/Dispatcher.antt =====
-- internal/workers/dispatcher.go: the loop that takes jobs from the queue and runs each in a
-- goroutine of its own, over the in-memory queue. What a handler answers, and when, is chosen by
-- the environment, so the steps below are all the interleavings of the loop and its goroutines.
pub mod Found
pub mod Invariant
pub mod Steps
pub mod Reachable
pub mod Runs
pub mod Termination
pub mod Liveness
use gameserver_daemon.Common.{
  ℕ, ◌<◌, String, Bool, true, false, not, ◌&&◌, ◌≡◌, Option, none, some, List, [], ◌∷◌, ◌++◌,
  length, if◌then◌else◌,
}
use gameserver_daemon.Common.Dict.{Dict, lookup, insert}
use gameserver_daemon.Errors.{GoError, permanent, is_error, ok, err}
use gameserver_daemon.Jobs.{Job, JobType, can_retry}
use gameserver_daemon.Queue.Memory.{
  MemoryQueue, new_memory_queue, enqueue, dequeue, acknowledge, mark_failed, retry,
}
use gameserver_daemon.Queue.Memory.Invariant.{live}

-- `Register`
unfoldable pub register {ℓ} : {H : Type ℓ} → JobType → H → Dict H → Dict H
register type handler handlers = insert type handler handlers

-- `held` is the job that the loop has dequeued while it waits for a slot of the semaphore, `active`
-- are the jobs of the goroutines. `stopped` is set when the loop has seen the context's end.
pub record State : Type 0 where
  pub queue : MemoryQueue
  pub held : Option Job
  pub active : List Job
  pub stopped : Bool

abbrev pub initial : State
initial = record { queue = new_memory_queue; held = none; active = []; stopped = false }

-- The end of a goroutine: what it tells the queue about its job.
unfoldable pub conclude : Option GoError → Job → MemoryQueue → MemoryQueue
conclude none j q = (acknowledge j.job_id q).1
conclude (some e) j q =
    if not (is_error permanent e) && can_retry j
    then (retry j.job_id q).1
    else (mark_failed j.job_id q).1

-- One step of the daemon, with `concurrency` slots and the registered handlers.
pub data Step {H : Type 0} (handlers : Dict H) (concurrency : ℕ) : State → State → Type 0 where
  -- Somebody enqueues a job under an id that the queue does not hold.
  arrive :
      (s : State) (j : Job)
      → live j.job_id s.queue ≡ 0
      → j.attempts ≡ 0
      → Step handlers concurrency s (record s { queue = (enqueue j s.queue).1 })
  -- The poll finds nothing, and the loop sleeps.
  poll_empty :
      (s : State) (e : GoError) (q : MemoryQueue)
      → s.stopped ≡ false
      → s.held ≡ none
      → dequeue s.queue ≡ (err e, q)
      → Step handlers concurrency s (record s { queue = q })
  -- The job has no handler.
  poll_unknown :
      (s : State) (j : Job) (q : MemoryQueue)
      → s.stopped ≡ false
      → s.held ≡ none
      → dequeue s.queue ≡ (ok j, q)
      → lookup j.job_type handlers ≡ none
      → Step handlers concurrency s (record s { queue = (mark_failed j.job_id q).1 })
  poll_known :
      (s : State) (j : Job) (q : MemoryQueue) (h : H)
      → s.stopped ≡ false
      → s.held ≡ none
      → dequeue s.queue ≡ (ok j, q)
      → lookup j.job_type handlers ≡ some h
      → Step handlers concurrency s (record s { queue = q; held = some j })
  -- `sem <- struct{}{}` goes through.
  launch :
      (s : State) (j : Job)
      → s.held ≡ some j
      → length s.active < concurrency
      → Step handlers concurrency s (record s { held = none; active = j ∷ s.active })
  -- A goroutine ends, with its handler's answer.
  finish :
      (s : State) (before : List Job) (j : Job) (after : List Job) (answer : Option GoError)
      → s.active ≡ before ++ (j ∷ after)
      → Step handlers concurrency s
          (record s { queue = conclude answer j s.queue; active = before ++ after })
  -- The loop sees `ctx.Done()`, which it looks at only between jobs.
  stop : (s : State) → s.held ≡ none → Step handlers concurrency s (record s { stopped = true })

pub data Reach {H : Type 0} (handlers : Dict H) (concurrency : ℕ) : State → Type 0 where
  start : Reach handlers concurrency initial
  next :
      {s t : State}
      → Reach handlers concurrency s
      → Step handlers concurrency s t
      → Reach handlers concurrency t
