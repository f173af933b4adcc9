-- ===== src/Dispatcher/Reachable.antt =====
-- internal/workers/dispatcher.go: what holds in every state that the daemon reaches.
use gameserver_daemon.Common.{
  ℕ, not, ◌&&◌, ltb, Bool, false, ◌≡◌, refl, sym, subst, subst₂, Option, none, some, List, [], ◌∷◌,
  ◌++◌, arith, if◌then◌else◌,
}
use gameserver_daemon.Common.Dict.{Dict, lookup, erase}
use gameserver_daemon.Errors.{permanent, is_error, GoError}
use gameserver_daemon.Jobs.{Job, JobStatus, can_retry}
use gameserver_daemon.Queue.Memory.{MemoryQueue, acknowledge, mark_failed, retry, with_status}
use gameserver_daemon.Queue.Memory.Counts.{count_jobs, count_entries}
use gameserver_daemon.Queue.Memory.Invariant.{dequeue_ok, dequeue_err}
use gameserver_daemon.Dispatcher.{
  State, conclude, Step, Reach, initial, arrive, poll_empty, poll_unknown, poll_known, launch,
  finish, stop, start, next,
}
use gameserver_daemon.Dispatcher.Found.{find_job}
use gameserver_daemon.Dispatcher.Invariant.{IsSound}
use gameserver_daemon.Dispatcher.Steps.{
  arrive-IsSound, hold-IsSound, reject-IsSound, launch-IsSound, finish-IsSound, j_found,
}

module _ {H : Type 0} (handlers : Dict H) (concurrency : ℕ) where
  Step-IsSound :
      {s t : State} → Step handlers concurrency s t → IsSound concurrency s → IsSound concurrency t
  Step-IsSound (arrive s j fresh new) h = arrive-IsSound concurrency s j fresh new h
  Step-IsSound (poll_empty s er q going free got) h =
      subst (λ q'. IsSound concurrency (record s { queue = q' })) (sym (dequeue_err s.queue got)) h
  Step-IsSound (poll_unknown s j q going free got unknown) h =
      let (j0, rest, e, ej, eq) = dequeue_ok s.queue got in
      subst₂ (λ q' j'. IsSound concurrency (record s { queue = (mark_failed j'.job_id q').1 }))
        (sym eq) (sym ej) (reject-IsSound concurrency s j0 rest e h)
  Step-IsSound (poll_known s j q handler going free got known) h =
      let (j0, rest, e, ej, eq) = dequeue_ok s.queue got in
      subst₂ (λ q' j'. IsSound concurrency (record s { queue = q'; held = some j' })) (sym eq)
        (sym ej) (hold-IsSound concurrency s j0 rest e h free)
  Step-IsSound (launch s j mine room) h = launch-IsSound concurrency s j mine room h
  Step-IsSound (finish s before j after answer e) h =
      finish-IsSound concurrency s before j after e h answer
  Step-IsSound (stop s free) h = record {
    valid = h.valid;
    bounded = h.bounded;
    linked = h.linked;
    counted = h.counted;
    waiting = h.waiting;
    working = h.working;
  }

  initial-IsSound : IsSound concurrency initial
  unfolding lookup find_job count_jobs count_entries
  initial-IsSound = record {
    valid = record { once = λ i. omega arith; keyed = tt };
    bounded = omega arith;
    linked = λ i. refl;
    counted = λ i. refl;
    waiting = tt;
    working = tt;
  }

  -- In every state that the daemon reaches, by any interleaving of the loop with its goroutines and
  -- whatever the handlers answer: the queue is well formed, at most `concurrency` goroutines run,
  -- exactly the jobs that the dispatcher holds are registered as being processed, a waiting job is
  -- new or has attempts left, and a job in work has used at least one attempt and at most
  -- `max 1 max_attempts`.
  pub Reach-IsSound : {s : State} → Reach handlers concurrency s → IsSound concurrency s
  Reach-IsSound start = initial-IsSound
  Reach-IsSound (next r st) = Step-IsSound st (Reach-IsSound r)

-- Whether the job is tried again, and the status that it is left with if not.
abbrev pub may_retry : Option GoError → Job → Bool
may_retry none j = false
may_retry (some e) j = not (is_error permanent e) && ltb j.attempts j.max_attempts

abbrev pub last_status : Option GoError → JobStatus
last_status none = JobStatus.completed
last_status (some e) = JobStatus.failed

abbrev pub Concluded : Option GoError → Job → MemoryQueue → MemoryQueue → Type 0
Concluded answer j q q' =
    (q'.processing ≡ erase j.job_id q.processing)
    × (if may_retry answer j
        then (q'.pending ≡ q.pending ++ with_status j JobStatus.pending ∷ [])
          × (q'.settled ≡ q.settled)
        else (q'.pending ≡ q.pending)
          × (q'.settled ≡ with_status j (last_status answer) ∷ q.settled))

conclude_found :
    (answer : Option GoError) (j : Job) (q : MemoryQueue)
    → lookup j.job_id q.processing ≡ some j
    → Concluded answer j q (conclude answer j q)
unfolding conclude acknowledge mark_failed retry can_retry
conclude_found none j q found = ground arith
conclude_found (some e) j q found = ground arith

-- What the end of a goroutine does to its job, in a state that the daemon reaches: the queue knows
-- the job and takes it off the jobs in work. Without an error it settles as completed. With an
-- error that is not permanent and with attempts left it goes to the end of the waiting jobs. With
-- any other error it settles as failed.
pub Reach-Concluded :
    {H : Type 0} (handlers : Dict H) (concurrency : ℕ) (s : State) (before : List Job) (j : Job)
    (after : List Job) (answer : Option GoError)
    → Reach handlers concurrency s
    → s.active ≡ before ++ (j ∷ after)
    → Concluded answer j s.queue (conclude answer j s.queue)
Reach-Concluded handlers concurrency s before j after answer r e =
    conclude_found answer j s.queue
      (j_found concurrency s before j after e (Reach-IsSound handlers concurrency r))
