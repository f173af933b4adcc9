-- ===== src/Dispatcher/Termination.antt =====
-- internal/workers/dispatcher.go: the loop works off what has arrived.
use gameserver_daemon.Common.{
  ℕ, ◌+◌, ◌*◌, ◌≤◌, String, Option, ◌≡◌, ap, subst, ◌∙◌, false, none, some, [], ◌∷◌, All, arith,
}
use gameserver_daemon.Common.Dict.{Dict, lookup}
use gameserver_daemon.Errors.{GoError}
use gameserver_daemon.Jobs.{Job, JobStatus}
use gameserver_daemon.Queue.Memory.{
  MemoryQueue, acknowledge, mark_failed, retry, with_status, taken,
}
use gameserver_daemon.Queue.Memory.Invariant.{dequeue_ok, dequeue_err}
use gameserver_daemon.Dispatcher.{
  State, conclude, Step, Reach, next, arrive, poll_empty, poll_unknown, poll_known, launch, finish,
  stop,
}
use gameserver_daemon.Dispatcher.Invariant.{IsSound, MayRun}
use gameserver_daemon.Dispatcher.Steps.{j_found}
use gameserver_daemon.Dispatcher.Reachable.{Reach-IsSound}
use gameserver_daemon.Dispatcher.Runs.{
  left, waiting_steps, held_steps, active_steps, steps_left, waiting_steps-append,
  active_steps-remove, moves, arrives, Run, rest, step,
}

-- A failed job needs fewer steps for its other attempts than the goroutine had for this one.
conclude-waiting_steps :
    (answer : Option GoError) (j : Job) (q : MemoryQueue)
    → lookup j.job_id q.processing ≡ some j
    → waiting_steps (conclude answer j q).pending ≤ waiting_steps q.pending + 3 * left j
unfolding conclude acknowledge mark_failed retry waiting_steps
conclude-waiting_steps none j q found = ground arith
conclude-waiting_steps (some e) j q found =
    ground (arith, waiting_steps-append q.pending (with_status j JobStatus.pending ∷ []))

mark_failed-pending : (i : String) (q : MemoryQueue) → (mark_failed i q).1.pending ≡ q.pending
unfolding mark_failed
mark_failed-pending i q = ground arith

first_steps : (j : Job) → MayRun j → 3 * left (taken j) + 3 ≤ 3 * left j
first_steps j h = ground arith

module _ {H : Type 0} (handlers : Dict H) (concurrency : ℕ) where
  pub step-steps_left :
      {s t : State} (st : Step handlers concurrency s t)
      → IsSound concurrency s
      → arrives st ≡ false
      → moves st + steps_left t ≤ steps_left s
  unfolding moves arrives waiting_steps active_steps
  step-steps_left (arrive s j fresh new) h quiet = absurd (ground arith)
  step-steps_left (poll_empty s er q going free got) h quiet =
      omega (arith, ap (λ q'. waiting_steps q'.pending) (dequeue_err s.queue got))
  step-steps_left (poll_unknown s j q going free got unknown) h quiet =
      let (j0, later, e, ej, eq) = dequeue_ok s.queue got in
      omega (
        arith,
        ap waiting_steps (mark_failed-pending j.job_id q ∙ ap (λ q'. q'.pending) eq),
        ap waiting_steps e,
        first_steps j0 (subst (All MayRun) e h.waiting).0,
      )
  step-steps_left (poll_known s j q handler going free got known) h quiet =
      let (j0, later, e, ej, eq) = dequeue_ok s.queue got in
      omega (
        arith,
        ap waiting_steps (ap (λ q'. q'.pending) eq),
        ap waiting_steps e,
        ap held_steps free,
        ap (λ j'. left j') ej,
        first_steps j0 (subst (All MayRun) e h.waiting).0,
      )
  step-steps_left (launch s j mine room) h quiet = ground (arith, ap held_steps mine)
  step-steps_left (finish s before j after answer e) h quiet = omega (
    arith,
    conclude-waiting_steps answer j s.queue (j_found concurrency s before j after e h),
    ap active_steps e,
    active_steps-remove before j after,
  )
  step-steps_left (stop s free) h quiet = omega arith

  -- Between two arrivals the daemon moves jobs on at most `steps_left` times, from any state that it
  -- reaches and whatever the handlers answer: a waiting job needs three steps for each attempt that it
  -- has left, and what a run has done and what it leaves together stay within what there was.
  pub Run-steps_left :
      {n : ℕ} {s t : State}
      → Reach handlers concurrency s
      → Run handlers concurrency n s t
      → n + steps_left t ≤ steps_left s
  Run-steps_left r (rest s) = omega arith
  Run-steps_left r (step st quiet later) = omega (
    arith,
    step-steps_left st (Reach-IsSound handlers concurrency r) quiet,
    Run-steps_left (next r st) later,
  )
