-- ===== src/Dispatcher/Steps.antt =====
-- internal/workers/dispatcher.go: every step keeps the invariant.
use mathlib.Core.List.{append_assoc}
use gameserver_daemon.Common.{
  ℕ, ◌≤◌, ◌<◌, String, ◌≡◌, refl, sym, ap, subst, ◌∙◌, inl, Option, none, some, List, [], ◌∷◌, ◌++◌,
  length, length-append, All, All-remove, arith,
}
use gameserver_daemon.Common.Dict.{lookup, insert, erase, lookup-insert, lookup-erase}
use gameserver_daemon.Errors.{GoError, Result}
use gameserver_daemon.Jobs.{Job, JobStatus}
use gameserver_daemon.Queue.Memory.{MemoryQueue, enqueue, mark_failed, taken, with_status}
use gameserver_daemon.Queue.Memory.Counts.{
  count_jobs, count_entries, count_jobs-cons, count_entries-insert_new, count_entries-erase,
  absent_of_count,
}
use gameserver_daemon.Queue.Memory.Invariant.{
  IsValid, live, enqueue-IsValid, dequeue-IsValid, first_is_not_running, mark_failed-IsValid,
  dequeue-eq,
}
use gameserver_daemon.Dispatcher.{State, conclude}
use gameserver_daemon.Dispatcher.Found.{
  find_job, find_job-cons, find_job-remove, find_job-middle, count_jobs-remove,
}
use gameserver_daemon.Dispatcher.Invariant.{
  holding, MayRun, Counted, IsSound, taken-Counted, conclude-IsValid, conclude-processing,
  snoc-MayRun, conclude-MayRun,
}

module _ (concurrency : ℕ) where
  pub arrive-IsSound :
      (s : State) (j : Job)
      → live j.job_id s.queue ≡ 0
      → j.attempts ≡ 0
      → IsSound concurrency s
      → IsSound concurrency (record s { queue = (enqueue j s.queue).1 })
  arrive-IsSound s j fresh new h = record {
    valid = enqueue-IsValid j s.queue h.valid fresh;
    bounded = h.bounded;
    linked = unfold enqueue in h.linked;
    counted = unfold enqueue in h.counted;
    waiting =
        unfold enqueue in
        snoc-MayRun s.queue.pending (with_status j JobStatus.pending) h.waiting (inl new);
    working = h.working;
  }

  module _ (s : State) (j0 : Job) (rest : List Job) (e : s.queue.pending ≡ j0 ∷ rest)
      (h : IsSound concurrency s) where
    fresh : count_entries j0.job_id s.queue.processing ≡ 0
    fresh = first_is_not_running s.queue j0 rest e h.valid

    waiting_first : All MayRun (j0 ∷ rest)
    waiting_first = subst (All MayRun) e h.waiting

    -- The queue after the first job has been taken.
    abbrev pub taken_queue : MemoryQueue
    taken_queue = record s.queue {
      pending = rest;
      processing = insert j0.job_id (taken j0) s.queue.processing;
    }

    taken_queue-IsValid : IsValid taken_queue
    taken_queue-IsValid =
        subst (λ (r : Result Job × MemoryQueue). IsValid r.1) (dequeue-eq s.queue j0 rest e)
          (dequeue-IsValid s.queue h.valid)

    -- A dequeued job becomes the loop's own.
    pub hold-IsSound :
        s.held ≡ none
        → IsSound concurrency (record s { queue = taken_queue; held = some (taken j0) })
    hold-IsSound free = record {
      valid = taken_queue-IsValid;
      bounded = h.bounded;
      linked = λ i. ground (
        arith,
        lookup-insert i j0.job_id (taken j0) s.queue.processing,
        h.linked i,
        ap (λ o. find_job i (holding o s.active)) free,
        find_job-cons i (taken j0) s.active,
      );
      counted = λ i. ground (
        arith,
        count_entries-insert_new i j0.job_id (taken j0) s.queue.processing fresh,
        h.counted i,
        ap (λ o. count_jobs i (holding o s.active)) free,
        count_jobs-cons i (taken j0) s.active,
      );
      waiting = waiting_first.1;
      working = (
        taken-Counted j0 waiting_first.0,
        subst (λ o. All Counted (holding o s.active)) free h.working,
      );
    }

    fail_first :
        ((mark_failed j0.job_id taken_queue).1.processing ≡ erase j0.job_id taken_queue.processing)
        × ((mark_failed j0.job_id taken_queue).1.pending ≡ rest)
    unfolding mark_failed
    fail_first = ground (arith, lookup-insert j0.job_id j0.job_id (taken j0) s.queue.processing)

    -- A dequeued job without a handler is marked as failed at once.
    pub reject-IsSound :
        IsSound concurrency (record s { queue = (mark_failed j0.job_id taken_queue).1 })
    reject-IsSound = record {
      valid = mark_failed-IsValid j0.job_id taken_queue taken_queue-IsValid;
      bounded = h.bounded;
      linked = λ i. ground (
        arith,
        ap (lookup i) fail_first.0,
        lookup-erase i j0.job_id taken_queue.processing,
        lookup-insert i j0.job_id (taken j0) s.queue.processing,
        h.linked i,
        absent_of_count j0.job_id s.queue.processing fresh,
      );
      counted = λ i. ground (
        arith,
        ap (count_entries i) fail_first.0,
        count_entries-erase i j0.job_id taken_queue.processing,
        count_entries-insert_new i j0.job_id (taken j0) s.queue.processing fresh,
        h.counted i,
        fresh,
      );
      waiting = subst (All MayRun) (sym fail_first.1) waiting_first.1;
      working = h.working;
    }

  pub launch-IsSound :
      (s : State) (j : Job)
      → s.held ≡ some j
      → length s.active < concurrency
      → IsSound concurrency s
      → IsSound concurrency (record s { held = none; active = j ∷ s.active })
  launch-IsSound s j mine room h = record {
    valid = h.valid;
    bounded = room;
    linked =
        subst (λ o. (i : String) → lookup i s.queue.processing ≡ find_job i (holding o s.active))
          mine h.linked;
    counted =
        subst
          (λ o.
            (i : String) → count_jobs i (holding o s.active) ≡ count_entries i s.queue.processing)
          mine h.counted;
    waiting = h.waiting;
    working = subst (λ o. All Counted (holding o s.active)) mine h.working;
  }

  -- The end of a goroutine. `mine` is what the dispatcher holds beside the other goroutines' jobs.
  module _ (s : State) (before : List Job) (j : Job) (after : List Job)
      (e : s.active ≡ before ++ (j ∷ after)) (h : IsSound concurrency s) where
    held-split : (o : Option Job) (xs : List Job) → holding o xs ≡ holding o [] ++ xs
    held-split none xs = refl
    held-split (some x) xs = refl

    split : holding s.held s.active ≡ (holding s.held [] ++ before) ++ (j ∷ after)
    split =
        held-split s.held s.active
        ∙ ap (λ js. holding s.held [] ++ js) e
        ∙ sym (append_assoc (holding s.held []) before (j ∷ after))

    rest_split : holding s.held (before ++ after) ≡ (holding s.held [] ++ before) ++ after
    rest_split =
        held-split s.held (before ++ after) ∙ sym (append_assoc (holding s.held []) before after)

    j_once : count_jobs j.job_id ((holding s.held [] ++ before) ++ (j ∷ after)) ≤ 1
    j_once =
        subst (λ js. count_jobs j.job_id js ≤ 1) split
          (omega (arith, h.counted j.job_id, h.valid.once j.job_id))

    pub j_found : lookup j.job_id s.queue.processing ≡ some j
    j_found =
        h.linked j.job_id
        ∙ ap (find_job j.job_id) split
        ∙ find_job-middle (holding s.held [] ++ before) j after j_once

    pub finish-IsSound :
        (answer : Option GoError)
        → IsSound concurrency
            (record s { queue = conclude answer j s.queue; active = before ++ after })
    finish-IsSound answer = record {
      valid = conclude-IsValid answer j s.queue h.valid;
      bounded = omega (
        arith,
        h.bounded,
        ap length e,
        length-append before after,
        length-append before (j ∷ after),
      );
      linked = λ i. ground (
        arith,
        ap (lookup i) (conclude-processing answer j s.queue j_found),
        ap (find_job i) rest_split,
        ap (find_job i) split,
        h.linked i,
        lookup-erase i j.job_id s.queue.processing,
        find_job-remove i (holding s.held [] ++ before) j after j_once,
      );
      counted = λ i. ground (
        arith,
        ap (count_entries i) (conclude-processing answer j s.queue j_found),
        ap (count_jobs i) rest_split,
        ap (count_jobs i) split,
        h.counted i,
        j_once,
        count_entries-erase i j.job_id s.queue.processing,
        count_jobs-remove i (holding s.held [] ++ before) j after,
        count_jobs-remove j.job_id (holding s.held [] ++ before) j after,
      );
      waiting = conclude-MayRun answer j s.queue j_found h.waiting;
      working = subst (All Counted) (sym rest_split) (
          All-remove Counted (holding s.held [] ++ before) j after
            (subst (All Counted) split h.working));
    }
