-- ===== src/Queue/Memory/Invariant.antt =====
-- internal/adapters/out/queue/memory.go: what every operation keeps.
use gameserver_daemon.Common.{
  ℕ, ◌+◌, ◌≤◌, String, ◌≡◌, List, [], ◌∷◌, ◌++◌, arith, none, some, ap, refl, Option-cases, inl,
  inr,
}
use gameserver_daemon.Common.Dict.{lookup, insert, erase}
use gameserver_daemon.Errors.{GoError, ok, err, sentinel, queue_empty, job_not_found}
use gameserver_daemon.Jobs.{Job, JobStatus}
use gameserver_daemon.Queue.Memory.{
  MemoryQueue, enqueue, dequeue, take_first, acknowledge, mark_failed, retry, settle, taken,
  with_status,
}
use gameserver_daemon.Queue.Memory.Counts.{
  count_jobs, count_entries, Keyed, one_if, count_jobs-snoc, count_jobs-cons,
  count_entries-insert_new, count_entries-erase, count_entries_of_some, insert-Keyed, erase-Keyed,
  lookup-Keyed,
}

-- How many jobs with this id the queue can still hand out or waits for.
abbrev pub live : String → MemoryQueue → ℕ
live i q = count_jobs i q.pending + count_entries i q.processing

-- How many jobs with this id the queue has seen.
abbrev pub seen : String → MemoryQueue → ℕ
seen i q = live i q + count_jobs i q.settled

-- No two live jobs share an id, and the map is keyed by the jobs' own ids.
pub record IsValid (q : MemoryQueue) : Type 0 where
  pub once : (i : String) → live i q ≤ 1
  pub keyed : Keyed q.processing

pub enqueue-seen :
    (i : String) (job : Job) (q : MemoryQueue)
    → seen i (enqueue job q).1 ≡ seen i q + one_if job.job_id i
unfolding enqueue
enqueue-seen i job q =
    omega (arith, count_jobs-snoc i q.pending (with_status job JobStatus.pending))

pub enqueue-IsValid :
    (job : Job) (q : MemoryQueue) → IsValid q → live job.job_id q ≡ 0 → IsValid (enqueue job q).1
unfolding enqueue
enqueue-IsValid job q v fresh = record {
  once = λ i.
      ground (arith, count_jobs-snoc i q.pending (with_status job JobStatus.pending), v.once i);
  keyed = v.keyed;
}

pub dequeue-eq :
    (q : MemoryQueue) (j : Job) (rest : List Job)
    → q.pending ≡ j ∷ rest
    → dequeue q ≡ (
      ok (taken j),
      record q { pending = rest; processing = insert j.job_id (taken j) q.processing },
    )
unfolding dequeue
dequeue-eq q j rest e = rw (e, take_first)

-- The parts of `dequeue` on a queue that has a first job.
module _ (q : MemoryQueue) (j : Job) (rest : List Job) (e : q.pending ≡ j ∷ rest)
    (v : IsValid q) where
  pub first_is_not_running : count_entries j.job_id q.processing ≡ 0
  first_is_not_running =
      ground (arith, v.once j.job_id, ap (count_jobs j.job_id) e, count_jobs-cons j.job_id j rest)

  pub dequeue-live : (i : String) → live i (dequeue q).1 ≡ live i q
  dequeue-live i = rw (dequeue-eq q j rest e) (
      omega (
        arith,
        ap (count_jobs i) e,
        count_jobs-cons i j rest,
        count_entries-insert_new i j.job_id (taken j) q.processing first_is_not_running,
      ))

  dequeue_some-IsValid : IsValid (dequeue q).1
  dequeue_some-IsValid = record {
    once = λ i. omega (arith, dequeue-live i, v.once i);
    keyed = rw (dequeue-eq q j rest e) (insert-Keyed (taken j) q.processing v.keyed);
  }

pub dequeue_empty : (q : MemoryQueue) → q.pending ≡ [] → dequeue q ≡ (err (sentinel queue_empty), q)
unfolding dequeue
dequeue_empty q e = rw (e, take_first)

dequeue_cases-IsValid :
    (q : MemoryQueue) (xs : List Job) → q.pending ≡ xs → IsValid q → IsValid (dequeue q).1
dequeue_cases-IsValid q [] e v = rw (dequeue_empty q e) v
dequeue_cases-IsValid q (j ∷ rest) e v = dequeue_some-IsValid q j rest e v

-- What a successful call of `dequeue` has found and done.
dequeue_inversion :
    (q : MemoryQueue) (xs : List Job) {j : Job} {q' : MemoryQueue}
    → q.pending ≡ xs
    → dequeue q ≡ (ok j, q')
    → (j0 : Job) × (rest : List Job) × (q.pending ≡ j0 ∷ rest)
      × (j ≡ taken j0)
      × (q' ≡ record q { pending = rest; processing = insert j0.job_id (taken j0) q.processing })
dequeue_inversion q [] e h = cc (dequeue_empty q e)
dequeue_inversion q (j0 ∷ rest) {j} {q'} e h =
    (j0, rest, e, ground (arith, dequeue-eq q j0 rest e), ground (arith, dequeue-eq q j0 rest e))

pub dequeue_ok :
    (q : MemoryQueue) {j : Job} {q' : MemoryQueue}
    → dequeue q ≡ (ok j, q')
    → (j0 : Job) × (rest : List Job) × (q.pending ≡ j0 ∷ rest)
      × (j ≡ taken j0)
      × (q' ≡ record q { pending = rest; processing = insert j0.job_id (taken j0) q.processing })
dequeue_ok q h = dequeue_inversion q q.pending refl h

dequeue_unchanged :
    (q : MemoryQueue) (xs : List Job) {e : GoError} {q' : MemoryQueue}
    → q.pending ≡ xs
    → dequeue q ≡ (err e, q')
    → q' ≡ q
dequeue_unchanged q [] p h = ground (arith, dequeue_empty q p)
dequeue_unchanged q (j0 ∷ rest) p h = cc (dequeue-eq q j0 rest p)

pub dequeue_err :
    (q : MemoryQueue) {e : GoError} {q' : MemoryQueue} → dequeue q ≡ (err e, q') → q' ≡ q
dequeue_err q h = dequeue_unchanged q q.pending refl h

pub dequeue-IsValid : (q : MemoryQueue) → IsValid q → IsValid (dequeue q).1
dequeue-IsValid q v = dequeue_cases-IsValid q q.pending refl v

pub settle-IsValid :
    (s : JobStatus) (id : String) (q : MemoryQueue) → IsValid q → IsValid (settle s id q).1
unfolding settle
settle-IsValid s id q v = record {
  once = λ i. ground (arith, v.once i, count_entries-erase i id q.processing);
  keyed = ground (arith, v.keyed, erase-Keyed id q.processing v.keyed);
}

pub acknowledge-IsValid : (id : String) (q : MemoryQueue) → IsValid q → IsValid (acknowledge id q).1
unfolding acknowledge
acknowledge-IsValid id q v = settle-IsValid JobStatus.completed id q v

pub mark_failed-IsValid : (id : String) (q : MemoryQueue) → IsValid q → IsValid (mark_failed id q).1
unfolding mark_failed
mark_failed-IsValid id q v = settle-IsValid JobStatus.failed id q v

-- The parts of a call on a job that is being processed.
module _ (id : String) (q : MemoryQueue) (j : Job) (found : lookup id q.processing ≡ some j)
    (v : IsValid q) where
  id_of_found : j.job_id ≡ id
  id_of_found = lookup-Keyed id q.processing j v.keyed found

  found_once : count_entries id q.processing ≡ 1
  found_once = omega (arith, count_entries_of_some id q.processing j found, v.once id)

  pub retry-eq : retry id q ≡ (
    none,
    record q {
      pending = q.pending ++ with_status j JobStatus.pending ∷ [];
      processing = erase id q.processing;
    },
  )
  unfolding retry
  retry-eq = rw (found, retry)

  pub settle-eq :
      (s : JobStatus)
      → settle s id q ≡ (
        none,
        record q { processing = erase id q.processing; settled = with_status j s ∷ q.settled },
      )
  unfolding settle
  settle-eq s = rw (found, settle)

  pub retry-live : (i : String) → live i (retry id q).1 ≡ live i q
  retry-live i = rw retry-eq (
      ground (
        arith,
        count_jobs-snoc i q.pending (with_status j JobStatus.pending),
        found_once,
        count_entries-erase i id q.processing,
        id_of_found,
      ))

  pub settle-seen : (s : JobStatus) (i : String) → seen i (settle s id q).1 ≡ seen i q
  settle-seen s i = rw settle-eq (
      ground (
        arith,
        count_jobs-cons i (with_status j s) q.settled,
        found_once,
        count_entries-erase i id q.processing,
        id_of_found,
      ))

  retry_found-IsValid : IsValid (retry id q).1
  retry_found-IsValid = record {
    once = λ i. omega (arith, retry-live i, v.once i);
    keyed = rw retry-eq (erase-Keyed id q.processing v.keyed);
  }

pub retry_missing :
    (id : String) (q : MemoryQueue)
    → lookup id q.processing ≡ none
    → retry id q ≡ (some (sentinel job_not_found), q)
unfolding retry
retry_missing id q e = rw (e, retry)

pub settle_missing :
    (s : JobStatus) (id : String) (q : MemoryQueue)
    → lookup id q.processing ≡ none
    → settle s id q ≡ (some (sentinel job_not_found), q)
unfolding settle
settle_missing s id q e = rw (e, settle)

pub retry-IsValid : (id : String) (q : MemoryQueue) → IsValid q → IsValid (retry id q).1
retry-IsValid id q v = elim (Option-cases (lookup id q.processing)) [
  | inl missing ↦ rw (retry_missing id q missing) v
  | inr (j, found) ↦ retry_found-IsValid id q j found v
]
