-- ===== src/Queue/Memory/Laws.antt =====
-- internal/adapters/out/queue/memory.go: no job is lost, and jobs are handed out in order.
use gameserver_daemon.Common.{
  ℕ, zero, suc, ◌+◌, String, ◌≡◌, refl, List, [], ◌∷◌, arith, ap, Option, Option-cases, inl, inr,
  length, map,
}
use gameserver_daemon.Common.Dict.{lookup}
use gameserver_daemon.Errors.{Result, ok, GoError}
use gameserver_daemon.Jobs.{Job, JobStatus}
use gameserver_daemon.Queue.Memory.{
  MemoryQueue, enqueue, dequeue, acknowledge, mark_failed, retry, settle, taken,
}
use gameserver_daemon.Queue.Memory.Counts.{count_jobs, one_if}
use gameserver_daemon.Queue.Memory.Invariant.{
  IsValid, live, seen, enqueue-IsValid, enqueue-seen, dequeue-IsValid, dequeue-live, dequeue-eq,
  dequeue_empty, acknowledge-IsValid, mark_failed-IsValid, retry-IsValid, retry-live, settle-seen,
  retry-eq, retry_missing, settle_missing,
}

-- Every operation keeps the queue well formed: no two live jobs share an id, and the map of jobs in
-- work is keyed by their ids. The job that is enqueued has an id that
-- is not live.
pub operations-IsValid :
    (q : MemoryQueue) (id : String) (job : Job)
    → IsValid q
    → live job.job_id q ≡ 0
    → IsValid (enqueue job q).1
      × IsValid (dequeue q).1
      × IsValid (acknowledge id q).1
      × IsValid (retry id q).1
      × IsValid (mark_failed id q).1
operations-IsValid q id job v fresh = (
  enqueue-IsValid job q v fresh,
  dequeue-IsValid q v,
  acknowledge-IsValid id q v,
  retry-IsValid id q v,
  mark_failed-IsValid id q v,
)

dequeue-seen :
    (i : String) (q : MemoryQueue) (xs : List Job)
    → q.pending ≡ xs
    → IsValid q
    → seen i (dequeue q).1 ≡ seen i q
dequeue-seen i q [] e v = rw (dequeue_empty q e)
dequeue-seen i q (j ∷ rest) e v = omega (
  arith,
  dequeue-live q j rest e v i,
  ap (λ (r : Result Job × MemoryQueue). count_jobs i r.1.settled) (dequeue-eq q j rest e),
)

settle_any-seen :
    (s : JobStatus) (i id : String) (q : MemoryQueue)
    → IsValid q
    → seen i (settle s id q).1 ≡ seen i q
settle_any-seen s i id q v = elim (Option-cases (lookup id q.processing)) [
  | inl missing ↦ rw (settle_missing s id q missing)
  | inr (j, found) ↦ settle-seen id q j found v s i
]

retry-seen : (i id : String) (q : MemoryQueue) → IsValid q → seen i (retry id q).1 ≡ seen i q
retry-seen i id q v = elim (Option-cases (lookup id q.processing)) [
  | inl missing ↦ rw (retry_missing id q missing)
  | inr (j, found) ↦ omega (
    arith,
    retry-live id q j found v i,
    ap (λ (r : Option GoError × MemoryQueue). count_jobs i r.1.settled) (retry-eq id q j found v),
  )
]

-- No operation loses or doubles a job: on a well-formed queue the number of jobs with an id, among
-- the waiting, the running and the settled ones, grows by one for the job that is enqueued, and
-- stays the same in all other operations, those that answer an error too.
pub operations_conserve :
    (i : String) (q : MemoryQueue) (id : String) (job : Job)
    → IsValid q
    → (seen i (enqueue job q).1 ≡ seen i q + one_if job.job_id i)
      × (seen i (dequeue q).1 ≡ seen i q)
      × (seen i (acknowledge id q).1 ≡ seen i q)
      × (seen i (retry id q).1 ≡ seen i q)
      × (seen i (mark_failed id q).1 ≡ seen i q)
unfolding acknowledge mark_failed
operations_conserve i q id job v = (
  enqueue-seen i job q,
  dequeue-seen i q q.pending refl v,
  settle_any-seen _ i id q v,
  retry-seen i id q v,
  settle_any-seen _ i id q v,
)

-- What `n` calls of `Dequeue` hand out.
pub drain : ℕ → MemoryQueue → List (Result Job)
drain zero q = []
drain (suc n) q = let (r, q') = dequeue q in r ∷ drain n q'

drain_pending :
    (xs : List Job) (q : MemoryQueue)
    → q.pending ≡ xs
    → drain (length xs) q ≡ map (λ j. ok (taken j)) xs
unfolding drain
drain_pending [] q e = refl
drain_pending (j ∷ xs) q e =
    rw (dequeue-eq q j xs e) (ap (λ rs. ok (taken j) ∷ rs) (drain_pending xs _ refl))

-- First in, first out: as many calls of `Dequeue` as jobs wait hand out those jobs, each once and
-- in the order of the queue, with one attempt more and the status of a job in work.
pub drain-pending :
    (q : MemoryQueue) → drain (length q.pending) q ≡ map (λ j. ok (taken j)) q.pending
drain-pending q = drain_pending q.pending q refl
