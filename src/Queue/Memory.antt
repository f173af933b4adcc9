-- ===== src/Queue/Memory.antt =====
-- internal/adapters/out/queue/memory.go
pub mod Counts
pub mod Invariant
pub mod Laws
use gameserver_daemon.Common.{ℕ, ◌+◌, suc, String, Option, none, some, List, [], ◌∷◌, ◌++◌}
use gameserver_daemon.Common.Dict.{Dict, lookup, insert, erase}
use gameserver_daemon.Errors.{GoError, sentinel, queue_empty, job_not_found, Result, ok, err}
use gameserver_daemon.Jobs.{Job, JobStatus}

-- The Go queue drops its pointer to a job that is done, after a last write to the job's status.
-- `settled` keeps those objects, the last one first, so that the write has a place.
pub record MemoryQueue : Type 0 where
  pub pending : List Job
  pub processing : Dict Job
  pub settled : List Job

abbrev pub new_memory_queue : MemoryQueue
new_memory_queue = record { pending = []; processing = []; settled = [] }

abbrev pub with_status : Job → JobStatus → Job
with_status j s = record j { status = s }

unfoldable pub enqueue : Job → MemoryQueue → Option GoError × MemoryQueue
enqueue job q = (none, record q { pending = q.pending ++ with_status job JobStatus.pending ∷ [] })

-- The job as a worker gets it: one attempt more.
abbrev pub taken : Job → Job
taken j = record j { status = JobStatus.processing; attempts = j.attempts + 1 }

pub take_first : List Job → MemoryQueue → Result Job × MemoryQueue
take_first [] q = (err (sentinel queue_empty), q)
take_first (j ∷ rest) q =
    (ok (taken j), record q { pending = rest; processing = insert j.job_id (taken j) q.processing })

unfoldable pub dequeue : MemoryQueue → Result Job × MemoryQueue
unfolding take_first
dequeue q = take_first q.pending q

-- `Acknowledge` and `MarkFailed` differ in the status that they write.
pub settle : JobStatus → String → MemoryQueue → Option GoError × MemoryQueue
settle s id q = elim (lookup id q.processing) [
  | none ↦ (some (sentinel job_not_found), q)
  | some j ↦
      (none, record q { processing = erase id q.processing; settled = with_status j s ∷ q.settled })
]

unfoldable pub acknowledge : String → MemoryQueue → Option GoError × MemoryQueue
unfolding settle
acknowledge id q = settle JobStatus.completed id q

unfoldable pub mark_failed : String → MemoryQueue → Option GoError × MemoryQueue
unfolding settle
mark_failed id q = settle JobStatus.failed id q

unfoldable pub retry : String → MemoryQueue → Option GoError × MemoryQueue
retry id q = elim (lookup id q.processing) [
  | none ↦ (some (sentinel job_not_found), q)
  | some j ↦ (
    none,
    record q {
      processing = erase id q.processing;
      pending = q.pending ++ with_status j JobStatus.pending ∷ [];
    },
  )
]
