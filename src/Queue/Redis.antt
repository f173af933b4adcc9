-- ===== src/Queue/Redis.antt =====
-- internal/adapters/out/queue/redis.go, over the client's commands and Go's JSON package. The commands
-- act on an unknown state `Q`; the keys of the four lists are the source's.
pub mod Connect
pub mod Laws
use gameserver_daemon.Common.{
  ℕ, ◌+◌, ◌*◌, String, Bool, true, false, ◌≡◌, Option, none, some, List, [], ◌∷◌, ◌==◌, leb,
  if◌then◌else◌,
}
use gameserver_daemon.Errors.{
  GoError, sentinel, wrapped, queue_empty, job_not_found, Result, ok, err,
}
use gameserver_daemon.Jobs.{Job, JobStatus}
use gameserver_daemon.Queue.Memory.{with_status, taken}

abbrev pub key_pending : String
key_pending = "repo:queue:pending"

abbrev pub key_processing : String
key_processing = "repo:queue:processing"

abbrev pub key_delayed : String
key_delayed = "repo:queue:delayed"

abbrev pub key_dead : String
key_dead = "repo:queue:dead"

-- `BLMove` answers an item, `redis.Nil` after the time-out, or another error.
pub data Moved : Type 0 where
  item : String → Moved
  nothing : Moved
  broken : GoError → Moved

-- `promote` runs the script at a time; `move` is the `BLMove` from the pending to the processing list;
-- what `LRem` answers is not looked at.
pub record Redis (Q : Type 0) : Type 0 where
  pub lpush : String → String → Q → Option GoError × Q
  pub promote : ℕ → Q → Option GoError × Q
  pub move : Q → Moved × Q
  pub lrange : String → Q → Result (List String)
  pub lrem : String → String → Q → Q
  pub zadd : String → ℕ → String → Q → Option GoError × Q

-- `json.Marshal` and `json.Unmarshal` on jobs. A job is always serializable but for its payload, which is
-- raw JSON; where that is broken, `marshal` answers an error. `filled` is what `Unmarshal` leaves in its
-- variable, whether or not it answers an error.
pub record Json : Type 0 where
  pub marshal : Job → Result String
  pub unmarshal : String → Result Job
  pub filled : String → Job

-- Without an error, that is the job that has been read.
abbrev pub IsFilled : Json → Type 0
IsFilled json = (raw : String) (j : Job) → json.unmarshal raw ≡ ok j → json.filled raw ≡ j

abbrev pub bytes_of : Result String → String
bytes_of (ok s) = s
bytes_of (err e) = ""

module _ {Q : Type 0} (redis : Redis Q) (json : Json) where
  abbrev wrap_error : String → Option GoError × Q → Option GoError × Q
  wrap_error before (none, q) = (none, q)
  wrap_error before (some e, q) = (some (wrapped before e ""), q)

  -- `Enqueue`
  unfoldable pub enqueue : Job → Q → Option GoError × Q
  enqueue job q = elim (json.marshal (with_status job JobStatus.pending)) [
    | err e ↦ (some (wrapped "serialize job: " e ""), q)
    | ok text ↦ wrap_error "redis lpush: " (redis.lpush key_pending text q)
  ]

  -- The item that has been moved, as a job with one attempt more.
  abbrev pub read_item : Moved × Q → Result Job × Q
  read_item (nothing, q) = (err (sentinel queue_empty), q)
  read_item (broken e, q) = (err (wrapped "failed to dequeue: " e ""), q)
  read_item (item text, q) = elim (json.unmarshal text) [
    | err e ↦ (err (wrapped "failed to unmarshal dequeued job: " e ""), q)
    | ok j ↦ (ok (taken j), q)
  ]

  abbrev pub promoted : Option GoError × Q → Result Job × Q
  promoted (some e, q) = (err (wrapped "failed to promote delayed jobs: " e ""), q)
  promoted (none, q) = read_item (redis.move q)

  -- `Dequeue`, at a time.
  unfoldable pub dequeue : ℕ → Q → Result Job × Q
  dequeue now q = promoted (redis.promote now q)

  -- The loop of `removeByJobID`: the first item that is a job with the id.
  unfoldable pub find_item : String → List String → Option String
  find_item id [] = none
  find_item id (raw ∷ raws) = elim (json.unmarshal raw) [
    | err e ↦ find_item id raws
    | ok j ↦ if j.job_id == id then some raw else find_item id raws
  ]

  -- `removeByJobID`
  unfoldable pub remove_by_job_id : String → String → Q → Result String × Q
  unfolding find_item
  remove_by_job_id key id q = elim (redis.lrange key q) [
    | err e ↦ (err e, q)
    | ok raws ↦ elim (find_item id raws) [
      | none ↦ (err (sentinel job_not_found), q)
      | some raw ↦ (ok raw, redis.lrem key raw q)
    ]
  ]

  abbrev only_error : Result String × Q → Option GoError × Q
  only_error (err e, q) = (some e, q)
  only_error (ok raw, q) = (none, q)

  -- `Acknowledge`
  unfoldable pub acknowledge : String → Q → Option GoError × Q
  unfolding remove_by_job_id
  acknowledge id q = only_error (remove_by_job_id key_processing id q)

  -- The job with one attempt more.
  abbrev pub tried : Job → Job
  tried j = record j { attempts = j.attempts + 1 }

  -- What `Retry` does with a job that it has taken off the list.
  unfoldable pub reschedule : ℕ → Job → Q → Option GoError × Q
  reschedule now j q =
      if leb j.max_attempts (tried j).attempts
      then redis.lpush key_dead (bytes_of (json.marshal (with_status (tried j) JobStatus.failed))) q
      else redis.zadd key_delayed (now + (tried j).attempts * 5)
          (bytes_of (json.marshal (with_status (tried j) JobStatus.pending))) q

  abbrev pub with_job : (Job → Q → Option GoError × Q) → Result String × Q → Option GoError × Q
  with_job act (err e, q) = (some e, q)
  with_job act (ok raw, q) = act (json.filled raw) q

  -- `Retry`, at a time.
  unfoldable pub retry : ℕ → String → Q → Option GoError × Q
  unfolding remove_by_job_id reschedule
  retry now id q = with_job (reschedule now) (remove_by_job_id key_processing id q)

  -- `MarkFailed`
  unfoldable pub mark_failed : String → Q → Option GoError × Q
  unfolding remove_by_job_id
  mark_failed id q =
      with_job
        (λ j. redis.lpush key_dead (bytes_of (json.marshal (with_status j JobStatus.failed))))
        (remove_by_job_id key_processing id q)
