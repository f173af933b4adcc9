-- ===== src/Queue/Redis/Laws.antt =====
-- internal/adapters/out/queue/redis.go: what a retry does, and which items are found again.
use gameserver_daemon.Common.{
  ℕ, ◌+◌, ◌*◌, String, true, ◌≡◌, ◌≢◌, refl, sym, ◌∙◌, subst, ◌⊎◌, inl, inr, none, some, List, [],
  ◌∷◌, arith, string_dec,
}
use gameserver_daemon.Errors.{GoError, wrapped, Result, ok, err}
use gameserver_daemon.Jobs.{Job, JobStatus, can_retry}
use gameserver_daemon.Queue.Memory.{with_status, taken}
use gameserver_daemon.Queue.Redis.{
  Redis, Json, IsFilled, item, bytes_of, key_processing, key_delayed, read_item, dequeue, find_item,
  remove_by_job_id, reschedule, retry,
}

module _ {Q : Type 0} (redis : Redis Q) (json : Json) where
  first_or_later :
      (id raw r : String) (raws : List String) (t : Result Job)
      → json.unmarshal r ≡ t
      → find_item redis json id (r ∷ raws) ≡ some raw
      → ((j : Job) × (json.unmarshal raw ≡ ok j) × (j.job_id ≡ id))
        ⊎ (find_item redis json id raws ≡ some raw)
  unfolding find_item
  first_or_later id raw r raws (err e) k h = inr (ground arith)
  first_or_later id raw r raws (ok j) k h = elim (string_dec j.job_id id) [
    | yes same ↦ inl (j, subst (λ x. json.unmarshal x ≡ ok j) (here same) k, same)
    | no other ↦ inr (ground arith)
  ]
    where
      here : j.job_id ≡ id → r ≡ raw
      here same = ground arith

  found_item :
      (id raw : String) (raws : List String)
      → find_item redis json id raws ≡ some raw
      → (j : Job) × (json.unmarshal raw ≡ ok j) × (j.job_id ≡ id)
  unfolding find_item
  found_item id raw [] h = cc
  found_item id raw (r ∷ raws) h = elim (first_or_later id raw r raws (json.unmarshal r) refl h) [
    | inl this ↦ this
    | inr later ↦ found_item id raw raws later
  ]

  listed_item :
      (key id raw : String) (q : Q)
      → (remove_by_job_id redis json key id q).0 ≡ ok raw
      → (raws : List String) × (redis.lrange key q ≡ ok raws)
        × (find_item redis json id raws ≡ some raw)
  unfolding remove_by_job_id
  listed_item key id raw q h = go (redis.lrange key q) refl
    where
      failed : (e : GoError) → redis.lrange key q ≡ err e → ⊥
      failed e k = ground arith

      go :
          (t : Result (List String))
          → redis.lrange key q ≡ t
          → (raws : List String) × (redis.lrange key q ≡ ok raws)
            × (find_item redis json id raws ≡ some raw)
      go (err e) k = absurd (failed e k)
      go (ok raws) k = (raws, k, ground arith)

  -- An item that is taken off a list is one that reads as a job with the id that was asked for, so that an
  -- item that does not read as a job is never taken off again.
  pub remove_by_job_id-unmarshal :
      (key id raw : String) (q : Q)
      → (remove_by_job_id redis json key id q).0 ≡ ok raw
      → (j : Job) × (json.unmarshal raw ≡ ok j) × (j.job_id ≡ id)
  remove_by_job_id-unmarshal key id raw q h =
      let (raws, listing, first) = listed_item key id raw q h in found_item id raw raws first

  -- A retry of a job that the dispatcher may retry: the item in the processing list still has the number
  -- of attempts from before the job was handed out. The job goes to the delayed set, with the same number
  -- of attempts as the worker's copy, for five seconds later per attempt, and never to the dead list.
  pub retry-delayed :
      (now : ℕ) (id raw : String) (j : Job) (q q' : Q)
      → IsFilled json
      → remove_by_job_id redis json key_processing id q ≡ (ok raw, q')
      → json.unmarshal raw ≡ ok j
      → can_retry (taken j) ≡ true
      → retry redis json now id q
        ≡ redis.zadd key_delayed
            (now + (taken j).attempts * 5)
            (bytes_of (json.marshal (with_status (taken j) JobStatus.pending)))
            q'
  unfolding retry reschedule can_retry
  retry-delayed now id raw j q q' filled removed read more =
      rw (removed, filled raw j read) (ground arith)

  never_removed :
      (key id raw : String) (e : GoError) (q : Q)
      → json.unmarshal raw ≡ err e
      → (remove_by_job_id redis json key id q).0 ≢ ok raw
  never_removed key id raw e q bad h =
      let (j, read, same) = remove_by_job_id-unmarshal key id raw q h in differs j (sym bad ∙ read)
    where
      differs : (j : Job) → err e ≡ ok j → ⊥
      differs j k = cc

  -- An item that does not read as a job is moved to the processing list and stays there: taking it answers
  -- an error, the state is the one after the move, and in no state does the search for a job, by which
  -- acknowledging, retrying and failing take jobs off that list, find it.
  pub undecodable_stuck :
      (now : ℕ) (raw : String) (e : GoError) (q q' q'' : Q)
      → redis.promote now q ≡ (none, q')
      → redis.move q' ≡ (item raw, q'')
      → json.unmarshal raw ≡ err e
      → (dequeue redis json now q ≡ (err (wrapped "failed to unmarshal dequeued job: " e ""), q''))
        × ((id : String) (later : Q)
            → (remove_by_job_id redis json key_processing id later).0 ≢ ok raw)
  unfolding dequeue
  undecodable_stuck now raw e q q' q'' ready moved bad = (
    rw (ready, moved, read_item, bad) refl,
    λ id later. never_removed key_processing id raw e later bad,
  )
