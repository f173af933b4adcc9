-- ===== src/Tests/RedisRuns.antt =====
-- Runs of the Redis queue, on a server with one item in work that counts the changes.
use gameserver_daemon.Common.{
  ℕ, String, ◌+◌, Bool, true, false, ◌≡◌, ◌≢◌, refl, none, [], ◌∷◌, ◌==◌, if◌then◌else◌, string_dec,
}
use gameserver_daemon.Errors.{GoError, failure, wrapped, ok, err}
use gameserver_daemon.Jobs.{JobStatus, can_retry}
use gameserver_daemon.Queue.Memory.{with_status, taken}
use gameserver_daemon.Queue.Redis.{
  Redis, Json, IsFilled, item, bytes_of, key_processing, key_delayed, dequeue, find_item,
  remove_by_job_id, retry,
}
use gameserver_daemon.Queue.Redis.Laws.{retry-delayed, undecodable_stuck}
use gameserver_daemon.Tests.Data.{first_job}

abbrev redis : Redis ℕ
redis = record {
  lpush = λ key text n. (none, n + 1);
  promote = λ now n. (none, n);
  move = λ n. (item "bad", n + 1);
  lrange = λ key n. ok ("job" ∷ []);
  lrem = λ key raw n. n + 1;
  zadd = λ key score text n. (none, n + score);
}

abbrev bad_json : GoError
bad_json = failure "invalid character 'b'"

abbrev json : Json
json = record {
  marshal = λ j. ok "job";
  unmarshal = λ raw. if raw == "bad" then err bad_json else ok first_job;
  filled = λ raw. first_job;
}

json-IsFilled : IsFilled json
json-IsFilled raw j h = go (raw == "bad") h
  where
    go : (b : Bool) → (if b then err bad_json else ok first_job) ≡ ok j → first_job ≡ j
    go true k = cc
    go false k = cc

removed : remove_by_job_id redis json key_processing "j1" 0 ≡ (ok "job", 1)
unfolding remove_by_job_id find_item string_dec
removed = refl

removed_value : (remove_by_job_id redis json key_processing "j1" 0).0 ≡ ok "job"
unfolding remove_by_job_id find_item string_dec
removed_value = refl

read : json.unmarshal "job" ≡ ok first_job
unfolding string_dec
read = refl

unread : json.unmarshal "bad" ≡ err bad_json
unfolding string_dec
unread = refl

more : can_retry (taken first_job) ≡ true
unfolding can_retry
more = refl

retry-delayed_example :
    retry redis json 100 "j1" 0
    ≡ redis.zadd key_delayed 105
        (bytes_of (json.marshal (with_status (taken first_job) JobStatus.pending)))
        1
retry-delayed_example =
    retry-delayed redis json 100 "j1" "job" first_job 0 1 json-IsFilled removed read more

undecodable_stuck_example :
    (dequeue redis json 100 0 ≡ (err (wrapped "failed to unmarshal dequeued job: " bad_json ""), 1))
    × ((id : String) (later : ℕ)
        → (remove_by_job_id redis json key_processing id later).0 ≢ ok "bad")
undecodable_stuck_example = undecodable_stuck redis json 100 "bad" bad_json 0 0 1 refl refl unread
