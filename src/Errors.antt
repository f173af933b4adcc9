-- ===== src/Errors.antt =====
-- Go's error values: internal/application/ports/errors.go, the sentinels of runtime_adapter.go,
-- queue/memory.go and docker/docker.go, and what `fmt.Errorf` and `errors.Is` do with them.
use gameserver_daemon.Common.{String, ◌<>◌, Bool, true, false, ◌≡◌, refl, Option, none, some}

-- `ErrPermanent`, `ErrProjectMismatch`, `ErrQueueEmpty`, `ErrJobNotFound`, `errContainerNotFound`.
pub data Sentinel : Type 0 where
  permanent project_mismatch queue_empty job_not_found container_not_found : Sentinel

unfoldable pub same_sentinel : Sentinel → Sentinel → Bool
same_sentinel permanent permanent = true
same_sentinel project_mismatch project_mismatch = true
same_sentinel queue_empty queue_empty = true
same_sentinel job_not_found job_not_found = true
same_sentinel container_not_found container_not_found = true
same_sentinel _ _ = false

-- `wrapped before e after` is `fmt.Errorf` with one `%w`; `failure` is an error that wraps nothing.
pub data GoError : Type 0 where
  sentinel : Sentinel → GoError
  failure : String → GoError
  wrapped : String → GoError → String → GoError

unfoldable pub sentinel_text : Sentinel → String
sentinel_text permanent = "permanent failure"
sentinel_text project_mismatch = "workload project mismatch"
sentinel_text queue_empty = "queue is empty"
sentinel_text job_not_found = "job not found"
sentinel_text container_not_found = "container not found"

-- `err.Error()`
unfoldable pub error_text : GoError → String
unfolding sentinel_text
error_text (sentinel s) = sentinel_text s
error_text (failure m) = m
error_text (wrapped before e after) = before <> error_text e <> after

-- `errors.Is(err, s)`
unfoldable pub is_error : Sentinel → GoError → Bool
unfolding same_sentinel
is_error s (sentinel t) = same_sentinel t s
is_error s (failure m) = false
is_error s (wrapped before e after) = is_error s e

-- `(value, error)`, where the value is meant only if the error is nil.
pub data Result {ℓ} (A : Type ℓ) : Type ℓ where
  ok : A → Result A
  err : GoError → Result A

-- The `error` of such a pair: `none` is nil.
unfoldable pub error_of {ℓ} : {A : Type ℓ} → Result A → Option GoError
error_of (ok a) = none
error_of (err e) = some e

wrapping_keeps_the_cause :
    is_error permanent (wrapped "inject file: " (wrapped "" (sentinel permanent) ": bad") "") ≡ true
unfolding is_error
wrapping_keeps_the_cause = refl
