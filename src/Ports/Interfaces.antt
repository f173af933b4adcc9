-- ===== src/Ports/Interfaces.antt =====
-- internal/application/ports: the interfaces between the workers and the adapters. A Go method that
-- returns `(value, error)` gives a `Result`, one that returns an `error` gives `none` for nil.
use gameserver_daemon.Common.{String, ◌≡◌, ◌≢◌, Option, none, List, ◌==◌, if◌then◌else◌}
use gameserver_daemon.Errors.{GoError, Result, ok, err}
use gameserver_daemon.Ports.{
  ProjectScope, RunningServer, WorkloadSpec, WorkloadHealth, ServerRecord, WorkloadStatusUpdate,
}

-- runtime_adapter.go, over the state `R` of the backend. `Logs`, which opens a stream, is not here.
pub record RuntimeAdapter (R : Type 0) : Type 0 where
  pub ensure_project_scope : String → String → R → Result ProjectScope × R
  pub teardown_project_scope : String → R → Option GoError × R
  pub deploy : WorkloadSpec → R → Result RunningServer × R
  pub start : WorkloadSpec → R → Result RunningServer × R
  pub stop : String → String → R → Option GoError × R
  pub remove : String → String → R → Option GoError × R
  pub status : String → String → R → Result WorkloadHealth × R
  pub endpoint : String → String → R → Result String × R
  pub inject_file : String → String → String → String → String → String → R → Option GoError × R
  pub remove_file : String → String → String → String → String → R → Option GoError × R
  pub discover : R → Result (List ServerRecord) × R

-- server_repository.go, over the state `S` of the store.
pub record ServerRepository (S : Type 0) : Type 0 where
  pub save : ServerRecord → S → Option GoError × S
  pub find_by_id : String → S → Result ServerRecord
  pub update_status : String → String → S → Option GoError × S
  pub list_all : S → Result (List ServerRecord)

-- What the workers count on: a saved record is found under its id until it is written again, and a
-- status update changes the status of one record and nothing else.
pub record IsLawful {S : Type 0} (repo : ServerRepository S) : Type 0 where
  pub find-save :
      (r : ServerRecord) (s : S) (i : String)
      → (repo.save r s).0 ≡ none
      → repo.find_by_id i (repo.save r s).1 ≡ (if r.id == i then ok r else repo.find_by_id i s)
  pub find-update_status :
      (k status : String) (s : S) (r : ServerRecord) (i : String)
      → repo.find_by_id k s ≡ ok r
      → repo.find_by_id i (repo.update_status k status s).1
        ≡ (if k == i then ok (record r { status = status }) else repo.find_by_id i s)
  pub update_status_missing :
      (k status : String) (s : S) {e : GoError}
      → repo.find_by_id k s ≡ err e
      → ((repo.update_status k status s).0 ≢ none) × ((repo.update_status k status s).1 ≡ s)

-- What a worker acts on: the backend, the store, and what the platform has been told so far. The
-- workers log a failed report and go on, so the platform's answer changes nothing.
pub record World (R S : Type 0) : Type 0 where
  pub backend : R
  pub servers : S
  pub reports : List WorkloadStatusUpdate
