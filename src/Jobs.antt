-- ===== src/Jobs.antt =====
-- internal/workers/jobs/job.go: the unit of work that the platform queues for a node.
use gameserver_daemon.Common.{ℕ, String, Bool, Option, none, some, ltb}

-- A job type is a string on the wire, so that types without a handler exist too.
abbrev pub JobType : Type 0
JobType = String

abbrev pub server_provision : JobType
server_provision = "server.provision"

abbrev pub server_start : JobType
server_start = "server.start"

abbrev pub server_stop : JobType
server_stop = "server.stop"

abbrev pub server_delete : JobType
server_delete = "server.delete"

abbrev pub server_restart : JobType
server_restart = "server.restart"

abbrev pub mod_install : JobType
mod_install = "server.install_mod"

abbrev pub mod_uninstall : JobType
mod_uninstall = "server.uninstall_mod"

pub data JobStatus : Type 0 where
  pending processing completed failed : JobStatus

-- `payload` is the raw JSON text, `created_at` a Unix time. The counters start at 0 and grow, and
-- a negative bound, which acts as 0, is not distinguished from it.
pub record Job : Type 0 where
  pub job_id : String
  pub job_type : JobType
  pub resource_id : String
  pub payload : String
  pub status : JobStatus
  pub attempts : ℕ
  pub max_attempts : ℕ
  pub created_at : ℕ

-- `New`, given what `json.Marshal`, `newID` and `time.Now` answer.
unfoldable pub new_job : JobType → String → Option String → ℕ → String → ℕ → Option Job
new_job type resource none max id now = none
new_job type resource (some raw) max id now = some (record {
  job_id = id;
  job_type = type;
  resource_id = resource;
  payload = raw;
  status = pending;
  attempts = 0;
  max_attempts = max;
  created_at = now;
})

unfoldable pub can_retry : Job → Bool
can_retry j = ltb j.attempts j.max_attempts
