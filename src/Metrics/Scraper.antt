-- ===== src/Metrics/Scraper.antt =====
-- internal/metrics/scraper.go. The traffic counters count bytes, as in Ports, where the source has
-- float64 numbers of MB.
pub mod Laws
pub mod Runs
use gameserver_daemon.Common.{
  ℕ, ◌-◌, String, Bool, true, false, Option, none, some, List, [], ◌∷◌, ◌++◌, ◌==◌, ltb, ◌||◌, not,
  ◌&&◌, if◌then◌else◌,
}
use gameserver_daemon.Common.Dict.{Dict, lookup, insert}
use gameserver_daemon.Errors.{GoError, Result, ok, err}
use gameserver_daemon.Ports.{WorkloadHealth, ServerRecord, WorkloadStatusUpdate}
use gameserver_daemon.Ports.Interfaces.{RuntimeAdapter, ServerRepository}

-- `ioSnapshot`
pub record IoSnapshot : Type 0 where
  pub rx : ℕ
  pub tx : ℕ
  pub disk_r : ℕ
  pub disk_w : ℕ

abbrev pub no_snapshot : IoSnapshot
no_snapshot = record { rx = 0; tx = 0; disk_r = 0; disk_w = 0 }

-- What is left of a read of a missing key: Go's zero value.
unfoldable pub previous : Dict IoSnapshot → String → IoSnapshot
previous prev_io i = elim (lookup i prev_io) [ none ↦ no_snapshot | some s ↦ s ]

-- A counter's growth; a counter that fell has started anew, and counts from 0.
unfoldable pub delta : ℕ → ℕ → ℕ
delta now before = if ltb now before then now else now - before

abbrev pub snapshot : WorkloadHealth → IoSnapshot
snapshot h = record {
  rx = h.network_rx;
  tx = h.network_tx;
  disk_r = h.disk_read;
  disk_w = h.disk_write;
}

-- `mapDockerState`
unfoldable pub map_docker_state : String → String
map_docker_state s =
    if s == "running"
    then "running"
    else if s == "exited" || s == "dead"
    then "stopped"
    else if s == "created" || (s == "paused" || s == "restarting")
    then "pending"
    else if s == "removing"
    then "deleted"
    else "failed"

abbrev pub is_running : ServerRecord → Bool
is_running r = r.status == "Running" || r.status == "running"

-- The fields that the scraper does not set are the zero values.
unfoldable pub update_of :
    String → ServerRecord → WorkloadHealth → IoSnapshot → WorkloadStatusUpdate
unfolding delta map_docker_state
update_of node r h before = record {
  workload_id = r.id;
  project_id = r.project_id;
  status = map_docker_state h.state;
  runtime_ref = r.runtime_ref;
  endpoint = "";
  node_id = node;
  error_message = "";
  cpu_millicores = h.cpu_millicores;
  memory_mb = h.memory_mb;
  network_rx = delta h.network_rx before.rx;
  network_tx = delta h.network_tx before.tx;
  disk_read = delta h.disk_read before.disk_r;
  disk_write = delta h.disk_write before.disk_w;
}

abbrev pub scope_of : ServerRecord → String
scope_of r = if r.project_id == "" then r.environment_id else r.project_id

-- The scraper's memory, the surroundings, what the platform has been told, and the updates that it has
-- not taken: their reports have failed, which is only logged.
pub record Scraper (R : Type 0) : Type 0 where
  pub prev_io : Dict IoSnapshot
  pub backend : R
  pub reports : List WorkloadStatusUpdate
  pub dropped : List WorkloadStatusUpdate

-- Membership in `activeIDs`.
unfoldable pub is_active : String → List ServerRecord → Bool
is_active i [] = false
is_active i (r ∷ rs) = (is_running r && r.id == i) || is_active i rs

-- The clean-up: the snapshots of workloads that are no longer active go.
unfoldable pub prune : List ServerRecord → Dict IoSnapshot → Dict IoSnapshot
unfolding is_active
prune active [] = []
prune active ((i, s) ∷ d) =
    let rest = prune active d in if is_active i active then (i, s) ∷ rest else rest

-- `send` is `ReportStatus`.
module _ {R : Type 0} (runtime : RuntimeAdapter R)
    (send : WorkloadStatusUpdate → R → Option GoError × R) (node : String) where
  abbrev pub reported : WorkloadStatusUpdate → Option GoError × R → Scraper R → Scraper R
  reported u (none, b) s = record s { backend = b; reports = s.reports ++ u ∷ [] }
  reported u (some e, b) s = record s { backend = b; dropped = s.dropped ++ u ∷ [] }

  -- What follows the call of `Status` in the loop's body.
  abbrev pub record_status : ServerRecord → Result WorkloadHealth × R → Scraper R → Scraper R
  record_status r (err e, b) s = record s { backend = b }
  record_status r (ok h, b) s =
      let u = update_of node r h (previous s.prev_io r.id) in
      reported u (send u b) (record s { prev_io = insert r.id (snapshot h) s.prev_io })

  -- The body of the loop.
  unfoldable pub visit : ServerRecord → Scraper R → Scraper R
  unfolding update_of previous
  visit r s =
      if is_running r then record_status r (runtime.status (scope_of r) r.id s.backend) s else s

  unfoldable pub visit_all : List ServerRecord → Scraper R → Scraper R
  unfolding visit
  visit_all [] s = s
  visit_all (r ∷ rs) s = visit_all rs (visit r s)

  -- `scrape`, on the answer of `ListAll`.
  unfoldable pub scrape : Result (List ServerRecord) → Scraper R → Scraper R
  unfolding visit_all prune
  scrape (err e) s = s
  scrape (ok servers) s =
      let s' = visit_all servers s in record s' { prev_io = prune servers s'.prev_io }

  -- One turn of the loop of `Run`: what has happened to the backend since the last one, and what `ListAll`
  -- answers.
  pub record Turn : Type 0 where
    pub meanwhile : R → R
    pub listed : Result (List ServerRecord)

  abbrev pub moved_on : Turn → Scraper R → Scraper R
  moved_on t s = record s { backend = t.meanwhile s.backend }

  -- `Run`, until the context is done after these turns.
  unfoldable pub run : List Turn → Scraper R → Scraper R
  unfolding scrape
  run [] s = s
  run (t ∷ ts) s = run ts (scrape t.listed (moved_on t s))
