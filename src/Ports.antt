-- ===== src/Ports.antt =====
-- internal/application/ports: the data that the parts of the daemon exchange.
pub mod Interfaces
use gameserver_daemon.Common.{ℕ, String, Bool, List}
use gameserver_daemon.Common.Int.{ℤ}
use gameserver_daemon.Common.Dict.{Dict}
use gameserver_daemon.Labels.{WorkloadLabels}

-- runtime_adapter.go
pub record ProjectScope : Type 0 where
  pub project_id : String
  pub project_slug : String
  pub network_name : String

-- workload.go
pub record RunningServer : Type 0 where
  pub labels : WorkloadLabels
  pub runtime_ref : String
  pub state : String

pub record PortRequirement : Type 0 where
  pub target_port : ℤ
  pub protocol : String

pub record ConfigFile : Type 0 where
  pub path : String
  pub content : String
  pub mode : String

pub record RuntimeHints : Type 0 where
  pub kubernetes_strategy : String
  pub expose_udp : Bool
  pub health_check_path : String
  pub health_check_port : ℤ
  pub persistent_storage : Bool
  pub storage_path : String
  pub storage_gb : ℤ

pub record WorkloadSpec : Type 0 where
  pub namespace_id : String
  pub namespace_slug : String
  pub owner_id : String
  pub owner_username : String
  pub server_id : String
  pub server_name : String
  pub blueprint_id : String
  pub environment_id : String
  pub project_id : String
  pub project_slug : String
  pub image : String
  pub command : String
  pub blueprint_version : String
  pub env_overrides : Dict String
  pub memory_bytes : ℤ
  pub cpu_millicores : ℤ
  pub port_requirements : List PortRequirement
  pub config_files : List ConfigFile
  pub runtime_hints : RuntimeHints

pub record ModInstallSpec : Type 0 where
  pub server_id : String
  pub project_id : String
  pub download_url : String
  pub file_name : String
  pub content_type : String
  pub storage_path : String

pub record ModUninstallSpec : Type 0 where
  pub server_id : String
  pub project_id : String
  pub file_name : String
  pub content_type : String
  pub storage_path : String

-- The four traffic fields are float64 numbers of MB in the source. Each is a whole number of bytes
-- divided by 2^20, which a float64 holds exactly below 2^53 bytes, so here they count bytes.
pub record WorkloadHealth : Type 0 where
  pub workload_id : String
  pub blueprint_id : String
  pub state : String
  pub cpu_millicores : ℕ
  pub memory_mb : ℕ
  pub network_rx : ℕ
  pub network_tx : ℕ
  pub disk_read : ℕ
  pub disk_write : ℕ

-- server_repository.go
pub record ServerRecord : Type 0 where
  pub id : String
  pub name : String
  pub address : String
  pub port : ℕ
  pub status : String
  pub node_id : String
  pub runtime : String
  pub runtime_ref : String
  pub project_id : String
  pub environment_id : String

-- workload_status_reporter.go
pub record WorkloadStatusUpdate : Type 0 where
  pub workload_id : String
  pub project_id : String
  pub status : String
  pub runtime_ref : String
  pub endpoint : String
  pub node_id : String
  pub error_message : String
  pub cpu_millicores : ℕ
  pub memory_mb : ℕ
  pub network_rx : ℕ
  pub network_tx : ℕ
  pub disk_read : ℕ
  pub disk_write : ℕ
