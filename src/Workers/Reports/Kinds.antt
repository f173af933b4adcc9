-- ===== src/Workers/Reports/Kinds.antt =====
-- internal/workers: the five server handlers under one name.
use gameserver_daemon.Common.{String, Option}
use gameserver_daemon.Errors.{GoError, Result}
use gameserver_daemon.Jobs.{Job}
use gameserver_daemon.Ports.{WorkloadSpec}
use gameserver_daemon.Ports.Interfaces.{RuntimeAdapter, ServerRepository, World}
use gameserver_daemon.Workers.Reporting.{project_or_namespace, project_or_environment}
use gameserver_daemon.Workers.Provision
use gameserver_daemon.Workers.Start
use gameserver_daemon.Workers.Stop
use gameserver_daemon.Workers.Restart
use gameserver_daemon.Workers.Delete

pub data ServerJob : Type 0 where
  provision start stop restart delete : ServerJob

abbrev pub project_of : ServerJob → WorkloadSpec → String
project_of provision = project_or_namespace
project_of start = project_or_namespace
project_of stop = project_or_environment
project_of restart = project_or_environment
project_of delete = project_or_environment

-- What a handler says of a payload without a project.
abbrev pub refusal : ServerJob → String
refusal provision = "invalid payload: project_id or namespace_id is required"
refusal start = "invalid payload: project_id or namespace_id is required"
refusal _ = "invalid payload: project_id is required"

module _ {R S : Type 0} (runtime : RuntimeAdapter R) (repo : ServerRepository S) where
  -- What a handler does once it has its specification.
  abbrev pub act : ServerJob → WorkloadSpec → World R S → Option GoError × World R S
  act provision = Provision.provision runtime repo
  act start = Start.start runtime repo "start failed: "
  act stop = Stop.stop runtime repo
  act restart = Restart.restart runtime repo
  act delete = Delete.delete runtime repo

  abbrev pub handle :
      ServerJob → (String → Result WorkloadSpec) → Job → World R S → Option GoError × World R S
  handle provision = Provision.handle runtime repo
  handle start = Start.handle runtime repo
  handle stop = Stop.handle runtime repo
  handle restart = Restart.handle runtime repo
  handle delete = Delete.handle runtime repo
