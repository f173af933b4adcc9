-- ===== src/Tests.antt =====
-- Concrete runs of the daemon's parts.
mod Data
mod QueueRuns
mod WorkerRuns
mod DockerRuns
mod LogRuns
mod PlatformRuns
mod LittleCluster
mod KubernetesRuns
mod SqliteRuns
mod StartRuns
mod RedisRuns
mod ServerRuns
mod StreamRuns
mod ReadinessRuns
mod FileRuns
mod ExportRuns
mod MetricsRuns
mod MigrationRuns
