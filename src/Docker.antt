-- ===== src/Docker.antt =====
-- internal/adapters/out/runtime/docker/docker.go: the runtime backend on a Docker engine.
pub mod Engine
pub mod Networks
pub mod Containers
pub mod Operations
pub mod Files
pub mod Authorized
pub mod Restored
pub mod Placed
pub mod Backend
pub mod Shared
pub mod Deployed
pub mod Scoped
pub mod Stats
pub mod Setup
