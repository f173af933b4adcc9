-- ===== src/Kubernetes.antt =====
-- internal/adapters/out/runtime/kubernetes/kubernetes.go: the Kubernetes adapter.
pub mod Cluster
pub mod Objects
pub mod Setup
pub mod Operations
pub mod Authorized
pub mod Backend
pub mod Scaled
pub mod Deployed
pub mod Leftovers
pub mod Agones
