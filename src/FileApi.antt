-- ===== src/FileApi.antt =====
-- internal/adapters/in/fileapi/server.go: the HTTP API for the files of a workload.
pub mod Scope
pub mod Disk
pub mod Handlers
pub mod Archive
pub mod Upload
pub mod Export
pub mod Server
