-- ===== src/Api.antt =====
-- src/api/: who may call the judge, and what comes of a call.
pub mod Auth
pub mod ResultBus
pub mod Handlers
pub mod Cluster
pub mod Router
pub mod Socket
pub mod Examples
