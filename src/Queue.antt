-- ===== src/Queue.antt =====
-- src/queue/ and the store that it shares with the gateway: the consumer of the job stream.
pub mod Redis
pub mod Consumer
pub mod Rounds
pub mod Publish
pub mod Retries
pub mod Report
pub mod Waits
pub mod Reclaim
pub mod Delivery
pub mod Entry
pub mod Orphans
pub mod Examples
