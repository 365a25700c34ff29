-- ===== src/Indexer.antt =====
-- pkg/indexer: the wait table, the handlers of the syncer and the search for coins.
pub mod Storage
pub mod WaitTable
pub mod State
pub mod Handlers
pub mod Waiting
pub mod Fetching
pub mod Blocks
pub mod Genesis
pub mod Sync
pub mod Interleaving
pub mod Listeners
pub mod Released
pub mod Negative
pub mod Tests
