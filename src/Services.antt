-- ===== src/Services.antt =====
-- pkg/services: the endpoints of the Rosetta API, over the storage, the node and the converter.
pub mod Response
pub mod Account
pub mod Block
pub mod Mempool
pub mod Network
pub mod Failures
pub mod Tests
