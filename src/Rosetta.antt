-- ===== src/Rosetta.antt =====
-- pkg/rosetta: from the node's blocks, transactions and peers to those of the Rosetta API.
pub mod Header
pub mod Converter
pub mod Tests
