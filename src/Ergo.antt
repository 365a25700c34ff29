-- ===== src/Ergo.antt =====
-- pkg/ergo: the node's data types, the inputs that a block needs, and the node client.
pub mod Tests
pub mod Types
pub mod Constants
pub mod Inputs
pub mod Node
pub mod Client
