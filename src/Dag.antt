-- ===== src/Dag.antt =====
-- dag/: the graph of signed nodes, its reads, checks and writes.
pub mod Node
pub mod Core
pub mod Verify
pub mod Write
pub mod Accept
pub mod Laws
pub mod Stored
pub mod Append
pub mod Names
pub mod Branches
pub mod Root
pub mod Path
pub mod Signing
pub mod Signed
pub mod Local
pub mod Progress
pub mod Open
pub mod History
pub mod Timelines
