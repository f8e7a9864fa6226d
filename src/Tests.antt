-- ===== src/Tests.antt =====
-- The theorems at concrete inputs.
mod Samples
mod Codec
mod Codecs
mod World
mod Json
mod Network
mod Arrivals
mod Live
mod Managers
mod Backends
mod Files
mod Events
mod Encryption
mod Graph
mod Signatures
mod Stores
mod Timeline
mod Branches
mod Progress
