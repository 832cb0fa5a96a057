-- ===== src/Tests.antt =====
-- The theorems at concrete data, and runs of the code on it.
pub mod Data
pub mod Streams
pub mod Files
pub mod Buffers
pub mod Maps
pub mod Disk
pub mod System
pub mod Passes
pub mod Names
pub mod Clock
pub mod Runs
pub mod Processes
pub mod Windows
