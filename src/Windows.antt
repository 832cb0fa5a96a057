-- ===== src/Windows.antt =====
-- The port to Windows, in win32/: its children stand in for the files of the same names above it.
pub mod Errors
pub mod Calls
pub mod Commands
pub mod Files
pub mod Listing
pub mod Handles
pub mod Lines
pub mod Mappings
pub mod Paths
pub mod Processes
pub mod Times
