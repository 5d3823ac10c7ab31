-- ===== src/Tests.antt =====
-- Runs of the code at concrete inputs, and the theorems applied to them.
pub mod Codec
pub mod Dispatch
pub mod Tables
pub mod Sessions
pub mod Connections
pub mod Frames
pub mod Server
