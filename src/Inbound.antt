-- ===== src/Inbound.antt =====
-- The registry of inbound handsets, pkgs/bigfred/remotes/inbound.
pub mod Types
pub mod Registry
pub mod Index
pub mod Calls
pub mod Queues
pub mod Operations
pub mod Methods
pub mod Histories
pub mod Eviction
pub mod Seen
pub mod Driving
mod Tests
