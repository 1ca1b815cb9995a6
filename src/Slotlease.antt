-- ===== src/Slotlease.antt =====
-- The slot leaser of dcc-bus, pkgs/bigfred/dcc-bus/slotlease.
pub mod Types
pub mod Ledger
pub mod Release
pub mod Reserve
pub mod Select
pub mod Sweep
pub mod Untouched
pub mod Counts
pub mod Consistency
pub mod Grace
pub mod Headroom
pub mod Exhaustion
pub mod Calls
pub mod Stops
pub mod Expiry
pub mod Cap
pub mod Leak
pub mod SingleSession
pub mod Evicted
pub mod AtCap
mod Tests
