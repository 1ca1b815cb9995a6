-- ===== src/Interlocking.antt =====
-- Who staffs an interlocking: server/cmd/interlocking_occupancy.go with the sessions' table.
pub mod Sessions
pub mod Occupancy
pub mod Exclusive
pub mod Histories
pub mod Reads
mod Tests
