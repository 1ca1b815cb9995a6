-- ===== src/Lease.antt =====
-- The drive leases of the server: server/repo/leases_redis.go and server/cmd/lease.go.
pub mod Redis
pub mod Store
pub mod Register
pub mod Service
pub mod Commands
pub mod Histories
pub mod Brake
pub mod Memory
mod Tests
