-- ===== src/LocoStore.antt =====
-- The authoritative store of locomotive states, pkgs/bigfred/dcc-bus/state/loco_store.go.
pub mod Store
pub mod Observations
pub mod Flushes
mod Tests
