-- ===== src/Train.antt =====
-- The speeds of a train's members, pkgs/bigfred/dcc-bus/service/train_speed_scheduler.go.
pub mod Ramp
pub mod Scheduler
pub mod Steps
pub mod Fan
pub mod Jobs
mod Tests
