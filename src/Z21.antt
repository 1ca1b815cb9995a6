-- ===== src/Z21.antt =====
-- The Z21 LAN protocol of dcc-bus, pkgs/bigfred/dcc-bus/z21server.
pub mod Protocol
pub mod Packets
pub mod Drive
pub mod Pom
pub mod Frames
mod Tests
