-- ===== src/Authority.antt =====
-- Who may drive: the server's rule, the controllers that it publishes, and the rule of dcc-bus.
pub mod Policies
pub mod Agreement
mod Tests
