-- ===== src/Util.antt =====
-- src/util: what the server reads from its environment.
pub mod Config
pub mod Tests
