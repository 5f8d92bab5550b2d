-- ===== src/Daemon.antt =====
-- The daemon (src/daemon).
pub mod Config
