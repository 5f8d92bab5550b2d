-- ===== src/Scan.antt =====
-- The scanner (src/scan).
pub mod BoundedQueue
