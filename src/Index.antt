-- ===== src/Index.antt =====
-- The index (src/index).
pub mod Equipment
pub mod Mapping
pub mod FrameStore
