-- ===== src/Pix.antt =====
-- The PixInsight bridge (src/pix).
pub mod Wbpp
