-- ===== src/Fits.antt =====
-- The readers of headers, src/fits.
pub mod Header
