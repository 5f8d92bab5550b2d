-- ===== src/Match.antt =====
-- The matching of calibration frames, src/match.
pub mod Calibration
