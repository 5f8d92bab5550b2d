-- ===== src/Fs.antt =====
-- File system information (src/util).
pub mod Mounts
