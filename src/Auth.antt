-- ===== src/Auth.antt =====
-- Authentication (src/auth).
pub mod Password
