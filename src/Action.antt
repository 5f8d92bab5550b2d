-- ===== src/Action.antt =====
-- Actions on sets of frames (src/action).
pub mod Engine
