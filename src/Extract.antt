-- ===== src/Extract.antt =====
-- From headers to frames, src/extract.
pub mod Mapping
pub mod Defaults
pub mod Coord
pub mod Night
pub mod Resolver
