-- ===== src/Names.antt =====
-- Target names (src/names): the offline catalog form and the parts of the online lookup.
pub mod Canon
pub mod Sesame
