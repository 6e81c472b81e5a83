-- ===== src/Macros.antt =====
-- The procedural macros under macros/: the order in which they put the columns of an entity.
pub mod Columns
