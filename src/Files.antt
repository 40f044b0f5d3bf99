-- ===== src/Files.antt =====
-- bulk_import: the files that present items, and the counts and totals that they declare.
pub mod Nacha
