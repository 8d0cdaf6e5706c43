-- ===== src/Server/Merge.antt =====
-- crates/naatre-server/src/merge.rs: three-way merge of texts and of trees.
pub mod Lines
pub mod PathConflict
pub mod Delta
pub mod Trees
