-- ===== src/Core/Changeset/Exact.antt =====
-- crates/naatre-core/src/changeset.rs: the input of a `decode` that succeeds. The children
-- are about the file changes, the conflicts and the whole frame.
pub mod Change
pub mod Conflicts
pub mod Whole
