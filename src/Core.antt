-- ===== src/Core.antt =====
-- crates/naatre-core: object ids, canonical encodings, path grammar and validation.
pub mod Error
pub mod Words
pub mod Utf8
pub mod Cursor
pub mod Path
pub mod Text
pub mod Ids
pub mod Conflict
pub mod Changeset
pub mod Tree
mod Examples
mod TreeExamples
mod PathExamples
mod MarkerExamples
