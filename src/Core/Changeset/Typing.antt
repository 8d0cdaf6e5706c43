-- ===== src/Core/Changeset/Typing.antt =====
-- What the Rust types of crates/naatre-core/src/changeset.rs and conflict.rs say of their values:
-- a `String` is UTF-8, an `Id` has 32 bytes, a `u64` is below `2 ^ 64`.
use naatre.Prelude.{◌^◌, ◌<◌, ◌≡◌, true, Option, none, some, Bytes, IsBytes, All, length}
use naatre.Core.Utf8.{is_utf8}
use naatre.Core.Conflict.{ConflictRep}
use naatre.Core.Changeset.{FileChange, Changeset}

abbrev pub Each {ℓ} : {A : Type ℓ} → (A → Type 0) → Option A → Type 0
Each P none = Unit
Each P (some a) = P a

pub record IsText (s : Bytes) : Type 0 where
  pub bytes : IsBytes s
  pub valid : is_utf8 s ≡ true

pub record IsId (id : Bytes) : Type 0 where
  pub size : length id ≡ 32
  pub bytes : IsBytes id

pub record IsChange (c : FileChange) : Type 0 where
  pub path : IsText c.path
  pub blob : Each IsId c.blob
  pub size : Each (λ n. n < 2 ^ 64) c.size

pub record IsRep (r : ConflictRep) : Type 0 where
  pub path : IsText r.path
  pub base : Each IsId r.base
  pub sides : All IsId r.sides

pub record IsChangeset (cs : Changeset) : Type 0 where
  pub repo_id : cs.repo_id < 2 ^ 64
  pub parents : All IsId cs.parents
  pub author : IsText cs.author
  pub message : IsText cs.message
  pub timestamp_ns : cs.timestamp_ns < 2 ^ 64
  pub changes : All IsChange cs.changes
  pub conflicts : All IsRep cs.conflicts
