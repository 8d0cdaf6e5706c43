-- ===== src/Core/Error.antt =====
-- crates/naatre-core/src/error.rs, and `PathError` of crates/naatre-core/src/path.rs.
use naatre.Prelude.{ℕ, Bytes}

-- The first rule that a path violates. `case_fold_duplicate a b` names two paths.
pub data PathError : Type 0 where
  empty absolute backslash nul_byte not_normalized component_slash : PathError
  control_char : ℕ → PathError
  component_invalid : ℕ → PathError
  component_too_long : ℕ → ℕ → PathError
  empty_component : ℕ → PathError
  too_many_components : ℕ → PathError
  too_long : ℕ → PathError
  reserved : Bytes → PathError
  case_fold_duplicate : Bytes → Bytes → PathError

pub data CoreError : Type 0 where
  encode_unsorted encode_too_many_parents encode_missing_blob encode_empty_changeset : CoreError
  encode_too_large encode_too_many_entries encode_unsorted_conflicts : CoreError
  encode_conflict_sides decode_conflict_sides decode_empty_conflict_section : CoreError
  encode_exec_on_dir decode_bad_magic decode_trailing_bytes decode_unexpected_eof : CoreError
  decode_too_large decode_invalid_utf8 decode_length_overflow : CoreError
  decode_invalid_tag : ℕ → CoreError
  author_char : ℕ → CoreError
  message_char : ℕ → CoreError
  path : PathError → CoreError
