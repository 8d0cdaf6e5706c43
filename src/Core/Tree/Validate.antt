-- ===== src/Core/Tree/Validate.antt =====
-- crates/naatre-core/src/tree.rs: `validate` and `tree_id`.
use naatre.Prelude.{
  Bool, ◌&&◌, true, false, List, [], ◌∷◌, Bytes, Result, ok, bind, map, map_err, refuse_if, length,
  ltb,
}
use naatre.Core.Error
use naatre.Core.Error.{CoreError, encode_exec_on_dir, encode_too_many_entries}
use naatre.Core.Path
use naatre.Core.Path.{Unicode, check_case_fold_duplicates}
use naatre.Core.Ids
use naatre.Core.Ids.{object_id}
use naatre.Core.Conflict.{max_entries}
use naatre.Core.Tree.{EntryKind, file, dir, TreeEntry, Tree, encode}

unfoldable pub is_dir : EntryKind → Bool
is_dir dir = true
is_dir file = false

module _ (u : Unicode) where
  unfoldable pub validate_entries : List TreeEntry → Result CoreError (Unit {0})
  validate_entries [] = ok tt
  validate_entries (e ∷ es) =
      bind (map_err Error.path (Path.validate_component u e.name))
        λ _. bind (refuse_if (is_dir e.kind && e.exec) encode_exec_on_dir) λ _. validate_entries es

  unfoldable pub validate : Tree → Result CoreError (Unit {0})
  validate t = bind (validate_entries t.entries) λ _.
      bind (map_err Error.path (check_case_fold_duplicates u (map (λ e. e.name) t.entries)))
        λ _. refuse_if (ltb max_entries (length t.entries)) encode_too_many_entries

unfoldable pub tree_id : (Bytes → Bytes) → Tree → Result CoreError Bytes
tree_id blake3 t = bind (encode t) λ canonical. ok (object_id blake3 Ids.tree canonical)
