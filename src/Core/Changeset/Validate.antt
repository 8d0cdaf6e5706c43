-- ===== src/Core/Changeset/Validate.antt =====
-- crates/naatre-core/src/changeset.rs: `validate`, `check_text`, and the ids of changesets.
use naatre.Prelude.{
  ℕ, Bool, true, false, ◌&&◌, not, none, some, List, [], ◌∷◌, Bytes, Result, ok, err, bind, map,
  map_err, refuse_if, is_empty, length, ltb, ◌==◌,
}
use naatre.Core.Error
use naatre.Core.Error.{
  CoreError, encode_too_many_parents, encode_empty_changeset, encode_too_many_entries, author_char,
  message_char,
}
use naatre.Core.Utf8.{char_indices}
use naatre.Core.Path
use naatre.Core.Path.{Unicode, is_control, find_char, check_case_fold_duplicates}
use naatre.Core.Ids.{object_id, object_id_v2}
use naatre.Core.Ids
use naatre.Core.Conflict
use naatre.Core.Conflict.{max_entries}
use naatre.Core.Changeset.{FileChange, Changeset, encode, max_parents}

-- `(is_cc(c) || is_cf(c)) && c != '\n' && c != '\t'`
unfoldable pub forbidden : ℕ → Bool
forbidden c = is_control c && (not (c == 10) && not (c == 9))

-- `Err` of the index of the first forbidden character.
unfoldable pub check_text : Bytes → Result ℕ (Unit {0})
check_text s = elim (find_char forbidden (char_indices s)) [ some index ↦ err index | none ↦ ok tt ]

module _ (u : Unicode) where
  unfoldable pub validate_paths : List FileChange → Result CoreError (Unit {0})
  validate_paths [] = ok tt
  validate_paths (c ∷ cs) =
      bind (map_err Error.path (Path.validate u c.path)) λ _. validate_paths cs

  unfoldable pub validate : Changeset → Result CoreError (Unit {0})
  validate cs = bind (validate_paths cs.changes) λ _.
      bind (map_err Error.path (check_case_fold_duplicates u (map (λ c. c.path) cs.changes))) λ _.
        bind (map_err author_char (check_text cs.author)) λ _.
          bind (map_err message_char (check_text cs.message)) λ _.
            bind (refuse_if (ltb max_parents (length cs.parents)) encode_too_many_parents) λ _.
              bind (refuse_if (is_empty cs.changes && is_empty cs.conflicts) encode_empty_changeset)
                λ _.
                  bind (refuse_if (ltb max_entries (length cs.changes)) encode_too_many_entries)
                    λ _. Conflict.validate u cs.conflicts

module _ (blake3 : Bytes → Bytes) where
  unfoldable pub id_for_encoded : Bytes → Bool → Bytes
  id_for_encoded canonical true = object_id_v2 blake3 Ids.changeset canonical
  id_for_encoded canonical false = object_id blake3 Ids.changeset canonical

  unfoldable pub changeset_id : Unicode → Changeset → Result CoreError Bytes
  changeset_id u cs =
      bind (encode u cs) λ canonical. ok (id_for_encoded canonical (not (is_empty cs.conflicts)))
