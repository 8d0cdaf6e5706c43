-- ===== src/Server/Land/Returns/Node.antt =====
-- crates/naatre-server/src/land.rs: the rebase of a changeset does not run out of fuel.
use naatre.Prelude.{
  refl, Bool, true, false, ◌&&◌, not, List, [], ◌∷◌, Bytes, ok, ok_or, map_err, refuse_if, bytes_eq,
  is_empty, Option-cases, inl, inr,
}
use naatre.Core.Path.{Unicode}
use naatre.Core.Ids.{object_id, from_hex}
use naatre.Core.Ids
use naatre.Core.Conflict.{ConflictRep, carry}
use naatre.Core.Changeset.{Changeset, encode}
use naatre.Core.Changeset.Validate.{id_for_encoded}
use naatre.Server.TreeDerive.{MemNode}
use naatre.Server.TreeDerive.Collect
use naatre.Server.TreeDerive.Collect.{collect-collect_from, collect_from}
use naatre.Server.Merge.Lines.{TextDiff}
use naatre.Server.Merge.PathConflict.{PathConflict, content_rep}
use naatre.Server.Merge.Trees.{MergedTree, merge_trees, merge_trees_recording}
use naatre.Server.Land
use naatre.Server.Land.{
  ChangesetRow, ChangesetRows, CsGraph, LandError, internal, writer_busy, no_main, not_found,
  no_shared_history, too_large, main_moved, panicked, out_of_steps, key_settled, redacted_base,
  forbidden, changeset_redacted, blob_redacted, path_conflicts, LandCommand, LandRow, Tables, find,
  contains, redaction_active, redactions_active_among, changeset_graph, file_changes_list,
  and_then_id, load_tree, conflicts_in, rep_paths_of, main_cas_move, land_insert_pending, put_land,
}
use naatre.Server.Land.Rebase.{
  Rebasing, fetch_blob, merge_error, encode_error, parent_tree, others, gate, gate_ids,
  changeset_insert_rows, merge_node, new_reps, put_blobs, collected, insert_node, adopt_or_insert,
  write_node, rebased_of, record_node, rebase_node, rebase_chain,
}
use naatre.Server.Land.Returns.{
  Ran, bind-Ran, ok_or-Ran, refuse_if-Ran, map_err-Ran, if-Ran, encode_error-runs, merge_error-runs,
  load_tree-Ran, conflicts_in-Ran,
}

parent_tree-Ran : (t : Tables) (ps : List Bytes) → Ran (parent_tree t ps)
unfolding parent_tree
parent_tree-Ran t [] = refl
parent_tree-Ran t (p ∷ ps) =
    bind-Ran (ok_or (find p t.changesets) internal) _
      (ok_or-Ran (find p t.changesets) internal refl)
      λ row e. load_tree-Ran t.trees row.root_tree_id

others-Ran : (ids : List Bytes) → Ran (others ids)
others-Ran [] = refl
others-Ran (id ∷ ids) = refl

gate-Ran :
    (t : Tables) (cs : Changeset) (merged : MergedTree) (id : Bytes) → Ran (gate t cs merged id)
unfolding gate
gate-Ran t cs merged id =
    if-Ran (contains id (redactions_active_among t (gate_ids cs merged id))) _ _ refl
      (others-Ran (redactions_active_among t (gate_ids cs merged id)))

insert_rows-Ran :
    (id : Bytes) (row : ChangesetRow) (root : Bytes) (node : MemNode) (t : Tables)
    → Ran (changeset_insert_rows id row root node t)
unfolding changeset_insert_rows
insert_rows-Ran id row root node t = elim (Option-cases (find id t.changesets)) [
  | inl e ↦ cc
  | inr (old, e) ↦ cc
]

module _ (u : Unicode) (blake3 : Bytes → Bytes) (from_lines : Bytes → Bytes → TextDiff) where
  merge_node-Ran :
      (recording : Bool) (t : Tables) (base ours theirs : MemNode)
      → Ran (merge_node u blake3 from_lines recording t base ours theirs)
  unfolding merge_node
  merge_node-Ran true t base ours theirs =
      bind-Ran _ _
        (map_err-Ran (merge_error t)
          (merge_trees_recording u blake3 from_lines (fetch_blob t.cas) base ours theirs)
          (merge_error-runs t))
        λ r e. if-Ran (is_empty r.oversized) _ _ refl refl
  merge_node-Ran false t base ours theirs =
      bind-Ran _ _
        (map_err-Ran (merge_error t)
          (merge_trees u blake3 from_lines (fetch_blob t.cas) base ours theirs)
          (merge_error-runs t))
        λ merged e. refl

  new_reps-Ran : (cs : List PathConflict) → Ran (new_reps u blake3 from_lines cs)
  unfolding new_reps
  new_reps-Ran [] = refl
  new_reps-Ran (c ∷ cs) =
      bind-Ran (ok_or (content_rep u c) Land.panicked) _
        (ok_or-Ran (content_rep u c) Land.panicked refl)
        λ rep e. bind-Ran (new_reps u blake3 from_lines cs) _ (new_reps-Ran cs) λ reps e₁. refl

  put_blobs-Ran :
      (blobs : List (Bytes × Bytes)) (st : Rebasing) → Ran (put_blobs u blake3 from_lines blobs st)
  unfolding put_blobs
  put_blobs-Ran [] st = refl
  put_blobs-Ran ((id, bytes) ∷ blobs) st =
      if-Ran (contains id st.written_blobs) _ _ (put_blobs-Ran blobs st) (
        bind-Ran (refuse_if (not (bytes_eq (object_id blake3 Ids.blob bytes) id)) internal) _
          (refuse_if-Ran (not (bytes_eq (object_id blake3 Ids.blob bytes) id)) internal refl)
          λ u₁ e. put_blobs-Ran blobs _)

  -- The loop of `collect` has enough rounds.
  collected-Ran :
      (node : MemNode) → Ran (collected u blake3 from_lines (Collect.collect blake3 node))
  collected-Ran node =
      rw (collect-collect_from blake3 node)
        (map_err-Ran encode_error (collect_from blake3 node [] 0 []) encode_error-runs)

  insert_node-Ran :
      (cmd : LandCommand) (cs : Changeset) (canonical id : Bytes) (node : MemNode) (st : Rebasing)
      → Ran (insert_node u blake3 from_lines cmd cs canonical id node st)
  unfolding insert_node
  insert_node-Ran cmd cs canonical id node st =
      bind-Ran (collected u blake3 from_lines (Collect.collect blake3 node)) _ (collected-Ran node)
        λ r e. bind-Ran _ _ (insert_rows-Ran id _ r.0 node st.tables) λ t e₁. refl

  write_node-Ran :
      (cmd : LandCommand) (node : Bytes) (node_tree : MemNode) (cs : Changeset)
      (merged : MergedTree) (st : Rebasing)
      → Ran (write_node u blake3 from_lines cmd node node_tree cs merged st)
  unfolding write_node adopt_or_insert
  write_node-Ran cmd node node_tree cs merged st =
      bind-Ran (map_err encode_error (encode u cs)) _
        (map_err-Ran encode_error (encode u cs) encode_error-runs)
        λ canonical e.
          let new_id = id_for_encoded blake3 canonical (not (is_empty cs.conflicts)) in
          bind-Ran (gate st.tables cs merged new_id) _ (gate-Ran st.tables cs merged new_id)
            λ u₁ e₁.
              bind-Ran (put_blobs u blake3 from_lines merged.new_blobs st) _
                (put_blobs-Ran merged.new_blobs st)
                λ st₁ e₂.
                  if-Ran (bytes_eq new_id node) _ _ refl
                    (insert_node-Ran cmd cs canonical new_id merged.node st₁)

  record_node-Ran :
      (cmd : LandCommand) (node : Bytes) (node_tree : MemNode) (row : ChangesetRow)
      (merged : MergedTree) (reps : List ConflictRep) (st : Rebasing)
      → Ran (record_node u blake3 from_lines cmd node node_tree row merged reps st)
  unfolding record_node
  record_node-Ran cmd node node_tree row merged reps st =
      let cs = rebased_of u blake3 from_lines cmd row st merged reps in
      if-Ran (is_empty cs.changes && is_empty cs.conflicts) (ok st)
        (write_node u blake3 from_lines cmd node node_tree cs merged st) refl
        (write_node-Ran cmd node node_tree cs merged st)

  rebase_node-Ran :
      (cmd : LandCommand) (node : Bytes) (st : Rebasing)
      → Ran (rebase_node u blake3 from_lines cmd node st)
  unfolding rebase_node
  rebase_node-Ran cmd node st =
      bind-Ran (ok_or (find node st.tables.changesets) internal) _
        (ok_or-Ran (find node st.tables.changesets) internal refl)
        λ row e. bind-Ran _ _ (load_tree-Ran st.tables.trees row.root_tree_id) λ node_tree e₁.
          bind-Ran _ _ (parent_tree-Ran st.tables row.parents) λ base_tree e₂.
            bind-Ran _ _ (conflicts_in-Ran row.canonical) λ old e₃.
              bind-Ran _ _
                (merge_node-Ran cmd.record_conflict st.tables base_tree st.tip_tree node_tree)
                λ m e₄.
                  bind-Ran _ _ (new_reps-Ran m.1)
                    λ reps e₅. record_node-Ran cmd node node_tree row m.0 (carry old reps) st

  pub rebase_chain-Ran :
      (cmd : LandCommand) (chain : List Bytes) (st : Rebasing)
      → Ran (rebase_chain u blake3 from_lines cmd chain st)
  unfolding rebase_chain
  rebase_chain-Ran cmd [] st = refl
  rebase_chain-Ran cmd (node ∷ chain) st =
      bind-Ran (rebase_node u blake3 from_lines cmd node st) _ (rebase_node-Ran cmd node st)
        λ st₁ e. rebase_chain-Ran cmd chain st₁
