-- ===== src/Server/Land/Rebase.antt =====
-- crates/naatre-server/src/land.rs: the rebase of one changeset of the chain onto the evolving tip.
use naatre.Prelude.{
  ℕ, suc, Bool, true, false, ◌&&◌, not, Option, none, some, List, [], ◌∷◌, ◌++◌, map, Bytes, Result,
  ok, err, bind, ok_or, map_err, refuse_if, is_empty, length, bytes_eq, bytes_lt, if◌then◌else◌,
}
use naatre.Core.Error.{CoreError, encode_too_large}
use naatre.Core.Path.{Unicode}
use naatre.Core.Ids.{object_id, to_hex}
use naatre.Core.Ids
use naatre.Core.Conflict.{ConflictRep, carry}
use naatre.Core.Changeset.{FileChange, Changeset, encode, is_del}
use naatre.Core.Changeset.Validate.{id_for_encoded}
use naatre.Server.TreeDerive.{MemNode, no_entries}
use naatre.Server.TreeDerive.Collect.{Collected}
use naatre.Server.TreeDerive.Collect
use naatre.Server.Merge.Lines.{TextDiff}
use naatre.Server.Merge.PathConflict.{PathConflict, content_rep}
use naatre.Server.Merge.Delta.{delta_between}
use naatre.Server.Merge.Delta
use naatre.Server.Merge.Trees.{
  MergeError, conflicts, fetch_failed, MergedTree, RecordedMerge, merge_trees,
  merge_trees_recording, optional,
}
use naatre.Server.Merge.Trees
use naatre.Server.Land.{
  ChangesetRow, LandError, internal, too_large, out_of_steps, changeset_redacted, blob_redacted,
  path_conflicts, LandCommand, Tables, find, contains, redactions_active_among, load_tree,
  conflicts_in,
}
use naatre.Server.Land

-- The variables of the loop over the chain. A generation is an `i64`, which counts up from 0 and does not
-- come to wrap.
pub record Rebasing : Type 0 where
  pub tip_id : Bytes
  pub tip_gen : ℕ
  pub tip_tree : MemNode
  pub rebased : ℕ
  pub written_blobs : List Bytes
  pub tables : Tables

-- `cas.get`: the message of a failure, which is only logged, is left empty.
unfoldable pub fetch_blob : List (Bytes × Bytes) → Bytes → Result Bytes Bytes
fetch_blob cas id = ok_or (find id cas) []

unfoldable pub merge_error : Tables → MergeError → LandError
merge_error t (conflicts cs) = path_conflicts cs
merge_error t (fetch_failed id cause) =
    if contains id (redactions_active_among t (id ∷ [])) then blob_redacted id 0 else internal
merge_error t Trees.panicked = Land.panicked

abbrev pub encode_error : CoreError → LandError
encode_error encode_too_large = too_large
encode_error e = internal

-- The parent's tree, or the empty one.
unfoldable pub parent_tree : Tables → List Bytes → Result LandError MemNode
parent_tree t [] = ok no_entries
parent_tree t (p ∷ ps) =
    bind (ok_or (find p t.changesets) internal)
      λ (row : ChangesetRow). load_tree t.trees row.root_tree_id

-- The least by hex text.
unfoldable pub least_hex : Bytes → List Bytes → Bytes
least_hex id [] = id
least_hex id (i ∷ is) =
    let least = least_hex id is in if bytes_lt (to_hex i) (to_hex least) then i else least

-- The blobs of additions and modifications, each once.
unfoldable pub push_change : List Bytes → FileChange → List Bytes
push_change blobs c = elim c.blob [
  | none ↦ blobs
  | some blob ↦
      if not (is_del c.op) && not (contains blob blobs) then blobs ++ (blob ∷ []) else blobs
]

unfoldable pub change_blobs : List Bytes → List FileChange → List Bytes
change_blobs blobs [] = blobs
change_blobs blobs (c ∷ cs) = change_blobs (push_change blobs c) cs

unfoldable pub rep_ids : List ConflictRep → List Bytes
rep_ids [] = []
rep_ids (r ∷ rs) = optional r.base ++ (r.sides ++ rep_ids rs)

-- The ids that must not be redacted, in order and each once.
unfoldable pub gate_ids : Changeset → MergedTree → Bytes → List Bytes
gate_ids cs merged new_id = Delta.collect (
    change_blobs [] cs.changes
    ++ (map (λ b. b.0) merged.new_blobs
        ++ (merged.input_ids ++ (rep_ids cs.conflicts ++ (new_id ∷ [])))))

abbrev pub others : List Bytes → Result LandError (Unit {0})
others [] = ok tt
others (id ∷ ids) = err (blob_redacted (least_hex id ids) (length ids))

-- The tombstone gate.
unfoldable pub gate : Tables → Changeset → MergedTree → Bytes → Result LandError (Unit {0})
gate t cs merged new_id =
    let offenders = redactions_active_among t (gate_ids cs merged new_id) in
    if contains new_id offenders then err (changeset_redacted new_id) else others offenders

-- A tree's rows, unless they are there.
unfoldable pub write_tree : Bytes → MemNode → List (Bytes × MemNode) → List (Bytes × MemNode)
write_tree root node trees = elim (find root trees) [
  | none ↦ (root, node) ∷ trees
  | some old ↦ trees
]

-- `INSERT INTO changesets`: an error for an id that has a row.
unfoldable pub changeset_insert_rows :
    Bytes → ChangesetRow → (root : Bytes) → MemNode → Tables → Result LandError Tables
changeset_insert_rows id row root node t = elim (find id t.changesets) [
  | some old ↦ err internal
  | none ↦
      ok (record t { changesets = (id, row) ∷ t.changesets; trees = write_tree root node t.trees })
]

module _ (u : Unicode) (blake3 : Bytes → Bytes) (from_lines : Bytes → Bytes → TextDiff) where
  abbrev pub recording_done : RecordedMerge → Result LandError (MergedTree × List PathConflict)
  recording_done r = if is_empty r.oversized then ok (r.tree, r.conflicts) else err too_large

  -- The three-way merge, in the mode that the land asks for.
  unfoldable pub merge_node :
      Bool
      → Tables
      → (base ours theirs : MemNode) → Result LandError (MergedTree × List PathConflict)
  merge_node true t base ours theirs =
      bind
        (map_err (merge_error t)
          (merge_trees_recording u blake3 from_lines (fetch_blob t.cas) base ours theirs))
        recording_done
  merge_node false t base ours theirs =
      bind
        (map_err (merge_error t)
          (merge_trees u blake3 from_lines (fetch_blob t.cas) base ours theirs))
        λ merged. ok (merged, [])

  -- `content_rep(c).expect(…)` of each
  unfoldable pub new_reps : List PathConflict → Result LandError (List ConflictRep)
  new_reps [] = ok []
  new_reps (c ∷ cs) =
      bind (ok_or (content_rep u c) Land.panicked) λ rep. bind (new_reps cs) λ reps. ok (rep ∷ reps)

  -- The merged contents go into the store, each once, under the id of their bytes.
  unfoldable pub put_blobs : List (Bytes × Bytes) → Rebasing → Result LandError Rebasing
  put_blobs [] st = ok st
  put_blobs ((id, bytes) ∷ blobs) st =
      if contains id st.written_blobs
      then put_blobs blobs st
      else bind (refuse_if (not (bytes_eq (object_id blake3 Ids.blob bytes) id)) internal) λ _.
        put_blobs blobs (record st {
          written_blobs = st.written_blobs ++ (id ∷ []);
          tables = record st.tables { cas = (id, bytes) ∷ st.tables.cas };
        })

  abbrev pub collected : Option (Result CoreError Collected) → Result LandError Collected
  collected none = err out_of_steps
  collected (some r) = map_err encode_error r

  -- The new row of a rebased changeset.
  unfoldable pub row_of : LandCommand → Changeset → Bytes → ℕ → Bytes → ChangesetRow
  row_of cmd cs canonical generation root = record {
    canonical = canonical;
    author = cs.author;
    message = cs.message;
    timestamp_ns = cs.timestamp_ns;
    generation = generation;
    principal = cmd.principal;
    root_tree_id = some root;
    parents = cs.parents;
    changes = cs.changes;
  }

  unfoldable pub insert_node :
      LandCommand
      → Changeset
      → (canonical new_id : Bytes) → MemNode
      → Rebasing
      → Result LandError Rebasing
  insert_node cmd cs canonical new_id node st = bind (collected (Collect.collect blake3 node)) λ r.
      bind
        (changeset_insert_rows new_id (row_of cmd cs canonical (suc st.tip_gen) r.0) r.0 node
          st.tables)
        λ t. ok (record st {
          tip_id = new_id;
          tip_gen = suc st.tip_gen;
          tip_tree = node;
          rebased = suc st.rebased;
          tables = t;
        })

  -- A changeset that is already on top of the tip is adopted.
  unfoldable pub adopt_or_insert :
      LandCommand
      → (node : Bytes) (node_tree : MemNode) → Changeset
      → (canonical new_id : Bytes) → MemNode
      → Rebasing
      → Result LandError Rebasing
  adopt_or_insert cmd node node_tree cs canonical new_id merged st =
      if bytes_eq new_id node
      then ok (record st { tip_id = node; tip_tree = node_tree })
      else insert_node cmd cs canonical new_id merged st

  unfoldable pub write_node :
      LandCommand
      → (node : Bytes) (node_tree : MemNode) → Changeset
      → MergedTree
      → Rebasing
      → Result LandError Rebasing
  write_node cmd node node_tree cs merged st =
      bind (map_err encode_error (encode u cs)) λ canonical.
        let new_id = id_for_encoded blake3 canonical (not (is_empty cs.conflicts)) in
        bind (gate st.tables cs merged new_id) λ _.
          bind (put_blobs merged.new_blobs st)
            λ st₁. adopt_or_insert cmd node node_tree cs canonical new_id merged.node st₁

  unfoldable pub rebased_of :
      LandCommand → ChangesetRow → Rebasing → MergedTree → List ConflictRep → Changeset
  rebased_of cmd row st merged reps = record {
    repo_id = cmd.repo_id;
    parents = st.tip_id ∷ [];
    author = row.author;
    message = row.message;
    timestamp_ns = row.timestamp_ns;
    changes = delta_between st.tip_tree merged.node;
    conflicts = reps;
  }

  -- A changeset without changes or conflicts is dropped.
  unfoldable pub record_node :
      LandCommand
      → (node : Bytes) (node_tree : MemNode) → ChangesetRow
      → MergedTree
      → List ConflictRep
      → Rebasing
      → Result LandError Rebasing
  record_node cmd node node_tree row merged reps st =
      let cs = rebased_of cmd row st merged reps in
      if is_empty cs.changes && is_empty cs.conflicts
      then ok st
      else write_node cmd node node_tree cs merged st

  unfoldable pub rebase_node : LandCommand → Bytes → Rebasing → Result LandError Rebasing
  rebase_node cmd node st = bind (ok_or (find node st.tables.changesets) internal) λ row.
      bind (load_tree st.tables.trees row.root_tree_id) λ node_tree.
        bind (parent_tree st.tables row.parents) λ base_tree.
          bind (conflicts_in row.canonical) λ node_reps.
            bind (merge_node cmd.record_conflict st.tables base_tree st.tip_tree node_tree) λ m.
              bind (new_reps m.1)
                λ reps. record_node cmd node node_tree row m.0 (carry node_reps reps) st

  unfoldable pub rebase_chain : LandCommand → List Bytes → Rebasing → Result LandError Rebasing
  rebase_chain cmd [] st = ok st
  rebase_chain cmd (node ∷ chain) st =
      bind (rebase_node cmd node st) λ st₁. rebase_chain cmd chain st₁
