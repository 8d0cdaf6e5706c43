-- ===== src/Server/TreeExamples.antt =====
-- Small trees of crates/naatre-server, changed and merged.
use naatre.Prelude.{
  ℕ, ◌≡◌, refl, true, false, none, some, List, [], ◌∷◌, Bytes, Result, ok, err, codes, ◌==◌,
  if◌then◌else◌,
}
use naatre.Core.Path
use naatre.Core.Path.{split, slash}
use naatre.Core.Conflict
use naatre.Core.Ids
use naatre.Core.Changeset.{FileChange, add, mod', del}
use naatre.Server.Examples.{by_position, pairwise, ascii, id_of, file_of}
use naatre.Server.TreeDerive
use naatre.Server.TreeDerive.{MemNode, no_entries, file_entry, dir_entry, ApplyError}
use naatre.Server.TreeDerive.Files.{file_at}
use naatre.Server.TreeDerive.Refused.{error_of, refused, apply_change-refused}
use naatre.Server.TreeDerive.Applied.{replay, apply-files}
use naatre.Server.Merge.Lines
use naatre.Server.Merge.PathConflict
use naatre.Server.Merge.Delta
use naatre.Server.Merge.Delta.{Files, get, keys, flatten_files}
use naatre.Server.Merge.Trees
use naatre.Server.Merge.Trees.{nothing_merged, MergeError, MergedTree, merge_files, merge_trees}
use naatre.Server.Merge.Trees.Step.{Resolved}
use naatre.Server.Merge.Trees.Whole.{merge_trees-Resolved}

abbrev base : MemNode
base =
    file_entry (codes "a") (file_of 1)
      (dir_entry (codes "d") (file_entry (codes "x") (file_of 2) no_entries) no_entries)

abbrev ours : MemNode
ours = file_entry (codes "a") (file_of 3) (
    dir_entry (codes "d")
      (file_entry (codes "x") (file_of 2) (file_entry (codes "y") (file_of 5) no_entries))
      no_entries)

abbrev theirs : MemNode
theirs = file_entry (codes "a") (file_of 4) no_entries

abbrev changes : List FileChange
changes =
    record { path = codes "a"; op = mod'; blob = some (id_of 3); size = some 3; exec = some false }
    ∷ record { path = codes "d/x"; op = del; blob = none; size = none; exec = none }
    ∷ record {
      path = codes "e/f";
      op = add;
      blob = some (id_of 4);
      size = some 4;
      exec = some true;
    }
    ∷ []

abbrev node_of : Result ApplyError MemNode → MemNode
node_of (ok node) = node
node_of (err e) = no_entries

abbrev changed : MemNode
changed = node_of (TreeDerive.apply base changes)

changed_ok : TreeDerive.apply base changes ≡ ok changed
unfolding Path.split Path.push_front TreeDerive.cons_entry TreeDerive.get_entry TreeDerive.put_entry
    TreeDerive.remove_entry TreeDerive.is_empty TreeDerive.split_last TreeDerive.split_leaf
    TreeDerive.lookup_in TreeDerive.lookup TreeDerive.insert_in TreeDerive.remove_in
    TreeDerive.insert_file TreeDerive.remove_file TreeDerive.meta_of TreeDerive.apply_write
    TreeDerive.apply_op TreeDerive.apply_change TreeDerive.apply
changed_ok = refl

apply-files_example :
    file_at changed (codes "d" ∷ codes "x" ∷ [])
    ≡ replay changes (codes "d" ∷ codes "x" ∷ []) (file_at base (codes "d" ∷ codes "x" ∷ []))
apply-files_example = apply-files base changes changed (codes "d" ∷ codes "x" ∷ []) changed_ok

-- An addition below a file.
abbrev below_file : FileChange
below_file = record {
  path = codes "a/b";
  op = add;
  blob = some (id_of 4);
  size = some 4;
  exec = some true;
}

apply_change-refused_example :
    error_of (TreeDerive.apply_change base below_file) ≡ refused base below_file
apply_change-refused_example = apply_change-refused base below_file

-- The contents by the first byte of the id.
abbrev stored : Bytes → Bytes
stored [] = []
stored (n ∷ id) = if n == 1 then codes "abc" else if n == 3 then codes "xbc" else codes "abc"

abbrev fetch_stored : Bytes → Result Bytes Bytes
fetch_stored id = ok (stored id)

-- A function of the right type in place of the hash.
abbrev same_bytes : Bytes → Bytes
same_bytes bytes = bytes

abbrev tree_of : Result MergeError MergedTree → MergedTree
tree_of (ok t) = t
tree_of (err e) = record { node = no_entries; new_blobs = []; input_ids = [] }

abbrev merged_tree : MergedTree
merged_tree = tree_of (merge_trees ascii same_bytes by_position fetch_stored base ours theirs)

merged_ok : merge_trees ascii same_bytes by_position fetch_stored base ours theirs ≡ ok merged_tree
unfolding Path.split Path.push_front TreeDerive.cons_entry TreeDerive.get_entry TreeDerive.put_entry
    TreeDerive.split_last TreeDerive.split_leaf TreeDerive.insert_in TreeDerive.insert_file
    TreeDerive.meta_of TreeDerive.apply_write TreeDerive.apply_op TreeDerive.apply_change
    TreeDerive.apply Conflict.bool_eq Ids.label Ids.framed Ids.object_id_in Ids.object_id
    Lines.overlaps Lines.is_insertion Lines.slice Lines.hunk_of Lines.hunks_of Lines.lines_eq
    Lines.clash Lines.clashes Lines.bool_lt Lines.key_lt Lines.insert_by_key Lines.sort_by_key
    Lines.is_duplicate Lines.apply_after Lines.apply Lines.concat Lines.tag_all Lines.merge_hunks
    Lines.merge_lines pairwise Delta.get Delta.insert_file Delta.join Delta.flatten_into
    Delta.flatten_files Delta.insert_path Delta.collect Delta.keys PathConflict.resolve_exec
    Trees.meta_eq Trees.entry_eq Trees.push_blob Trees.keep Trees.merged_meta Trees.merge_outcome
    Trees.merge_contents Trees.both_changed Trees.merge_path Trees.merge_paths Trees.merge_files
    Trees.build Trees.merge_trees_mode Trees.merge_trees
merged_ok = refl

merge_trees-Resolved_example :
    Resolved ascii same_bytes by_position fetch_stored
      (get (codes "a") (flatten_files base))
      (get (codes "a") (flatten_files ours))
      (get (codes "a") (flatten_files theirs))
      (file_at merged_tree.node (split (codes "a") slash))
merge_trees-Resolved_example =
    merge_trees-Resolved ascii same_bytes by_position fetch_stored base ours theirs merged_tree
      (codes "a") merged_ok

-- Ours modifies the one file, and theirs deletes it.
abbrev one_file : ℕ → Files
one_file n = (codes "a/b", file_of n) ∷ []
