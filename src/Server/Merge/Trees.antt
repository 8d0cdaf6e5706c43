-- ===== src/Server/Merge/Trees.antt =====
-- crates/naatre-server/src/merge.rs: `merge_trees_mode`, the three-way merge of trees path by path, with
-- its two wrappers. `fetch` is the caller's `fetch_blob`, a function of the id here; an error that it
-- gives is the bytes of its message.
pub mod Step
pub mod Paths
pub mod Replayed
pub mod Whole
pub mod Touched
pub mod Kept
pub mod Recorded
pub mod Fetched
use naatre.Prelude.{
  ℕ, ◌*◌, Bool, true, false, ◌&&◌, not, Option, none, some, List, [], ◌∷◌, ◌++◌, map, Bytes, Result,
  ok, err, bind, map_err, length, is_empty, any, bytes_eq, ltb, ◌==◌, if◌then◌else◌,
}
use naatre.Core.Path.{Unicode}
use naatre.Core.Ids.{object_id}
use naatre.Core.Ids
use naatre.Core.Conflict.{ConflictRep, bool_eq}
use naatre.Core.Conflict.Markers.{marker_bytes}
use naatre.Core.Changeset.{FileChange, add}
use naatre.Server.TreeDerive
use naatre.Server.TreeDerive.{
  FileMeta, MemNode, no_entries, ApplyError, file_in_path, mod_not_file, del_not_file, too_deep,
}
use naatre.Server.Merge.Lines.{TextDiff, MergeOutcome, merged, conflict, merge_lines}
use naatre.Server.Merge.PathConflict.{PathConflict, content_rep, resolve_exec}
use naatre.Server.Merge.Delta.{Files, get, insert_file, keys, collect, flatten_files}

pub data OnConflict : Type 0 where
  refuse record' : OnConflict

-- `MergeError`, and a panic.
pub data MergeError : Type 0 where
  conflicts : List PathConflict → MergeError
  fetch_failed : Bytes → Bytes → MergeError
  panicked : MergeError

-- The variables of the loop over the paths.
pub record Merging : Type 0 where
  pub merged_files : Files
  pub new_blobs : List (Bytes × Bytes)
  pub input_ids : List Bytes
  pub oversized : List (Bytes × ℕ)
  pub refused : List PathConflict
  pub recorded : List PathConflict

abbrev pub nothing_merged : Merging
nothing_merged = record {
  merged_files = [];
  new_blobs = [];
  input_ids = [];
  oversized = [];
  refused = [];
  recorded = [];
}

pub record MergedTree : Type 0 where
  pub node : MemNode
  pub new_blobs : List (Bytes × Bytes)
  pub input_ids : List Bytes

pub record RecordedMerge : Type 0 where
  pub tree : MergedTree
  pub conflicts : List PathConflict
  pub oversized : List (Bytes × ℕ)

abbrev pub blob_limit : ℕ
blob_limit = 64 * 1024 * 1024

-- The derived `==` of `FileMeta` and of options of it.
unfoldable pub meta_eq : FileMeta → FileMeta → Bool
meta_eq a c = bytes_eq a.blob c.blob && ((a.size == c.size) && bool_eq a.exec c.exec)

unfoldable pub entry_eq : Option FileMeta → Option FileMeta → Bool
entry_eq none none = true
entry_eq none (some c) = false
entry_eq (some a) none = false
entry_eq (some a) (some c) = meta_eq a c

-- `if !new_blobs.iter().any(|(id, _)| *id == blob) { new_blobs.push((blob, bytes)) }`
unfoldable pub push_blob : Bytes → Bytes → List (Bytes × Bytes) → List (Bytes × Bytes)
push_blob blob bytes blobs =
    if any (λ b. bytes_eq b.0 blob) blobs then blobs else blobs ++ ((blob, bytes) ∷ [])

unfoldable pub keep : Bytes → Option FileMeta → Merging → Merging
keep path none st = st
keep path (some m) st = record st { merged_files = insert_file path m st.merged_files }

abbrev pub blob_of : Option FileMeta → Option Bytes
blob_of none = none
blob_of (some m) = some m.blob

abbrev pub exec_bit : Option FileMeta → Bool
exec_bit none = false
exec_bit (some m) = m.exec

-- The closure `conflict`.
unfoldable pub path_conflict : Bytes → (b o t : Option FileMeta) → PathConflict
path_conflict path b o t = record {
  path = path;
  base_blob = blob_of b;
  base_exec = exec_bit b;
  ours_blob = blob_of o;
  ours_exec = exec_bit o;
  theirs_blob = blob_of t;
  theirs_exec = exec_bit t;
}

abbrev pub known : Option Bytes → Bool → Option Bool
known none exec = none
known (some blob) exec = some exec

abbrev pub optional : Option Bytes → List Bytes
optional none = []
optional (some id) = id ∷ []

-- The addition of a merged file.
abbrev pub add_of : Bytes × FileMeta → FileChange
add_of f = record {
  path = f.0;
  op = add;
  blob = some f.1.blob;
  size = some f.1.size;
  exec = some f.1.exec;
}

abbrev failed_path : ApplyError → Bytes
failed_path (file_in_path path) = path
failed_path (mod_not_file path) = path
failed_path (del_not_file path) = path
failed_path (too_deep path) = path

module _ (u : Unicode) (blake3 : Bytes → Bytes) (from_lines : Bytes → Bytes → TextDiff)
    (fetch : Bytes → Result Bytes Bytes) where
  -- A fetch whose failure names the id.
  abbrev pub fetching : Bytes → Result MergeError Bytes
  fetching id = map_err (fetch_failed id) (fetch id)

  -- The marker file of a conflict, into the merged files: or its size, if it is over the limit.
  unfoldable pub record_marker : PathConflict → Bytes → Merging → Merging
  record_marker c bytes st =
      if ltb blob_limit (length bytes)
      then record st { oversized = st.oversized ++ ((c.path, length bytes) ∷ []) }
      else record st {
        new_blobs = push_blob (object_id blake3 Ids.blob bytes) bytes st.new_blobs;
        merged_files =
            insert_file c.path
              (record {
                blob = object_id blake3 Ids.blob bytes;
                size = length bytes;
                exec =
                    resolve_exec (known c.base_blob c.base_exec) (known c.ours_blob c.ours_exec)
                      (known c.theirs_blob c.theirs_exec);
              })
              st.merged_files;
        recorded = st.recorded ++ (c ∷ []);
      }

  unfoldable pub refuse_conflict : PathConflict → Merging → Merging
  refuse_conflict c st = record st { refused = st.refused ++ (c ∷ []) }

  unfoldable pub record_conflict : PathConflict → Merging → Result MergeError Merging
  record_conflict c st = elim (content_rep u c) [
    | none ↦ ok (refuse_conflict c st)
    | some rep ↦ bind (marker_bytes fetching rep) λ bytes. ok (
        record_marker c bytes
          (record st { input_ids = st.input_ids ++ (optional rep.base ++ rep.sides) }))
  ]

  unfoldable pub take_conflict : OnConflict → PathConflict → Merging → Result MergeError Merging
  take_conflict refuse c st = ok (refuse_conflict c st)
  take_conflict record' c st = record_conflict c st

  -- The file of a clean line merge.
  unfoldable pub merged_meta : Bytes → (bm om tm : FileMeta) → FileMeta
  merged_meta bytes bm om tm = record {
    blob = object_id blake3 Ids.blob bytes;
    size = length bytes;
    exec = resolve_exec (some bm.exec) (some om.exec) (some tm.exec);
  }

  unfoldable pub merge_outcome :
      OnConflict
      → Bytes
      → (bm om tm : FileMeta) → Merging
      → Option MergeOutcome
      → Result MergeError Merging
  merge_outcome on path bm om tm st none = err panicked
  merge_outcome on path bm om tm st (some conflict) =
      take_conflict on (path_conflict path (some bm) (some om) (some tm)) st
  merge_outcome on path bm om tm st (some (merged bytes)) = ok (record st {
    new_blobs = push_blob (object_id blake3 Ids.blob bytes) bytes st.new_blobs;
    merged_files = insert_file path (merged_meta bytes bm om tm) st.merged_files;
  })

  -- All three have the path: the contents are merged line by line.
  unfoldable pub merge_contents :
      OnConflict → Bytes → (bm om tm : FileMeta) → Merging → Result MergeError Merging
  merge_contents on path bm om tm st = bind (fetching bm.blob) λ base.
      bind (fetching om.blob) λ ours. bind (fetching tm.blob) λ theirs.
        merge_outcome on path bm om tm
          (record st { input_ids = st.input_ids ++ (bm.blob ∷ om.blob ∷ tm.blob ∷ []) })
          (merge_lines from_lines base ours theirs)

  -- Both sides changed the path, differently.
  unfoldable pub both_changed :
      OnConflict → Bytes → (b o t : Option FileMeta) → Merging → Result MergeError Merging
  both_changed on path (some bm) (some om) (some tm) st = merge_contents on path bm om tm st
  both_changed on path none (some om) (some tm) st =
      take_conflict on (path_conflict path none (some om) (some tm)) st
  both_changed on path (some bm) none (some tm) st =
      take_conflict on (path_conflict path (some bm) none (some tm)) st
  both_changed on path (some bm) (some om) none st =
      take_conflict on (path_conflict path (some bm) (some om) none) st
  both_changed on path none none t st = err panicked
  both_changed on path none (some om) none st = err panicked
  both_changed on path (some bm) none none st = err panicked

  -- The decision table.
  unfoldable pub merge_path :
      OnConflict → Bytes → (b o t : Option FileMeta) → Merging → Result MergeError Merging
  merge_path on path b o t st =
      if entry_eq o t
      then ok (keep path o st)
      else if entry_eq o b
      then ok (keep path t st)
      else if entry_eq t b
      then ok (keep path o st)
      else both_changed on path b o t st

  unfoldable pub merge_paths :
      OnConflict → (base ours theirs : Files) → List Bytes → Merging → Result MergeError Merging
  merge_paths on base ours theirs [] st = ok st
  merge_paths on base ours theirs (p ∷ ps) st =
      bind (merge_path on p (get p base) (get p ours) (get p theirs) st)
        λ st'. merge_paths on base ours theirs ps st'

  unfoldable pub merge_files : OnConflict → (base ours theirs : Files) → Result MergeError Merging
  merge_files on base ours theirs =
      merge_paths on base ours theirs (collect (keys base ++ (keys ours ++ keys theirs)))
        nothing_merged

  abbrev pub built : Merging → Result ApplyError MemNode → Result MergeError (MergedTree × Merging)
  built st (err e) = err (conflicts (path_conflict (failed_path e) none none none ∷ []))
  built st (ok node) =
      ok (record { node = node; new_blobs = st.new_blobs; input_ids = st.input_ids }, st)

  -- The tree of the merged files, or the conflicts.
  unfoldable pub build : Merging → Result MergeError (MergedTree × Merging)
  build st =
      if not (is_empty st.refused)
      then err (conflicts st.refused)
      else built st (TreeDerive.apply no_entries (map add_of st.merged_files))

  unfoldable pub merge_trees_mode :
      (base ours theirs : MemNode) → OnConflict → Result MergeError (MergedTree × Merging)
  merge_trees_mode base ours theirs on =
      bind (merge_files on (flatten_files base) (flatten_files ours) (flatten_files theirs)) build

  unfoldable pub merge_trees : (base ours theirs : MemNode) → Result MergeError MergedTree
  merge_trees base ours theirs = bind (merge_trees_mode base ours theirs refuse) λ r. ok r.0

  unfoldable pub merge_trees_recording :
      (base ours theirs : MemNode) → Result MergeError RecordedMerge
  merge_trees_recording base ours theirs =
      bind (merge_trees_mode base ours theirs record')
        λ r. ok (record { tree = r.0; conflicts = r.1.recorded; oversized = r.1.oversized })
