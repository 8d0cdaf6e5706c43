-- ===== src/Server/Land/Returns.antt =====
-- crates/naatre-server/src/land.rs: no loop of a land runs out of fuel.
pub mod Node
pub mod Whole
use naatre.Prelude.{
  ℕ, zero, suc, ◌+◌, ◌≤◌, ◌<◌, ◌≡◌, ◌≢◌, refl, sym, ap, ◌∙◌, subst, arith, Bool, true, false, ◌||◌,
  not, map, Option, none, some, List, [], ◌∷◌, Bytes, Result, ok, err, bind, bind-eq-ok, ok_or,
  map_err, refuse_if, bytes_eq, bytes_eq→eq, is_empty, Bool-cases, Option-cases, inl, inr,
  if◌then◌else◌,
}
use naatre.Core.Error.{CoreError, encode_too_large}
use naatre.Core.Path.{Unicode}
use naatre.Core.Ids.{object_id, from_hex}
use naatre.Core.Ids
use naatre.Core.Conflict.{ConflictRep, carry}
use naatre.Core.Changeset.{Changeset, FileChange, encode}
use naatre.Core.Changeset.Decode.{decode}
use naatre.Core.Changeset.Validate.{id_for_encoded}
use naatre.Server.Authz.{scope_allows}
use naatre.Server.TreeDerive.{MemNode}
use naatre.Server.TreeDerive.Collect
use naatre.Server.TreeDerive.Collect.{collect-collect_from, collect_from}
use naatre.Server.Merge.Lines.{TextDiff}
use naatre.Server.Merge.PathConflict.{PathConflict, content_rep}
use naatre.Server.Merge.Trees.{
  MergeError, conflicts, fetch_failed, MergedTree, merge_trees, merge_trees_recording,
}
use naatre.Server.Merge.Trees
use naatre.Server.Land
use naatre.Server.Land.{
  ChangesetRow, ChangesetRows, CsGraph, LandError, internal, writer_busy, no_main, not_found,
  no_shared_history, too_large, main_moved, panicked, out_of_steps, key_settled, redacted_base,
  forbidden, changeset_redacted, blob_redacted, path_conflicts, LandCommand, LandRow, Tables, find,
  contains, redaction_active, redactions_active_among, changeset_graph, file_changes_list,
  and_then_id, load_tree, conflicts_in, rep_paths_of, main_cas_move, land_insert_pending, put_land,
}
use naatre.Server.Land.Ancestry.{in_main, Explored, all_reached, broken, in_main-Explored}
use naatre.Server.Land.Chain.{walk, walk_steps, chain_of, check_changes, check_scope}
use naatre.Server.Land.Rebase.{
  Rebasing, fetch_blob, merge_error, encode_error, parent_tree, others, gate, gate_ids,
  changeset_insert_rows, recording_done, merge_node, new_reps, put_blobs, collected, row_of,
  insert_node, adopt_or_insert, write_node, rebased_of, record_node, rebase_node, rebase_chain,
}

abbrev pub steps_error : LandError → Bool
steps_error out_of_steps = true
steps_error internal = false
steps_error writer_busy = false
steps_error no_main = false
steps_error not_found = false
steps_error no_shared_history = false
steps_error too_large = false
steps_error main_moved = false
steps_error panicked = false
steps_error (key_settled id) = false
steps_error (redacted_base id) = false
steps_error (forbidden path) = false
steps_error (changeset_redacted id) = false
steps_error (blob_redacted id more) = false
steps_error (path_conflicts cs) = false

abbrev pub ran_out {ℓ} : {A : Type ℓ} → Result LandError A → Bool
ran_out (ok a) = false
ran_out (err e) = steps_error e

abbrev pub Ran {ℓ} : {A : Type ℓ} → Result LandError A → Type 0
Ran r = ran_out r ≡ false

pub bind-Ran {ℓ κ} :
    {A : Type ℓ} {B : Type κ} (m : Result LandError A) (f : A → Result LandError B)
    → Ran m
    → ((a : A) → m ≡ ok a → Ran (f a))
    → Ran (bind m f)
bind-Ran (ok a) f h k = k a refl
bind-Ran (err e) f h k = h

pub ok_or-Ran {ℓ} :
    {A : Type ℓ} (o : Option A) (e : LandError) → steps_error e ≡ false → Ran (ok_or o e)
ok_or-Ran none e h = h
ok_or-Ran (some a) e h = refl

pub refuse_if-Ran : (b : Bool) (e : LandError) → steps_error e ≡ false → Ran (refuse_if b e)
refuse_if-Ran true e h = h
refuse_if-Ran false e h = refl

pub map_err-Ran {ℓ} :
    {E : Type 0} {A : Type ℓ} (f : E → LandError) (r : Result E A)
    → ((e : E) → steps_error (f e) ≡ false)
    → Ran (map_err f r)
map_err-Ran f (ok a) h = refl
map_err-Ran f (err e) h = h e

pub if-Ran {ℓ} :
    {A : Type ℓ} (b : Bool) (x y : Result LandError A) → Ran x → Ran y → Ran (if b then x else y)
if-Ran true x y h k = h
if-Ran false x y h k = k

-- First parents have smaller generations.
abbrev pub Descends : ChangesetRows → Type 0
Descends rows =
    (id p : Bytes) (row parent : ChangesetRow) (more : List Bytes)
    → find id rows ≡ some row
    → row.parents ≡ p ∷ more
    → find p rows ≡ some parent
    → parent.generation < row.generation

pub in_main-Ran : (rows : ChangesetRows) (main : Bytes) → Ran (in_main rows main)
in_main-Ran rows main = explored-Ran (in_main rows main) (in_main-Explored rows main)
  where
    explored-Ran : (r : Result LandError (List Bytes)) → Explored rows main r → Ran r
    explored-Ran r (all_reached seen iff) = refl
    explored-Ran r (broken id reached gone) = refl

pub encode_error-runs : (e : CoreError) → steps_error (encode_error e) ≡ false
encode_error-runs encode_too_large = refl
encode_error-runs e = refl

pub merge_error-runs : (t : Tables) (e : MergeError) → steps_error (merge_error t e) ≡ false
unfolding merge_error
merge_error-runs t (conflicts cs) = refl
merge_error-runs t (fetch_failed id cause) =
    elim (Bool-cases (contains id (redactions_active_among t (id ∷ [])))) [
      | inl hit ↦ rw hit refl
      | inr miss ↦ rw miss refl
    ]
merge_error-runs t Trees.panicked = refl

pub load_tree-Ran :
    (trees : List (Bytes × MemNode)) (root : Option Bytes) → Ran (load_tree trees root)
unfolding load_tree
load_tree-Ran trees root = of_id (and_then_id root)
  where
    of_id : (o : Option Bytes) → Ran (Land.load_root trees o)
    of_id none = refl
    of_id (some id) = ok_or-Ran (find id trees) internal refl

pub conflicts_in-Ran : (canonical : Bytes) → Ran (conflicts_in canonical)
unfolding conflicts_in
conflicts_in-Ran canonical =
    bind-Ran (map_err (λ e. internal) (decode canonical)) _
      (map_err-Ran (λ e. internal) (decode canonical) (λ e. refl)) λ cs e. refl

pub rep_paths_of-Ran : (rows : ChangesetRows) (id : Bytes) → Ran (rep_paths_of rows id)
unfolding rep_paths_of
rep_paths_of-Ran rows id =
    elim (find id rows)
      as (λ o. Ran (elim o [
        | none ↦ ok []
        | some row ↦ bind (conflicts_in row.canonical) λ reps. ok (map (λ r. r.path) reps)
      ])) [
        | none ↦ refl
        | some row ↦
            bind-Ran (conflicts_in row.canonical) _ (conflicts_in-Ran row.canonical) λ reps e. refl
      ]
