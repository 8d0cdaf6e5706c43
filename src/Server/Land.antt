-- ===== src/Server/Land.antt =====
-- crates/naatre-server/src/land.rs, with the queries of it from crates/naatre-server/src/db.rs: the rows of
-- one repository that a land reads and writes. The rows of `changeset_parents` and `file_changes` are
-- fields of their changeset, and a tree's rows are the directory that `MemNode::load` reads from them. The
-- failures of SQL and of the blob store, audit rows, object rows and the derive queue are left out.
pub mod Ancestry
pub mod Chain
pub mod Rebase
pub mod Execute
pub mod Steps
pub mod Walked
pub mod Grown
pub mod Landing
pub mod History
pub mod Gates
pub mod Replays
pub mod Returns
pub mod Scoped
pub mod Stored
pub mod Written
use naatre.Prelude.{
  ℕ, suc, ◌≡◌, Bool, true, false, ◌&&◌, not, Option, none, some, List, [], ◌∷◌, ◌++◌, map, Bytes,
  Result, ok, err, bind, ok_or, map_err, any, length, bytes_eq, ◌==◌, if◌then◌else◌,
}
use naatre.Core.Conflict.{ConflictRep}
use naatre.Core.Error.{CoreError}
use naatre.Core.Changeset.{FileChange}
use naatre.Core.Changeset.Decode.{decode}
use naatre.Server.TreeDerive.{MemNode, no_entries}
use naatre.Server.Merge.PathConflict.{PathConflict}

-- The answers that are not a settled land. A 5xx is `internal`, with what is logged left out;
-- `out_of_steps` is the model's own, for a loop whose fuel is used up.
pub data LandError : Type 0 where
  internal writer_busy no_main not_found no_shared_history too_large main_moved : LandError
  panicked out_of_steps : LandError
  key_settled redacted_base forbidden changeset_redacted : Bytes → LandError
  blob_redacted : Bytes → ℕ → LandError
  path_conflicts : List PathConflict → LandError

pub record CsGraph : Type 0 where
  pub generation : ℕ
  pub parents : List Bytes
  pub root_tree_id : Option Bytes

pub record ChangesetRow : Type 0 where
  pub canonical : Bytes
  pub author : Bytes
  pub message : Bytes
  pub timestamp_ns : ℕ
  pub generation : ℕ
  pub principal : Bytes
  pub root_tree_id : Option Bytes
  pub parents : List Bytes
  pub changes : List FileChange

pub data LandState : Type 0 where
  done conflicted pending : LandState
  other : Bytes → LandState

-- The recorded JSON, whose `landed` is hex text.
pub record LandResult : Type 0 where
  pub landed : Bytes
  pub rebased : ℕ
  pub note : Option Bytes
  pub conflicts : List Bytes

pub record LandRow : Type 0 where
  pub state : LandState
  pub head : Option Bytes
  pub base : Option Bytes
  pub result_json : Option LandResult

pub record LandDone : Type 0 where
  pub landed : Bytes
  pub main : Bytes
  pub rebased : ℕ
  pub note : Option Bytes
  pub conflicts : List Bytes

-- `repo_id` is that of the route's repository; its name, the clock and the deadline are left out.
pub record LandCommand : Type 0 where
  pub repo_id : ℕ
  pub principal : Bytes
  pub scope : Option Bytes
  pub head : Bytes
  pub key : Bytes
  pub base_hint : Option Bytes
  pub record_conflict : Bool

abbrev pub ChangesetRows : Type 0
ChangesetRows = List (Bytes × ChangesetRow)

-- `lands` is keyed by principal and key; `main` is the target of the `refs` row of that name.
pub record Tables : Type 0 where
  pub lands : Bytes → Bytes → Option LandRow
  pub main : Option (Option Bytes)
  pub main_version : ℕ
  pub changesets : ChangesetRows
  pub trees : List (Bytes × MemNode)
  pub redactions : List Bytes
  pub cas : List (Bytes × Bytes)

-- The row of an id.
unfoldable pub find {ℓ} : {A : Type ℓ} → Bytes → List (Bytes × A) → Option A
find id [] = none
find id ((i, a) ∷ rows) = if bytes_eq id i then some a else find id rows

unfoldable pub contains : Bytes → List Bytes → Bool
contains id ids = any (bytes_eq id) ids

unfoldable pub redaction_active : Tables → Bytes → Bool
redaction_active t id = contains id t.redactions

-- The ids of a list that are redacted.
unfoldable pub redactions_active_among : Tables → List Bytes → List Bytes
redactions_active_among t [] = []
redactions_active_among t (id ∷ ids) =
    let rest = redactions_active_among t ids in if redaction_active t id then id ∷ rest else rest

abbrev pub graph_of : Option ChangesetRow → Option CsGraph
graph_of none = none
graph_of (some row) =
    some (record {
      generation = row.generation;
      parents = row.parents;
      root_tree_id = row.root_tree_id;
    })

unfoldable pub changeset_graph : ChangesetRows → Bytes → Option CsGraph
changeset_graph rows id = graph_of (find id rows)

abbrev pub changes_of : Option ChangesetRow → List FileChange
changes_of none = []
changes_of (some row) = row.changes

unfoldable pub file_changes_list : ChangesetRows → Bytes → List FileChange
file_changes_list rows id = changes_of (find id rows)

unfoldable pub id_of : Bytes → Option Bytes
id_of bytes = if length bytes == 32 then some bytes else none

abbrev pub and_then_id : Option Bytes → Option Bytes
and_then_id none = none
and_then_id (some bytes) = id_of bytes

abbrev pub load_root : List (Bytes × MemNode) → Option Bytes → Result LandError MemNode
load_root trees none = ok no_entries
load_root trees (some root) = ok_or (find root trees) internal

unfoldable pub load_tree : List (Bytes × MemNode) → Option Bytes → Result LandError MemNode
load_tree trees root_tree_id = load_root trees (and_then_id root_tree_id)

-- The conflicts of a changeset's canonical bytes.
unfoldable pub conflicts_in : Bytes → Result LandError (List ConflictRep)
conflicts_in canonical = bind (map_err (λ e. internal) (decode canonical)) λ cs. ok cs.conflicts

unfoldable pub rep_paths_of : ChangesetRows → Bytes → Result LandError (List Bytes)
rep_paths_of rows id = elim (find id rows) [
  | none ↦ ok []
  | some row ↦ bind (conflicts_in row.canonical) λ reps. ok (map (λ r. r.path) reps)
]

-- `lands` with a row for a principal and key.
unfoldable pub put_land : Bytes → Bytes → LandRow → Tables → Tables
put_land principal key row t = record t {
  lands = λ p k. if bytes_eq p principal && bytes_eq k key then some row else t.lands p k;
}

unfoldable pub land_insert_pending : Bytes → Bytes → Bytes → Tables → Tables
land_insert_pending principal key head t =
    put_land principal key
      (record { state = pending; head = some head; base = none; result_json = none }) t

unfoldable pub land_settle :
    Bytes → Bytes → (head base : Bytes) → LandState → LandResult → Tables → Tables
land_settle principal key head base state result t =
    put_land principal key
      (record { state = state; head = some head; base = some base; result_json = some result }) t

-- `UPDATE refs SET target = new WHERE name = 'main' AND target = expected`: an error where no row is.
unfoldable pub main_cas_move : (expected new : Bytes) → Tables → Result LandError Tables
main_cas_move expected new t = elim t.main [
  | none ↦ err main_moved
  | some target ↦ elim target [
    | none ↦ err main_moved
    | some old ↦
        if bytes_eq old expected
        then ok (record t { main = some (some new); main_version = suc t.main_version })
        else err main_moved
  ]
]
