-- ===== src/Server/Land/Execute.antt =====
-- crates/naatre-server/src/land.rs: a land, from its key to its settlement. `Err` leaves the tables as
-- they were, since the transaction is rolled back; the blobs that it has put stay in the store without a
-- row, and are left out.
use naatre.Prelude.{
  ℕ, Bool, true, false, ◌||◌, not, Option, none, some, List, [], ◌∷◌, ◌++◌, Bytes, Result, ok, err,
  bind, ok_or, refuse_if, codes, bytes_eq, if◌then◌else◌,
}
use naatre.Core.Path.{Unicode}
use naatre.Core.Ids.{to_hex, from_hex}
use naatre.Server.Merge.Lines.{TextDiff}
use naatre.Server.Land.{
  ChangesetRows, CsGraph, LandError, internal, writer_busy, no_main, key_settled, redacted_base,
  LandState, done, conflicted, pending, other, LandResult, LandRow, LandDone, LandCommand, Tables,
  contains, redaction_active, changeset_graph, and_then_id, load_tree, rep_paths_of,
  land_insert_pending, land_settle, main_cas_move,
}
use naatre.Server.Land.Ancestry.{in_main}
use naatre.Server.Land.Chain.{chain_of, check_scope}
use naatre.Server.Land.Rebase.{Rebasing, rebase_chain}

unfoldable pub replay : Option LandResult → Result LandError LandDone
replay none = err internal
replay (some r) = bind (ok_or (from_hex r.landed) internal) λ landed. ok (record {
  landed = landed;
  main = landed;
  rebased = r.rebased;
  note = r.note;
  conflicts = r.conflicts;
})

abbrev pub settled_row : LandCommand → LandRow → Result LandError LandDone
settled_row cmd row = bind (ok_or (and_then_id row.head) internal) λ settled.
    bind (refuse_if (not (bytes_eq settled cmd.head)) (key_settled settled))
      λ _. replay row.result_json

-- The answer of a key that has a row.
unfoldable pub recorded : LandCommand → LandRow → Result LandError LandDone
recorded cmd row = elim row.state [
  | done ↦ settled_row cmd row
  | conflicted ↦ settled_row cmd row
  | pending ↦ err writer_busy
  | other state ↦ err internal
]

abbrev pub state_for : List Bytes → LandState
state_for [] = done
state_for (p ∷ ps) = conflicted

unfoldable pub settle :
    LandCommand → (base landed : Bytes) → ℕ → Option Bytes → List Bytes → Tables → LandDone × Tables
settle cmd base landed rebased note conflicts t = (
  record { landed = landed; main = landed; rebased = rebased; note = note; conflicts = conflicts },
  land_settle cmd.principal cmd.key cmd.head base (state_for conflicts)
      (record { landed = to_hex landed; rebased = rebased; note = note; conflicts = conflicts }) t,
)

-- `conn.ref_get("main")`: its target, which must be an id.
unfoldable pub main_target : Tables → Result LandError Bytes
main_target t = elim t.main [
  | none ↦ err no_main
  | some target ↦ ok_or (and_then_id target) internal
]

abbrev first_is : List Bytes → Bytes → Bool
first_is [] hint = false
first_is (p ∷ ps) hint = bytes_eq p hint

abbrev first_hex : List Bytes → Bytes
first_hex [] = codes "<none>"
first_hex (p ∷ ps) = to_hex p

unfoldable pub note_of : Bytes → List Bytes → Bytes
note_of hint parents =
    codes "request base "
    ++ (to_hex hint
        ++ (codes " is not head's parent ("
            ++ (first_hex parents ++ codes "); the server rebased onto its merge-base with main")))

-- The note on a base that is not the head's parent.
unfoldable pub base_note : ChangesetRows → Bytes → Option Bytes → Option Bytes
base_note rows head none = none
base_note rows head (some hint) = elim (changeset_graph rows head) [
  | none ↦ none
  | some g ↦ if first_is g.parents hint then none else some (note_of hint g.parents)
]

module _ (u : Unicode) (blake3 : Bytes → Bytes) (from_lines : Bytes → Bytes → TextDiff)
    (cmd : LandCommand) where
  -- The move of `main` and the settlement.
  unfoldable pub finish :
      (old_main : Bytes) → Rebasing → Option Bytes → Result LandError (LandDone × Tables)
  finish old_main st note = bind (main_cas_move old_main st.tip_id st.tables) λ t.
      bind (rep_paths_of t.changesets st.tip_id)
        λ reps. ok (settle cmd old_main st.tip_id st.rebased note reps t)

  -- The rebase of a chain onto `main`.
  unfoldable pub rebase_onto :
      (old_main : Bytes) → List Bytes → Tables → Result LandError (LandDone × Tables)
  rebase_onto old_main chain t =
      bind (ok_or (changeset_graph t.changesets old_main) internal) λ (main_graph : CsGraph).
        bind (load_tree t.trees main_graph.root_tree_id) λ tip_tree.
          bind
            (rebase_chain u blake3 from_lines cmd chain (record {
              tip_id = old_main;
              tip_gen = main_graph.generation;
              tip_tree = tip_tree;
              rebased = 0;
              written_blobs = [];
              tables = t;
            }))
            λ st. finish old_main st (base_note t.changesets cmd.head cmd.base_hint)

  unfoldable pub land_chain :
      (old_main : Bytes) (in_main : List Bytes) → Tables → Result LandError (LandDone × Tables)
  land_chain old_main in_main t = bind (chain_of t in_main cmd.head) λ walked.
      bind (check_scope t.changesets cmd.scope walked.0) λ _. rebase_onto old_main walked.0 t

  -- A head that `main` contains is settled as it is.
  unfoldable pub land_onto : (old_main : Bytes) → Tables → Result LandError (LandDone × Tables)
  land_onto old_main t = bind (in_main t.changesets old_main) λ reached.
      elim (bytes_eq cmd.head old_main || contains cmd.head reached) [
        | true ↦
            bind (rep_paths_of t.changesets old_main)
              λ reps. ok (settle cmd old_main old_main 0 none reps t)
        | false ↦ land_chain old_main reached t
      ]

  -- A land whose key has no row.
  unfoldable pub land_new : Tables → Result LandError (LandDone × Tables)
  land_new t₀ = bind (refuse_if (redaction_active t₀ cmd.head) (redacted_base cmd.head)) λ _.
      let t = land_insert_pending cmd.principal cmd.key cmd.head t₀ in
      bind (main_target t) λ old_main.
        bind (refuse_if (redaction_active t old_main) (redacted_base old_main))
          λ _. land_onto old_main t

  unfoldable pub land_in_txn : Tables → Result LandError (LandDone × Tables)
  land_in_txn t = elim (t.lands cmd.principal cmd.key) [
    | some row ↦ bind (recorded cmd row) λ d. ok (d, t)
    | none ↦ land_new t
  ]

  abbrev pub committed :
      Tables → Result LandError (LandDone × Tables) → Result LandError LandDone × Tables
  committed t (ok r) = (ok r.0, r.1)
  committed t (err e) = (err e, t)

  unfoldable pub execute : Tables → Result LandError LandDone × Tables
  execute t = committed t (land_in_txn t)
