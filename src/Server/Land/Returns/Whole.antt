-- ===== src/Server/Land/Returns/Whole.antt =====
-- crates/naatre-server/src/land.rs: a land returns.
use naatre.Prelude.{
  ℕ, zero, suc, ◌≤◌, ◌≡◌, ◌≢◌, refl, ◌⊎◌, sym, ap, ◌∙◌, arith, true, false, ◌||◌, not, Option, none,
  some, List, [], ◌∷◌, Bytes, Result, ok, err, bind, ok_or, refuse_if, bytes_eq, Bool-cases,
  Option-cases, inl, inr,
}
use naatre.Core.Path.{Unicode}
use naatre.Core.Ids.{from_hex}
use naatre.Core.Changeset.{FileChange}
use naatre.Server.Authz.{scope_allows}
use naatre.Server.Merge.Lines.{TextDiff}
use naatre.Server.Land
use naatre.Server.Land.{
  ChangesetRow, ChangesetRows, CsGraph, LandError, internal, writer_busy, no_main, not_found,
  no_shared_history, too_large, main_moved, panicked, out_of_steps, key_settled, redacted_base,
  forbidden, changeset_redacted, blob_redacted, path_conflicts, LandCommand, LandDone, LandRow,
  Tables, find, contains, redaction_active, redactions_active_among, changeset_graph,
  file_changes_list, and_then_id, load_tree, conflicts_in, rep_paths_of, main_cas_move,
  land_insert_pending, put_land,
}
use naatre.Server.Land.Chain.{walk, walk_steps, chain_of, check_changes, check_scope}
use naatre.Server.Land.Execute.{
  replay, recorded, settled_row, settle, main_target, finish, rebase_onto, land_chain, land_onto,
  land_new, land_in_txn,
}
use naatre.Server.Land.Returns.{
  ran_out, Ran, bind-Ran, ok_or-Ran, refuse_if-Ran, Descends, in_main-Ran, load_tree-Ran,
  rep_paths_of-Ran,
}
use naatre.Server.Land.Returns.Node.{rebase_chain-Ran}

parents_cases :
    (ps : List Bytes) → (ps ≡ []) ⊎ ((p : Bytes) × (more : List Bytes) × (ps ≡ p ∷ more))
parents_cases [] = inl refl
parents_cases (p ∷ more) = inr (p, more, refl)

steps_of-row :
    (rows : ChangesetRows) (id : Bytes) (row : ChangesetRow)
    → find id rows ≡ some row
    → walk_steps (changeset_graph rows id) ≡ suc (suc row.generation)
unfolding walk_steps changeset_graph
steps_of-row rows id row h = rw h refl

steps_of-missing :
    (rows : ChangesetRows) (id : Bytes)
    → find id rows ≡ none
    → walk_steps (changeset_graph rows id) ≡ 1
unfolding walk_steps changeset_graph
steps_of-missing rows id h = rw h refl

module _ (t : Tables) (in_main : List Bytes) where
  -- The steps for a first parent.
  parent_steps :
      (fuel : ℕ) (id p : Bytes) (row : ChangesetRow) (more : List Bytes)
      → Descends t.changesets
      → find id t.changesets ≡ some row
      → row.parents ≡ p ∷ more
      → suc (suc row.generation) ≤ suc fuel
      → walk_steps (changeset_graph t.changesets p) ≤ fuel
  parent_steps fuel id p row more falls here first h = elim (Option-cases (find p t.changesets)) [
    | inl gone ↦ let one = steps_of-missing t.changesets p gone in omega arith
    | inr (parent, e) ↦
        let steps = steps_of-row t.changesets p parent e in
        let below = falls id p row parent more here first e in omega arith
  ]

  walk-Ran :
      (fuel : ℕ) (cursor : Bytes) (chain : List Bytes)
      → Descends t.changesets
      → walk_steps (changeset_graph t.changesets cursor) ≤ fuel
      → Ran (walk t in_main fuel cursor chain)
  unfolding walk changeset_graph
  walk-Ran zero cursor chain falls h = elim (Option-cases (find cursor t.changesets)) [
    | inl gone ↦ let one = steps_of-missing t.changesets cursor gone in absurd (omega arith)
    | inr (row, e) ↦ let steps = steps_of-row t.changesets cursor row e in absurd (omega arith)
  ]
  walk-Ran (suc fuel) cursor chain falls h =
      bind-Ran (refuse_if (redaction_active t cursor) (redacted_base cursor)) _
        (refuse_if-Ran (redaction_active t cursor) (redacted_base cursor) refl)
        λ u₁ clear. elim (Bool-cases (contains cursor in_main)) [
          | inl inside ↦ cc
          | inr outside ↦ elim (Option-cases (find cursor t.changesets)) [
            | inl gone ↦ cc
            | inr (row, e) ↦ elim (parents_cases row.parents) [
              | inl root ↦ cc
              | inr (p, more, first) ↦
                  let rest = walk-Ran fuel p (cursor ∷ chain) falls (
                    parent_steps fuel cursor p row more falls e first
                      (let steps = steps_of-row t.changesets cursor row e in omega arith)) in
                  cc
            ]
          ]
        ]

check_changes-Ran : (scope : Option Bytes) (cs : List FileChange) → Ran (check_changes scope cs)
unfolding check_changes
check_changes-Ran scope [] = refl
check_changes-Ran scope (c ∷ cs) =
    bind-Ran (refuse_if (not (scope_allows scope c.path)) (forbidden c.path)) _
      (refuse_if-Ran (not (scope_allows scope c.path)) (forbidden c.path) refl)
      λ u₁ e. check_changes-Ran scope cs

check_scope-Ran :
    (rows : ChangesetRows) (scope : Option Bytes) (chain : List Bytes)
    → Ran (check_scope rows scope chain)
unfolding check_scope
check_scope-Ran rows scope [] = refl
check_scope-Ran rows scope (cs ∷ chain) =
    bind-Ran (check_changes scope (file_changes_list rows cs)) _
      (check_changes-Ran scope (file_changes_list rows cs)) λ u₁ e. check_scope-Ran rows scope chain

main_cas_move-Ran : (old new : Bytes) (t : Tables) → Ran (main_cas_move old new t)
unfolding main_cas_move
main_cas_move-Ran old new t = elim (Option-cases t.main) [
  | inl e ↦ cc
  | inr (target, e) ↦ elim (Option-cases target) [
    | inl e₁ ↦ cc
    | inr (b, e₁) ↦ elim (Bool-cases (bytes_eq b old)) [ inl same ↦ cc | inr apart ↦ cc ]
  ]
]

main_target-Ran : (t : Tables) → Ran (main_target t)
unfolding main_target
main_target-Ran t = elim (Option-cases t.main) [
  | inl e ↦ cc
  | inr (target, e) ↦ let id = ok_or-Ran (and_then_id target) internal refl in cc
]

replay-Ran : (r : Option Land.LandResult) → Ran (replay r)
unfolding replay
replay-Ran none = refl
replay-Ran (some r) =
    bind-Ran (ok_or (from_hex r.landed) internal) _ (ok_or-Ran (from_hex r.landed) internal refl)
      λ landed e. refl

recorded-Ran : (cmd : LandCommand) (row : LandRow) → Ran (recorded cmd row)
unfolding recorded
recorded-Ran cmd row = by_state row.state
  where
    settled : Ran (settled_row cmd row)
    settled =
        bind-Ran (ok_or (and_then_id row.head) internal) _
          (ok_or-Ran (and_then_id row.head) internal refl)
          λ head e.
            bind-Ran (refuse_if (not (bytes_eq head cmd.head)) (key_settled head)) _
              (refuse_if-Ran (not (bytes_eq head cmd.head)) (key_settled head) refl)
              λ u₁ e₁. replay-Ran row.result_json

    by_state : (s : Land.LandState) → Ran (recorded cmd (record row { state = s }))
    by_state Land.done = settled
    by_state Land.conflicted = settled
    by_state Land.pending = refl
    by_state (Land.other name) = refl

module _ (u : Unicode) (blake3 : Bytes → Bytes) (from_lines : Bytes → Bytes → TextDiff)
    (cmd : LandCommand) where
  chain-Ran :
      (old_main : Bytes) (seen : List Bytes) (t : Tables)
      → Descends t.changesets
      → Ran (land_chain u blake3 from_lines cmd old_main seen t)
  unfolding land_chain chain_of rebase_onto finish
  chain-Ran old_main seen t falls =
      bind-Ran (chain_of t seen cmd.head) _
        (walk-Ran t seen (walk_steps (changeset_graph t.changesets cmd.head)) cmd.head [] falls
          (omega arith))
        λ walked e. bind-Ran _ _ (check_scope-Ran t.changesets cmd.scope walked.0) λ u₁ e₁.
          bind-Ran (ok_or (changeset_graph t.changesets old_main) internal) _
            (ok_or-Ran (changeset_graph t.changesets old_main) internal refl)
            λ graph e₂. bind-Ran _ _ (load_tree-Ran t.trees graph.root_tree_id) λ tree e₃.
              bind-Ran _ _ (rebase_chain-Ran u blake3 from_lines cmd walked.0 _) λ st e₄.
                bind-Ran _ _ (main_cas_move-Ran old_main st.tip_id st.tables) λ moved e₅.
                  bind-Ran _ _ (rep_paths_of-Ran moved.changesets st.tip_id) λ reps e₆. refl

  onto-Ran :
      (old_main : Bytes) (t : Tables)
      → Descends t.changesets
      → Ran (land_onto u blake3 from_lines cmd old_main t)
  unfolding land_onto
  onto-Ran old_main t falls = bind-Ran _ _ (in_main-Ran t.changesets old_main) λ seen e.
      elim (Bool-cases (bytes_eq cmd.head old_main || contains cmd.head seen)) [
        | inl inside ↦
            let settled =
              bind-Ran (rep_paths_of t.changesets old_main)
                (λ reps. ok (settle cmd old_main old_main 0 none reps t))
                (rep_paths_of-Ran t.changesets old_main) (λ reps e₁. refl) in
            cc
        | inr outside ↦ let rest = chain-Ran old_main seen t falls in cc
      ]

  new-Ran : (t : Tables) → Descends t.changesets → Ran (land_new u blake3 from_lines cmd t)
  unfolding land_new land_insert_pending put_land
  new-Ran t falls =
      let p = land_insert_pending cmd.principal cmd.key cmd.head t in
      bind-Ran (refuse_if (redaction_active t cmd.head) (redacted_base cmd.head)) _
        (refuse_if-Ran (redaction_active t cmd.head) (redacted_base cmd.head) refl)
        λ u₁ e. bind-Ran (main_target p) _ (main_target-Ran p) λ old_main e₁.
          bind-Ran (refuse_if (redaction_active p old_main) (redacted_base old_main)) _
            (refuse_if-Ran (redaction_active p old_main) (redacted_base old_main) refl)
            λ u₂ e₂. onto-Ran old_main p falls

  land-Ran : (t : Tables) → Descends t.changesets → Ran (land_in_txn u blake3 from_lines cmd t)
  unfolding land_in_txn
  land-Ran t falls = elim (Option-cases (t.lands cmd.principal cmd.key)) [
    | inl fresh ↦ let rest = new-Ran t falls in cc
    | inr (row, e) ↦
        let kept : LandDone → Result LandError (LandDone × Tables) = λ d. ok (d, t) in
        let answer : Ran (bind (recorded cmd row) kept) =
          bind-Ran (recorded cmd row) kept (recorded-Ran cmd row) (λ d e₁. refl) in
        cc
  ]

  -- A land returns: where first parents have smaller generations, neither the search of `main`'s
  -- ancestry, nor the walk from the head, nor the encoder of a merged tree runs out of fuel.
  pub land_in_txn-returns :
      (t : Tables)
      → Descends t.changesets
      → land_in_txn u blake3 from_lines cmd t ≢ err out_of_steps
  land_in_txn-returns t falls h =
      let ran = land-Ran t falls in let clash : true ≡ false = sym (ap ran_out h) ∙ ran in cc
