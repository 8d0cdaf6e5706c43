-- ===== src/Server/Land/Landing.antt =====
-- crates/naatre-server/src/land.rs: what a land that settles has gone through.
use naatre.Prelude.{
  ℕ, ◌≡◌, true, false, ◌||◌, Option, none, some, List, [], Bytes, bytes_eq, ok, bind, bind-eq-ok,
  ok-injective, ok_or, ok_or-eq-ok, refuse_if, refuse_if-eq-ok, Bool-cases, Option-cases, inl, inr,
}
use naatre.Core.Path.{Unicode}
use naatre.Server.TreeDerive.{MemNode}
use naatre.Server.Merge.Lines.{TextDiff}
use naatre.Server.Land.{
  internal, redacted_base, LandDone, LandCommand, Tables, contains, redaction_active,
  changeset_graph, and_then_id, load_tree, rep_paths_of, land_insert_pending, put_land,
  main_cas_move,
}
use naatre.Server.Land.Ancestry.{in_main}
use naatre.Server.Land.Chain.{chain_of, check_scope}
use naatre.Server.Land.Rebase.{Rebasing, rebase_chain}
use naatre.Server.Land.Execute.{
  settle, main_target, base_note, finish, rebase_onto, land_chain, land_onto, land_new, land_in_txn,
}

abbrev pub pending_in : LandCommand → Tables → Tables
pending_in cmd t = land_insert_pending cmd.principal cmd.key cmd.head t

abbrev pub started : Bytes → ℕ → MemNode → Tables → Rebasing
started old_main generation tip_tree t = record {
  tip_id = old_main;
  tip_gen = generation;
  tip_tree = tip_tree;
  rebased = 0;
  written_blobs = [];
  tables = t;
}

module _ (u : Unicode) (blake3 : Bytes → Bytes) (from_lines : Bytes → Bytes → TextDiff)
    (cmd : LandCommand) where
  -- The two ways in which a land of a new key settles.
  pub data Landing (t : Tables) (old_main : Bytes) (r : LandDone × Tables) : Type 0 where
    contained :
        (seen reps : List Bytes)
        → in_main t.changesets old_main ≡ ok seen
        → (bytes_eq cmd.head old_main || contains cmd.head seen) ≡ true
        → settle cmd old_main old_main 0 none reps t ≡ r
        → Landing t old_main r
    rebased :
        (seen : List Bytes) (walked : List Bytes × Bytes) (generation : ℕ) (tip_tree : MemNode)
        (root : Option Bytes) (st : Rebasing) (moved : Tables) (note : Option Bytes)
        (reps : List Bytes)
        → in_main t.changesets old_main ≡ ok seen
        → (bytes_eq cmd.head old_main || contains cmd.head seen) ≡ false
        → chain_of t seen cmd.head ≡ ok walked
        → check_scope t.changesets cmd.scope walked.0 ≡ ok tt
        → load_tree t.trees root ≡ ok tip_tree
        → rebase_chain u blake3 from_lines cmd walked.0 (started old_main generation tip_tree t)
          ≡ ok st
        → main_cas_move old_main st.tip_id st.tables ≡ ok moved
        → settle cmd old_main st.tip_id st.rebased note reps moved ≡ r
        → Landing t old_main r

  chain-Landing :
      (t : Tables) (old_main : Bytes) (seen : List Bytes) (r : LandDone × Tables)
      → in_main t.changesets old_main ≡ ok seen
      → (bytes_eq cmd.head old_main || contains cmd.head seen) ≡ false
      → land_chain u blake3 from_lines cmd old_main seen t ≡ ok r
      → Landing t old_main r
  unfolding land_chain rebase_onto finish
  chain-Landing t old_main seen r reached outside h =
      let (walked, w, h₁) = bind-eq-ok (chain_of t seen cmd.head) _ h in
      let (tt', s, h₂) = bind-eq-ok (check_scope t.changesets cmd.scope walked.0) _ h₁ in
      let (graph, g, h₃) =
        bind-eq-ok (ok_or (changeset_graph t.changesets old_main) internal) _ h₂ in
      let (tip_tree, l, h₄) = bind-eq-ok (load_tree t.trees graph.root_tree_id) _ h₃ in
      let start = started old_main graph.generation tip_tree t in
      let (st, c, h₅) = bind-eq-ok (rebase_chain u blake3 from_lines cmd walked.0 start) _ h₄ in
      let (moved, m, h₆) = bind-eq-ok (main_cas_move old_main st.tip_id st.tables) _ h₅ in
      let (reps, p, h₇) = bind-eq-ok (rep_paths_of moved.changesets st.tip_id) _ h₆ in
      let made =
        settle cmd old_main st.tip_id st.rebased (base_note t.changesets cmd.head cmd.base_hint)
          reps moved in
      let e : made ≡ r = ok-injective h₇ in
      rebased seen walked graph.generation tip_tree graph.root_tree_id st moved
        (base_note t.changesets cmd.head cmd.base_hint) reps reached outside w s l c m e

  onto-Landing :
      (t : Tables) (old_main : Bytes) (r : LandDone × Tables)
      → land_onto u blake3 from_lines cmd old_main t ≡ ok r
      → Landing t old_main r
  unfolding land_onto
  onto-Landing t old_main r h =
      let (seen, reached, h₁) = bind-eq-ok (in_main t.changesets old_main) _ h in
      elim (Bool-cases (bytes_eq cmd.head old_main || contains cmd.head seen)) [
        | inl inside ↦
            let there : bind (rep_paths_of t.changesets old_main)
                  (λ reps. ok (settle cmd old_main old_main 0 none reps t))
                ≡ ok r =
              cc in
            let (reps, p, h₂) = bind-eq-ok (rep_paths_of t.changesets old_main) _ there in
            let e : settle cmd old_main old_main 0 none reps t ≡ r = ok-injective h₂ in
            contained seen reps reached inside e
        | inr outside ↦ chain-Landing t old_main seen r reached outside cc
      ]

  main_target-eq :
      (t : Tables) (old_main : Bytes)
      → main_target t ≡ ok old_main
      → (target : Option Bytes) × (t.main ≡ some target) × (and_then_id target ≡ some old_main)
  unfolding main_target
  main_target-eq t old_main h = elim (Option-cases t.main) [
    | inl gone ↦ absurd cc
    | inr (target, e) ↦ (target, e, ok_or-eq-ok (and_then_id target) internal cc)
  ]

  -- What a land that settles a key without a row has gone through.
  pub record Settling (t : Tables) (r : LandDone × Tables) : Type 0 where
    pub old_main : Bytes
    pub target : Option Bytes
    pub at_main : t.main ≡ some target
    pub is_id : and_then_id target ≡ some old_main
    pub head_clear : redaction_active t cmd.head ≡ false
    pub main_clear : redaction_active t old_main ≡ false
    pub landing : Landing (pending_in cmd t) old_main r

  new-Settling :
      (t : Tables) (r : LandDone × Tables)
      → land_new u blake3 from_lines cmd t ≡ ok r
      → Settling t r
  unfolding land_new land_insert_pending put_land redaction_active
  new-Settling t r h =
      let (u₁, head_clear, h₁) =
        bind-eq-ok (refuse_if (redaction_active t cmd.head) (redacted_base cmd.head)) _ h in
      let (old_main, m, h₂) = bind-eq-ok (main_target (pending_in cmd t)) _ h₁ in
      let (u₂, main_clear, h₃) =
        bind-eq-ok
          (refuse_if (redaction_active (pending_in cmd t) old_main) (redacted_base old_main)) _
          h₂ in
      let (target, at_main, is_id) = main_target-eq (pending_in cmd t) old_main m in
      record {
        old_main = old_main;
        target = target;
        at_main = at_main;
        is_id = is_id;
        head_clear =
            refuse_if-eq-ok (redaction_active t cmd.head) (redacted_base cmd.head) head_clear;
        main_clear =
            refuse_if-eq-ok (redaction_active (pending_in cmd t) old_main) (redacted_base old_main)
              main_clear;
        landing = onto-Landing (pending_in cmd t) old_main r h₃;
      }

  pub land_in_txn-Settling :
      (t : Tables) (r : LandDone × Tables)
      → t.lands cmd.principal cmd.key ≡ none
      → land_in_txn u blake3 from_lines cmd t ≡ ok r
      → Settling t r
  unfolding land_in_txn
  land_in_txn-Settling t r fresh h = new-Settling t r cc
