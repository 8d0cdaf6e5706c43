-- ===== src/Server/Land/Written.antt =====
-- crates/naatre-server/src/land.rs: the changes that a land writes.
use naatre.Prelude.{
  ◌≡◌, ◌⊎◌, sym, ap, ◌∙◌, subst, true, Option, none, some, List, [], ◌∷◌, Bytes, ok, bind-eq-ok,
  ok-injective, All, bytes_eq, split_if, inl, inr,
}
use naatre.Core.Path.{Unicode}
use naatre.Core.Changeset.{FileChange}
use naatre.Server.Authz.{scope_allows}
use naatre.Server.TreeDerive.{MemNode}
use naatre.Server.TreeDerive.Ordered.{Ordered}
use naatre.Server.Merge.Lines.{TextDiff}
use naatre.Server.Merge.Delta.{delta_between}
use naatre.Server.Merge.Delta.Paths.{has}
use naatre.Server.Merge.Trees.Kept.{made-Ordered}
use naatre.Server.Land.{
  ChangesetRow, ChangesetRows, LandDone, LandCommand, Tables, find, file_changes_list, changes_of,
  load_tree, land_settle, land_insert_pending, put_land,
}
use naatre.Server.Land.Rebase.{Rebasing, fetch_blob, parent_tree, rebase_node, rebase_chain}
use naatre.Server.Land.Execute.{settle, land_in_txn}
use naatre.Server.Land.Steps.{Stepped, dropped, adopted, inserted, rebase_node-Rebased}
use naatre.Server.Land.Walked.{InScope, chain_of-Linked, check_scope-InScope}
use naatre.Server.Land.Grown.{Extends, HasRow, Linked-HasRow, find-fresh}
use naatre.Server.Land.History.{cas_move-eq}
use naatre.Server.Land.Landing.{
  Landing, contained, rebased, pending_in, started, land_in_txn-Settling,
}
use naatre.Server.Land.Scoped.{
  Differ, AllRecorded, listed-InScope, merge_node-MadeOf, delta-InScope,
}
use naatre.Server.Land.Stored.{
  OrderedTrees, TreesExtend, load_tree-Ordered, load_tree-extends, parent_tree-Ordered,
  parent_tree-extends, write_tree-TreesExtend, find-write_tree,
}

-- Every row is an old one, or has its changes in scope.
abbrev pub NewInScope : Option Bytes → ChangesetRows → ChangesetRows → Type 0
NewInScope scope old new =
    (id : Bytes) (row : ChangesetRow)
    → find id new ≡ some row
    → (find id old ≡ some row) ⊎ All (InScope scope) row.changes

-- What the loop over the chain keeps.
record Scoping (scope : Option Bytes) (t : Tables) (st : Rebasing) : Type 0 where
  pub rows : Extends t.changesets st.tables.changesets
  pub trees : TreesExtend t.trees st.tables.trees
  pub ordered : OrderedTrees st.tables.trees
  pub tip : Ordered st.tip_tree
  pub written : NewInScope scope t.changesets st.tables.changesets

same_row : {o : Option ChangesetRow} {a b : ChangesetRow} → o ≡ some a → o ≡ some b → a ≡ b
same_row h k = cc

row_changes :
    (rows : ChangesetRows) (id : Bytes) (row : ChangesetRow)
    → find id rows ≡ some row
    → file_changes_list rows id ≡ row.changes
unfolding file_changes_list
row_changes rows id row h = ap changes_of h

written_more :
    (scope : Option Bytes) (old rows : ChangesetRows) (new : Bytes) (row : ChangesetRow)
    → NewInScope scope old rows
    → All (InScope scope) row.changes
    → NewInScope scope old ((new, row) ∷ rows)
unfolding find
written_more scope old rows new row h good id x e = elim (split_if (bytes_eq id new) _ _ e) [
  | inl (same, e₁) ↦
      let at_row : row ≡ x = some_same e₁ in
      inr (subst (λ (r : ChangesetRow). All (InScope scope) r.changes) at_row good)
  | inr (other, e₁) ↦ h id x e₁
]
  where
    some_same : {a b : ChangesetRow} → some a ≡ some b → a ≡ b
    some_same k = cc

module _ (u : Unicode) (blake3 : Bytes → Bytes) (from_lines : Bytes → Bytes → TextDiff)
    (cmd : LandCommand) (t : Tables) where
  same-Scoping :
      (st st' : Rebasing)
      → st'.tables.changesets ≡ st.tables.changesets
      → st'.tables.trees ≡ st.tables.trees
      → Ordered st'.tip_tree
      → Scoping cmd.scope t st
      → Scoping cmd.scope t st'
  same-Scoping st st' rows trees tip s = record {
    rows = λ id row h. subst (λ x. find id x ≡ some row) (sym rows) (s.rows id row h);
    trees = subst (TreesExtend t.trees) (sym trees) s.trees;
    ordered = subst OrderedTrees (sym trees) s.ordered;
    tip = tip;
    written = subst (NewInScope cmd.scope t.changesets) (sym rows) s.written;
  }

  step-Scoping :
      (node : Bytes) (node_tree merged : MemNode) (changes : List FileChange) (st st' : Rebasing)
      → Ordered node_tree
      → Ordered merged
      → All (InScope cmd.scope) changes
      → Stepped u blake3 from_lines cmd node node_tree merged changes st st'
      → Scoping cmd.scope t st
      → Scoping cmd.scope t st'
  step-Scoping node node_tree merged changes st st' on om good (dropped same) s =
      same-Scoping st st' same.changesets same.trees (subst Ordered (sym same.tip_tree) s.tip) s
  step-Scoping node node_tree merged changes st st' on om good
        (adopted row cs canonical now enc id parent tip same main trees tree) s =
      same-Scoping st st' same trees (subst Ordered (sym tree) on) s
  step-Scoping node node_tree merged changes st st' on om good
        (inserted row canonical v2 root tip fresh same parent main recorded trees tree) s =
      record {
        rows = λ id x h.
            subst (λ y. find id y ≡ some x) (sym same)
              (find-fresh st'.tip_id id row x st.tables.changesets fresh (s.rows id x h));
        trees = λ id x h.
            subst (λ y. find id y ≡ some x) (sym trees)
              (write_tree-TreesExtend root merged st.tables.trees id x (s.trees id x h));
        ordered = λ id x h.
            (elim (find-write_tree root id merged x st.tables.trees
              (subst (λ y. find id y ≡ some x) trees h)) [
                | inl here ↦ subst Ordered here om
                | inr there ↦ s.ordered id x there
              ]);
        tip = subst Ordered (sym tree) om;
        written = subst (NewInScope cmd.scope t.changesets) (sym same) (
            written_more cmd.scope t.changesets st.tables.changesets st'.tip_id row s.written
              (subst (All (InScope cmd.scope)) (sym recorded) good));
      }

  -- One changeset of the chain.
  node-Scoping :
      (node : Bytes) (st st' : Rebasing)
      → AllRecorded t
      → HasRow t.changesets node
      → All (InScope cmd.scope) (file_changes_list t.changesets node)
      → rebase_node u blake3 from_lines cmd node st ≡ ok st'
      → Scoping cmd.scope t st
      → Scoping cmd.scope t st'
  node-Scoping node st st' all_recorded (row, here) allowed h s =
      let r = rebase_node-Rebased u blake3 from_lines cmd node st st' h in
      let same : row ≡ r.row = same_row (s.rows node row here) r.here in
      let (node_tree, base_tree, loaded, parent, listed) = all_recorded node row here in
      let theirs : node_tree ≡ r.node_tree = ok-injective (
        sym (load_tree-extends t.trees st.tables.trees row.root_tree_id node_tree s.trees loaded)
        ∙ subst (λ (x : ChangesetRow). load_tree st.tables.trees x.root_tree_id ≡ ok r.node_tree)
            (sym same) r.loaded) in
      let base : base_tree ≡ r.base_tree = ok-injective (
        sym (parent_tree-extends t st.tables row.parents base_tree s.rows s.trees parent)
        ∙ subst (λ (x : ChangesetRow). parent_tree st.tables x.parents ≡ ok r.base_tree) (sym same)
            r.parent) in
      let theirs-Ordered =
        load_tree-Ordered st.tables.trees r.row.root_tree_id r.node_tree s.ordered r.loaded in
      let base-Ordered =
        parent_tree-Ordered st.tables r.row.parents r.base_tree s.ordered r.parent in
      let (on, made) =
        merge_node-MadeOf u blake3 from_lines cmd.record_conflict st.tables r.base_tree st.tip_tree
          r.node_tree r.merge r.made in
      let scoped =
        subst (All (InScope cmd.scope)) (row_changes t.changesets node row here) allowed in
      let touched : (path : Bytes)
          → Differ r.node_tree r.base_tree path
          → scope_allows cmd.scope path ≡ true =
        λ path differ.
          listed-InScope cmd.scope path row.changes
            (listed path (
              subst (λ x. Differ x base_tree path) (sym theirs)
                (subst (λ x. Differ r.node_tree x path) (sym base) differ)))
            scoped in
      step-Scoping node r.node_tree r.merge.0.node (delta_between st.tip_tree r.merge.0.node) st st'
        theirs-Ordered
        (made-Ordered u blake3 from_lines (fetch_blob st.tables.cas) on r.base_tree st.tip_tree
          r.node_tree r.merge.0.node made base-Ordered s.tip theirs-Ordered)
        (delta-InScope u blake3 from_lines cmd.scope (fetch_blob st.tables.cas) on r.base_tree
          st.tip_tree r.node_tree r.merge.0.node made base-Ordered s.tip theirs-Ordered touched)
        r.stepped s

  chain-Scoping :
      (chain : List Bytes) (st st' : Rebasing)
      → AllRecorded t
      → All (HasRow t.changesets) chain
      → All (λ cs. All (InScope cmd.scope) (file_changes_list t.changesets cs)) chain
      → rebase_chain u blake3 from_lines cmd chain st ≡ ok st'
      → Scoping cmd.scope t st
      → Scoping cmd.scope t st'
  unfolding rebase_chain
  chain-Scoping [] st st' recorded has allowed h s = subst (Scoping cmd.scope t) (ok-injective h) s
  chain-Scoping (node ∷ chain) st st' recorded (first, has) (in_scope, allowed) h s =
      let (st₁, one, rest) = bind-eq-ok (rebase_node u blake3 from_lines cmd node st) _ h in
      chain-Scoping chain st₁ st' recorded has allowed rest
        (node-Scoping node st st₁ recorded first in_scope one s)

module _ (u : Unicode) (blake3 : Bytes → Bytes) (from_lines : Bytes → Bytes → TextDiff)
    (cmd : LandCommand) where
  new_in_scope :
      (t : Tables) (old_main : Bytes) (r : LandDone × Tables)
      → OrderedTrees t.trees
      → AllRecorded t
      → Landing u blake3 from_lines cmd t old_main r
      → NewInScope cmd.scope t.changesets r.1.changesets
  unfolding settle land_settle put_land
  new_in_scope t old_main r ordered recorded (contained seen reps reached inside e) =
      subst (λ (x : LandDone × Tables). NewInScope cmd.scope t.changesets x.1.changesets) e
        (λ id row h. inl h)
  new_in_scope t old_main r ordered recorded
        (rebased seen walked generation tip_tree root st moved said reps reached outside w s l c m
          e) =
      let (at, (clear, (linked, out))) = chain_of-Linked t seen cmd.head walked w in
      let start = started old_main generation tip_tree t in
      let kept =
        chain-Scoping u blake3 from_lines cmd t walked.0 start st recorded
          (Linked-HasRow t.changesets cmd.head walked.1 walked.0 linked)
          (check_scope-InScope t.changesets cmd.scope walked.0 s) c
          (record {
            rows = λ id row h. h;
            trees = λ id node h. h;
            ordered = ordered;
            tip = load_tree-Ordered t.trees root tip_tree ordered l;
            written = λ id row h. inl h;
          }) in
      let (now, (rows, lands)) = cas_move-eq old_main st.tip_id st.tables moved m in
      subst (λ (x : LandDone × Tables). NewInScope cmd.scope t.changesets x.1.changesets) e
        (subst (NewInScope cmd.scope t.changesets) (sym rows) kept.written)

  -- A scoped token writes inside its scope alone, in either mode of the merge: every changeset that has a
  -- row after a land that settles a new key had it before, or has changes at paths that the scope allows
  -- and no other. Stored trees have their names in order, each one component, and the changes of a stored
  -- row list every path where its tree differs from that of its first parent.
  pub land_in_txn-NewInScope :
      (t : Tables) (r : LandDone × Tables)
      → OrderedTrees t.trees
      → AllRecorded t
      → t.lands cmd.principal cmd.key ≡ none
      → land_in_txn u blake3 from_lines cmd t ≡ ok r
      → NewInScope cmd.scope t.changesets r.1.changesets
  unfolding land_insert_pending put_land
  land_in_txn-NewInScope t r ordered recorded fresh h =
      let s = land_in_txn-Settling u blake3 from_lines cmd t r fresh h in
      new_in_scope (pending_in cmd t) s.old_main r ordered
        (λ id row e.
          let (node_tree, base_tree, loaded, parent, listed) = recorded id row e in
          (
            node_tree,
            base_tree,
            loaded,
            parent_tree-extends t (pending_in cmd t) row.parents base_tree (λ i x k. k) (λ i x k. k)
                parent,
            listed,
          ))
        s.landing
