-- ===== src/Server/Land/Steps.antt =====
-- crates/naatre-server/src/land.rs: what the rebase of a changeset does to the rows, case by case.
use naatre.Prelude.{
  suc, ◌≡◌, refl, sym, ap, ◌∙◌, subst, Bool, ◌&&◌, not, none, some, List, [], ◌∷◌, Bytes, Result,
  ok, err, bind-eq-ok, map_err, refuse_if, is_empty, ok_or, ok_or-eq-ok, bytes_eq, bytes_eq→eq,
  split_if, Option-cases, inl, inr,
}
use naatre.Core.Path.{Unicode}
use naatre.Core.Ids.{object_id}
use naatre.Core.Ids
use naatre.Core.Conflict.{ConflictRep, carry}
use naatre.Core.Changeset.{Changeset, FileChange, encode}
use naatre.Server.Merge.Delta.{delta_between}
use naatre.Server.Merge.PathConflict.{PathConflict}
use naatre.Core.Changeset.Validate.{id_for_encoded}
use naatre.Server.TreeDerive.{MemNode}
use naatre.Server.Merge.Lines.{TextDiff}
use naatre.Server.Merge.Trees.{MergedTree}
use naatre.Server.Land.{
  ChangesetRow, ChangesetRows, LandCommand, Tables, internal, find, contains, load_tree,
  conflicts_in,
}
use naatre.Server.TreeDerive.Collect
use naatre.Server.Land.Rebase.{
  Rebasing, changeset_insert_rows, write_tree, put_blobs, insert_node, adopt_or_insert, write_node,
  record_node, rebase_node, rebased_of, encode_error, row_of, collected, gate, parent_tree,
  merge_node, new_reps,
}

-- Two states with the same tip, changesets, settlements and `main`.
pub record SameRows (st st' : Rebasing) : Type 0 where
  pub tip : st'.tip_id ≡ st.tip_id
  pub generation : st'.tip_gen ≡ st.tip_gen
  pub changesets : st'.tables.changesets ≡ st.tables.changesets
  pub main : st'.tables.main ≡ st.tables.main
  pub trees : st'.tables.trees ≡ st.tables.trees
  pub tip_tree : st'.tip_tree ≡ st.tip_tree

same_rows : (st : Rebasing) → SameRows st st
same_rows st = record {
  tip = refl;
  generation = refl;
  changesets = refl;
  main = refl;
  trees = refl;
  tip_tree = refl;
}

same_trans : {a b c : Rebasing} → SameRows a b → SameRows b c → SameRows a c
same_trans p q = record {
  tip = q.tip ∙ p.tip;
  generation = q.generation ∙ p.generation;
  changesets = q.changesets ∙ p.changesets;
  main = q.main ∙ p.main;
  trees = q.trees ∙ p.trees;
  tip_tree = q.tip_tree ∙ p.tip_tree;
}

map_err-ok : {A E F : Type 0} (f : E → F) (r : Result E A) (a : A) → map_err f r ≡ ok a → r ≡ ok a
map_err-ok f (ok b) a h = cc
map_err-ok f (err e) a h = absurd cc

insert_rows-ok :
    (id : Bytes) (row : ChangesetRow) (root : Bytes) (node : MemNode) (t t' : Tables)
    → changeset_insert_rows id row root node t ≡ ok t'
    → (find id t.changesets ≡ none)
      × ((t'.changesets ≡ (id, row) ∷ t.changesets)
          × ((t'.main ≡ t.main) × (t'.trees ≡ write_tree root node t.trees)))
unfolding changeset_insert_rows
insert_rows-ok id row root node t t' h = elim (Option-cases (find id t.changesets)) [
  | inl e ↦ let made = sym (taken e) ∙ h in (e, (cc, (cc, cc)))
  | inr (old, e) ↦ absurd cc
]
  where
    taken :
        find id t.changesets ≡ none
        → changeset_insert_rows id row root node t
          ≡ ok (record t {
            changesets = (id, row) ∷ t.changesets;
            trees = write_tree root node t.trees;
          })
    taken e = cc

module _ (u : Unicode) (blake3 : Bytes → Bytes) (from_lines : Bytes → Bytes → TextDiff)
    (cmd : LandCommand) where
  put_blobs-SameRows :
      (blobs : List (Bytes × Bytes)) (st st' : Rebasing)
      → put_blobs u blake3 from_lines blobs st ≡ ok st'
      → SameRows st st'
  unfolding put_blobs
  put_blobs-SameRows [] st st' h = let e : st ≡ st' = cc in subst (SameRows st) e (same_rows st)
  put_blobs-SameRows ((id, bytes) ∷ blobs) st st' h =
      elim (split_if (contains id st.written_blobs) _ _ h) [
        | inl (old, h₁) ↦ put_blobs-SameRows blobs st st' h₁
        | inr (new, h₁) ↦
            let (u₁, checked, put) =
              bind-eq-ok (refuse_if (not (bytes_eq (object_id blake3 Ids.blob bytes) id)) internal)
                _ h₁ in
            same_trans
              (record {
                tip = refl;
                generation = refl;
                changesets = refl;
                main = refl;
                trees = refl;
                tip_tree = refl;
              })
              (put_blobs-SameRows blobs _ st' put)
      ]

  -- What a rebased changeset does: it is dropped, is adopted as the tip, or has a new row there.
  pub data Stepped (node : Bytes) (node_tree merged : MemNode) (changes : List FileChange)
      (st st' : Rebasing) : Type 0 where
    dropped : SameRows st st' → Stepped node node_tree merged changes st st'
    adopted :
        (row : ChangesetRow) (cs : Changeset) (canonical : Bytes)
        → find node st.tables.changesets ≡ some row
        → encode u cs ≡ ok canonical
        → id_for_encoded blake3 canonical (not (is_empty cs.conflicts)) ≡ node
        → cs.parents ≡ st.tip_id ∷ []
        → st'.tip_id ≡ node
        → st'.tables.changesets ≡ st.tables.changesets
        → st'.tables.main ≡ st.tables.main
        → st'.tables.trees ≡ st.tables.trees
        → st'.tip_tree ≡ node_tree
        → Stepped node node_tree merged changes st st'
    inserted :
        (row : ChangesetRow) (canonical : Bytes) (v2 : Bool) (root : Bytes)
        → st'.tip_id ≡ id_for_encoded blake3 canonical v2
        → find st'.tip_id st.tables.changesets ≡ none
        → st'.tables.changesets ≡ (st'.tip_id, row) ∷ st.tables.changesets
        → row.parents ≡ st.tip_id ∷ []
        → st'.tables.main ≡ st.tables.main
        → row.changes ≡ changes
        → st'.tables.trees ≡ write_tree root merged st.tables.trees
        → st'.tip_tree ≡ merged
        → Stepped node node_tree merged changes st st'

  insert_node-Stepped :
      (node : Bytes) (st st₁ st' : Rebasing) (cs : Changeset) (canonical : Bytes) (v2 : Bool)
      (node_tree merged : MemNode)
      → SameRows st st₁
      → cs.parents ≡ st.tip_id ∷ []
      → insert_node u blake3 from_lines cmd cs canonical
          (id_for_encoded blake3 canonical v2)
          merged
          st₁
        ≡ ok st'
      → Stepped node node_tree merged cs.changes st st'
  unfolding insert_node row_of
  insert_node-Stepped node st st₁ st' cs canonical v2 node_tree merged same parent h =
      let new_id = id_for_encoded blake3 canonical v2 in
      let (r, root, h₁) =
        bind-eq-ok (collected u blake3 from_lines (Collect.collect blake3 merged)) _ h in
      let row = row_of u blake3 from_lines cmd cs canonical (suc st₁.tip_gen) r.0 in
      let (t, written, h₂) =
        bind-eq-ok (changeset_insert_rows new_id row r.0 merged st₁.tables) _ h₁ in
      let (fresh, (rows, (main, trees))) =
        insert_rows-ok new_id row r.0 merged st₁.tables t written in
      let tip : new_id ≡ st'.tip_id = cc in
      let tables : t ≡ st'.tables = cc in
      let grown : st'.tables.changesets ≡ (new_id, row) ∷ st.tables.changesets =
        ap (λ (x : Tables). x.changesets) (sym tables)
        ∙ rows
        ∙ ap (λ (x : ChangesetRows). (new_id, row) ∷ x) same.changesets in
      let kept : st'.tables.main ≡ st.tables.main =
        ap (λ (x : Tables). x.main) (sym tables) ∙ main ∙ same.main in
      let unused : find new_id st.tables.changesets ≡ none =
        ap (λ (x : ChangesetRows). find new_id x) (sym same.changesets) ∙ fresh in
      let tip_tree : merged ≡ st'.tip_tree = cc in
      inserted row canonical v2 r.0 (sym tip)
        (subst (λ x. find x st.tables.changesets ≡ none) tip unused)
        (subst (λ x. st'.tables.changesets ≡ (x, row) ∷ st.tables.changesets) tip grown) parent kept
        refl
        (ap (λ (x : Tables). x.trees) (sym tables)
          ∙ trees
          ∙ ap (λ x. write_tree r.0 merged x) same.trees)
        (sym tip_tree)

  write_node-Stepped :
      (node : Bytes) (node_tree : MemNode) (cs : Changeset) (merged : MergedTree)
      (row : ChangesetRow) (st st' : Rebasing)
      → find node st.tables.changesets ≡ some row
      → cs.parents ≡ st.tip_id ∷ []
      → write_node u blake3 from_lines cmd node node_tree cs merged st ≡ ok st'
      → Stepped node node_tree merged.node cs.changes st st'
  unfolding write_node adopt_or_insert
  write_node-Stepped node node_tree cs merged row st st' here parent h =
      let (canonical, enc, h₁) = bind-eq-ok (map_err encode_error (encode u cs)) _ h in
      let v2 = not (is_empty cs.conflicts) in
      let new_id = id_for_encoded blake3 canonical v2 in
      let (u₁, passed, h₂) = bind-eq-ok (gate st.tables cs merged new_id) _ h₁ in
      let (st₁, put, h₃) = bind-eq-ok (put_blobs u blake3 from_lines merged.new_blobs st) _ h₂ in
      let same = put_blobs-SameRows merged.new_blobs st st₁ put in
      let encoded = map_err-ok encode_error (encode u cs) canonical enc in
      elim (split_if (bytes_eq new_id node) _ _ h₃) [
        | inl (adopt, made) ↦
            let tip : node ≡ st'.tip_id = cc in
            let tip_tree : node_tree ≡ st'.tip_tree = cc in
            let tables : st₁.tables ≡ st'.tables = cc in
            adopted row cs canonical here encoded (bytes_eq→eq new_id node adopt) parent (sym tip)
              (ap (λ (x : Tables). x.changesets) (sym tables) ∙ same.changesets)
              (ap (λ (x : Tables). x.main) (sym tables) ∙ same.main)
              (ap (λ (x : Tables). x.trees) (sym tables) ∙ same.trees) (sym tip_tree)
        | inr (add, made) ↦
            insert_node-Stepped node st st₁ st' cs canonical v2 node_tree merged.node same parent
              made
      ]

  record_node-Stepped :
      (node : Bytes) (node_tree : MemNode) (row : ChangesetRow) (merged : MergedTree)
      (reps : List ConflictRep) (st st' : Rebasing)
      → find node st.tables.changesets ≡ some row
      → record_node u blake3 from_lines cmd node node_tree row merged reps st ≡ ok st'
      → Stepped node node_tree merged.node (delta_between st.tip_tree merged.node) st st'
  unfolding record_node rebased_of
  record_node-Stepped node node_tree row merged reps st st' here h =
      let cs = rebased_of u blake3 from_lines cmd row st merged reps in
      elim (split_if (is_empty cs.changes && is_empty cs.conflicts) _ _ h) [
        | inl (empty, made) ↦
            let e : st ≡ st' = cc in dropped (subst (SameRows st) e (same_rows st))
        | inr (more, made) ↦ write_node-Stepped node node_tree cs merged row st st' here refl made
      ]

  -- What the rebase of a changeset has read and merged, and its step.
  pub record Rebased (node : Bytes) (st st' : Rebasing) : Type 0 where
    pub row : ChangesetRow
    pub here : find node st.tables.changesets ≡ some row
    pub node_tree : MemNode
    pub loaded : load_tree st.tables.trees row.root_tree_id ≡ ok node_tree
    pub base_tree : MemNode
    pub parent : parent_tree st.tables row.parents ≡ ok base_tree
    pub merge : MergedTree × List PathConflict
    pub made :
        merge_node u blake3 from_lines cmd.record_conflict st.tables base_tree st.tip_tree node_tree
        ≡ ok merge
    pub stepped :
        Stepped node node_tree merge.0.node (delta_between st.tip_tree merge.0.node) st st'

  -- A changeset that is rebased is one of these steps.
  pub rebase_node-Rebased :
      (node : Bytes) (st st' : Rebasing)
      → rebase_node u blake3 from_lines cmd node st ≡ ok st'
      → Rebased node st st'
  unfolding rebase_node
  rebase_node-Rebased node st st' h =
      let (row, here, h₁) = bind-eq-ok (ok_or (find node st.tables.changesets) internal) _ h in
      let (node_tree, e₂, h₂) = bind-eq-ok (load_tree st.tables.trees row.root_tree_id) _ h₁ in
      let (base_tree, e₃, h₃) = bind-eq-ok (parent_tree st.tables row.parents) _ h₂ in
      let (node_reps, e₄, h₄) = bind-eq-ok (conflicts_in row.canonical) _ h₃ in
      let (m, e₅, h₅) =
        bind-eq-ok
          (merge_node u blake3 from_lines cmd.record_conflict st.tables base_tree st.tip_tree
            node_tree)
          _ h₄ in
      let (reps, e₆, h₆) = bind-eq-ok (new_reps u blake3 from_lines m.1) _ h₅ in
      let at_node = ok_or-eq-ok (find node st.tables.changesets) internal here in
      record {
        row = row;
        here = at_node;
        node_tree = node_tree;
        loaded = e₂;
        base_tree = base_tree;
        parent = e₃;
        merge = m;
        made = e₅;
        stepped =
            record_node-Stepped node node_tree row m.0 (carry node_reps reps) st st' at_node h₆;
      }
