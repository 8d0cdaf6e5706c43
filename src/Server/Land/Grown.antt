-- ===== src/Server/Land/Grown.antt =====
-- crates/naatre-server/src/land.rs: what the loop over the chain keeps of the rows that it starts from.
use naatre.Prelude.{
  ◌≡◌, refl, sym, ◌∙◌, subst, Bool, not, none, some, List, [], ◌∷◌, ◌++◌, Bytes, ok, bind-eq-ok,
  is_empty, bytes_eq, bytes_eq→eq, All, Bool-cases, inl, inr, bytes_eq_refl, ◌⊎◌,
}
use naatre.Core.Path.{Unicode}
use naatre.Core.Changeset.{Changeset, FileChange, encode}
use naatre.Server.TreeDerive.{MemNode}
use naatre.Server.Merge.Delta.{delta_between}
use naatre.Core.Changeset.Validate.{id_for_encoded}
use naatre.Server.Merge.Lines.{TextDiff}
use naatre.Server.Land.{ChangesetRow, ChangesetRows, LandCommand, find}
use naatre.Server.Land.Rebase.{Rebasing, rebase_node, rebase_chain}
use naatre.Server.Land.Steps.{Stepped, dropped, adopted, inserted, rebase_node-Rebased}
use naatre.Server.Land.Walked.{Linked, done, link}

-- Every row of the first is a row of the second.
abbrev pub Extends : ChangesetRows → ChangesetRows → Type 0
Extends old new =
    (id : Bytes) (row : ChangesetRow) → find id old ≡ some row → find id new ≡ some row

abbrev pub HasRow : ChangesetRows → Bytes → Type 0
HasRow rows cs = (row : ChangesetRow) × (find cs rows ≡ some row)

-- A changeset is above another: first parents lead from the one to the other.
abbrev pub Above : ChangesetRows → (upper lower : Bytes) → Type 0
Above rows upper lower = (chain : List Bytes) × Linked rows upper lower chain

pub find-fresh :
    (new id : Bytes) (r row : ChangesetRow) (rows : ChangesetRows)
    → find new rows ≡ none
    → find id rows ≡ some row
    → find id ((new, r) ∷ rows) ≡ some row
unfolding find
find-fresh new id r row rows fresh h = elim (Bool-cases (bytes_eq id new)) [
  | inl same ↦
      let there : find new rows ≡ some row =
        subst (λ x. find x rows ≡ some row) (bytes_eq→eq id new same) h in
      absurd cc
  | inr apart ↦ rw apart h
]

find-head :
    (id : Bytes) (row : ChangesetRow) (rows : ChangesetRows) → find id ((id, row) ∷ rows) ≡ some row
unfolding find
find-head id row rows = rw (bytes_eq_refl id) refl

Linked-Extends :
    (old new : ChangesetRows) (head base : Bytes) (chain : List Bytes)
    → Extends old new
    → Linked old head base chain
    → Linked new head base chain
Linked-Extends old new head base chain ext done = done
Linked-Extends old new head base chain ext
      (link {cs = cs} {chain = rest} row more here first linked) =
    link row more (ext cs row here) first (Linked-Extends old new head cs rest ext linked)

Linked-top :
    (rows : ChangesetRows) (top new base : Bytes) (chain : List Bytes) (row : ChangesetRow)
    → find new rows ≡ some row
    → row.parents ≡ top ∷ []
    → Linked rows top base chain
    → Linked rows new base (chain ++ (new ∷ []))
Linked-top rows top new base chain row here parent done = link row [] here parent done
Linked-top rows top new base chain row here parent
      (link {cs = cs} {chain = rest} r more e first linked) =
    link r more e first (Linked-top rows top new cs rest row here parent linked)

pub Linked-HasRow :
    (rows : ChangesetRows) (head base : Bytes) (chain : List Bytes)
    → Linked rows head base chain
    → All (HasRow rows) chain
Linked-HasRow rows head base chain done = tt
Linked-HasRow rows head base chain (link {cs = cs} {chain = rest} row more here first linked) =
    ((row, here), Linked-HasRow rows head cs rest linked)

module _ (u : Unicode) (blake3 : Bytes → Bytes) where
  -- Ids are content addresses: a changeset that hashes to a row's id has the row's parents.
  abbrev pub Addressed : ChangesetRows → Type 0
  Addressed rows =
      (id : Bytes) (row : ChangesetRow)
      → find id rows ≡ some row
      → (cs : Changeset) (canonical : Bytes) → encode u cs ≡ ok canonical
      → id_for_encoded blake3 canonical (not (is_empty cs.conflicts)) ≡ id
      → row.parents ≡ cs.parents

  -- The tip is `main`'s changeset or one that was written.
  abbrev pub TipId : (old_main tip : Bytes) → Type 0
  TipId old_main tip =
      (tip ≡ old_main)
      ⊎ ((canonical : Bytes) × (v2 : Bool) × (tip ≡ id_for_encoded blake3 canonical v2))

  pub record Grown (rows : ChangesetRows) (old_main : Bytes) (st : Rebasing) : Type 0 where
    pub extends : Extends rows st.tables.changesets
    pub above : Above st.tables.changesets st.tip_id old_main

module _ (u : Unicode) (blake3 : Bytes → Bytes) (from_lines : Bytes → Bytes → TextDiff)
    (cmd : LandCommand) (rows : ChangesetRows) (old_main : Bytes) where
  moved-Grown :
      (st st' : Rebasing)
      → st'.tip_id ≡ st.tip_id
      → st'.tables.changesets ≡ st.tables.changesets
      → Grown u blake3 rows old_main st
      → Grown u blake3 rows old_main st'
  moved-Grown st st' tip same g = record {
    extends = λ id row h. subst (λ x. find id x ≡ some row) (sym same) (g.extends id row h);
    above =
        subst (λ x. Above x st'.tip_id old_main) (sym same)
          (subst (λ x. Above st.tables.changesets x old_main) (sym tip) g.above);
  }

  step-Grown :
      (node : Bytes) (node_tree merged : MemNode) (changes : List FileChange) (st st' : Rebasing)
      → Addressed u blake3 rows
      → HasRow rows node
      → Stepped u blake3 from_lines cmd node node_tree merged changes st st'
      → Grown u blake3 rows old_main st
      → Grown u blake3 rows old_main st'
  step-Grown node node_tree merged changes st st' addressed has (dropped same) g =
      moved-Grown st st' same.tip same.changesets g
  step-Grown node node_tree merged changes st st' addressed (r, here)
        (adopted row cs canonical now enc id parent tip same main trees tree) g =
      let (chain, linked) = g.above in
      let at : find node st.tables.changesets ≡ some r = g.extends node r here in
      let parents : r.parents ≡ st.tip_id ∷ [] =
        addressed node r here cs canonical enc id ∙ parent in
      let grown : Above st.tables.changesets node old_main = (
        chain ++ (node ∷ []),
        Linked-top st.tables.changesets st.tip_id node old_main chain r at parents linked,
      ) in
      record {
        extends = λ i x h. subst (λ y. find i y ≡ some x) (sym same) (g.extends i x h);
        above =
            subst (λ x. Above x st'.tip_id old_main) (sym same)
              (subst (λ x. Above st.tables.changesets x old_main) (sym tip) grown);
      }
  step-Grown node node_tree merged changes st st' addressed has
        (inserted row canonical v2 root tip fresh same parent main recorded trees tree) g =
      let (chain, linked) = g.above in
      let new = st'.tip_id in
      let all = (new, row) ∷ st.tables.changesets in
      let kept : Extends st.tables.changesets all =
        λ i x h. find-fresh new i row x st.tables.changesets fresh h in
      let grown : Above all new old_main = (
        chain ++ (new ∷ []),
        Linked-top all st.tip_id new old_main chain row (find-head new row st.tables.changesets)
            parent (Linked-Extends st.tables.changesets all st.tip_id old_main chain kept linked),
      ) in
      record {
        extends = λ i x h. subst (λ y. find i y ≡ some x) (sym same) (kept i x (g.extends i x h));
        above = subst (λ x. Above x new old_main) (sym same) grown;
      }

  pub chain-Grown :
      (chain : List Bytes) (st st' : Rebasing)
      → Addressed u blake3 rows
      → All (HasRow rows) chain
      → rebase_chain u blake3 from_lines cmd chain st ≡ ok st'
      → Grown u blake3 rows old_main st
      → Grown u blake3 rows old_main st'
  unfolding rebase_chain
  chain-Grown [] st st' addressed has h g =
      let e : st ≡ st' = cc in subst (Grown u blake3 rows old_main) e g
  chain-Grown (node ∷ chain) st st' addressed (first, has) h g =
      let (st₁, one, rest) = bind-eq-ok (rebase_node u blake3 from_lines cmd node st) _ h in
      let r = rebase_node-Rebased u blake3 from_lines cmd node st st₁ one in
      chain-Grown chain st₁ st' addressed has rest (
        step-Grown node r.node_tree r.merge.0.node (delta_between st.tip_tree r.merge.0.node) st st₁
          addressed first r.stepped g)

  step-TipId :
      (node : Bytes) (node_tree merged : MemNode) (changes : List FileChange) (st st' : Rebasing)
      → Stepped u blake3 from_lines cmd node node_tree merged changes st st'
      → TipId u blake3 old_main st.tip_id
      → TipId u blake3 old_main st'.tip_id
  step-TipId node node_tree merged changes st st' (dropped same) g =
      subst (TipId u blake3 old_main) (sym same.tip) g
  step-TipId node node_tree merged changes st st'
        (adopted row cs canonical now enc id parent tip same main trees tree) g =
      inr (canonical, not (is_empty cs.conflicts), tip ∙ sym id)
  step-TipId node node_tree merged changes st st'
        (inserted row canonical v2 root tip fresh same parent main recorded trees tree) g =
      inr (canonical, v2, tip)

  pub chain-TipId :
      (chain : List Bytes) (st st' : Rebasing)
      → rebase_chain u blake3 from_lines cmd chain st ≡ ok st'
      → TipId u blake3 old_main st.tip_id
      → TipId u blake3 old_main st'.tip_id
  unfolding rebase_chain
  chain-TipId [] st st' h g =
      let e : st ≡ st' = cc in subst (λ (x : Rebasing). TipId u blake3 old_main x.tip_id) e g
  chain-TipId (node ∷ chain) st st' h g =
      let (st₁, one, rest) = bind-eq-ok (rebase_node u blake3 from_lines cmd node st) _ h in
      chain-TipId chain st₁ st' rest (
        let r = rebase_node-Rebased u blake3 from_lines cmd node st st₁ one in
        step-TipId node r.node_tree r.merge.0.node (delta_between st.tip_tree r.merge.0.node) st st₁
          r.stepped g)
