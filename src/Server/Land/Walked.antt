-- ===== src/Server/Land/Walked.antt =====
-- crates/naatre-server/src/land.rs: the chain that the walk along first parents returns, and its scope.
use naatre.Prelude.{
  ℕ, zero, suc, ◌≡◌, ◌⊎◌, refl, ◌∙◌, subst, Bool, true, false, not, Option, some, List, [], ◌∷◌,
  Bytes, ok, bind-eq-ok, refuse_if, refuse_if-eq-ok, All, Bool-cases, Option-cases, inl, inr,
}
use naatre.Core.Changeset.{FileChange}
use naatre.Server.Authz.{scope_allows}
use naatre.Server.Land.{
  ChangesetRow, ChangesetRows, CsGraph, redacted_base, forbidden, Tables, redaction_active,
  changeset_graph, find, contains, file_changes_list,
}
use naatre.Server.Land.Chain.{walk, chain_of, walk_steps, check_changes, check_scope}

-- A chain from a base up to a head: each changeset's first parent is the one before it.
pub data Linked (rows : ChangesetRows) (head : Bytes) : Bytes → List Bytes → Type 0 where
  done : Linked rows head head []
  link :
      {base cs : Bytes} {chain : List Bytes} (row : ChangesetRow) (more : List Bytes)
      → find cs rows ≡ some row
      → row.parents ≡ base ∷ more
      → Linked rows head cs chain
      → Linked rows head base (cs ∷ chain)

-- Not in `main`'s ancestry, and not redacted.
abbrev pub Outside : Tables → List Bytes → Bytes → Type 0
Outside t in_main cs = (contains cs in_main ≡ false) × (redaction_active t cs ≡ false)

abbrev pub InScope : Option Bytes → FileChange → Type 0
InScope scope c = scope_allows scope c.path ≡ true

first_of : (ps : List Bytes) → (ps ≡ []) ⊎ ((p : Bytes) × (qs : List Bytes) × (ps ≡ p ∷ qs))
first_of [] = inl refl
first_of (p ∷ qs) = inr (p, qs, refl)

module _ (t : Tables) (in_main : List Bytes) where
  parents_row :
      (cs : Bytes) (g : CsGraph)
      → changeset_graph t.changesets cs ≡ some g
      → (row : ChangesetRow) × (find cs t.changesets ≡ some row) × (row.parents ≡ g.parents)
  unfolding changeset_graph
  parents_row cs g h = elim (Option-cases (find cs t.changesets)) [
    | inl gone ↦ absurd cc
    | inr (row, e) ↦ (row, e, cc)
  ]

  walk_ends :
      (fuel : ℕ) (cursor : Bytes) (chain : List Bytes) (r : List Bytes × Bytes)
      → redaction_active t cursor ≡ false
      → contains cursor in_main ≡ true
      → walk t in_main (suc fuel) cursor chain ≡ ok r
      → (chain, cursor) ≡ r
  unfolding walk
  walk_ends fuel cursor chain r clear inside h = cc

  walk_goes :
      (fuel : ℕ) (cursor : Bytes) (chain : List Bytes) (r : List Bytes × Bytes)
      → contains cursor in_main ≡ false
      → walk t in_main (suc fuel) cursor chain ≡ ok r
      → (g : CsGraph) × (changeset_graph t.changesets cursor ≡ some g)
        × (next : Bytes) × (more : List Bytes) × (g.parents ≡ next ∷ more)
        × (walk t in_main fuel next (cursor ∷ chain) ≡ ok r)
  unfolding walk
  walk_goes fuel cursor chain r outside h =
      let (u₁, clear, h₁) =
        bind-eq-ok (refuse_if (redaction_active t cursor) (redacted_base cursor)) _ h in
      elim (Option-cases (changeset_graph t.changesets cursor)) [
        | inl gone ↦ absurd cc
        | inr (g, e) ↦ elim (first_of g.parents) [
          | inl none_there ↦ absurd cc
          | inr (next, more, e₁) ↦ (g, e, next, more, e₁, cc)
        ]
      ]

  walk-redaction :
      (fuel : ℕ) (cursor : Bytes) (chain : List Bytes) (r : List Bytes × Bytes)
      → walk t in_main (suc fuel) cursor chain ≡ ok r
      → redaction_active t cursor ≡ false
  unfolding walk
  walk-redaction fuel cursor chain r h =
      let (u₁, clear, h₁) =
        bind-eq-ok (refuse_if (redaction_active t cursor) (redacted_base cursor)) _ h in
      refuse_if-eq-ok (redaction_active t cursor) (redacted_base cursor) clear

  -- The walk's invariant, kept to its end.
  walk-Linked :
      (fuel : ℕ) (head cursor : Bytes) (chain : List Bytes) (r : List Bytes × Bytes)
      → Linked t.changesets head cursor chain
      → All (Outside t in_main) chain
      → walk t in_main fuel cursor chain ≡ ok r
      → (contains r.1 in_main ≡ true)
        × ((redaction_active t r.1 ≡ false)
            × (Linked t.changesets head r.1 r.0 × All (Outside t in_main) r.0))
  unfolding walk
  walk-Linked zero head cursor chain r linked out h = absurd cc
  walk-Linked (suc fuel) head cursor chain r linked out h =
      let clear = walk-redaction fuel cursor chain r h in
      elim (Bool-cases (contains cursor in_main)) [
        | inl inside ↦
            subst
              (λ (x : List Bytes × Bytes).
                (contains x.1 in_main ≡ true)
                × ((redaction_active t x.1 ≡ false)
                    × (Linked t.changesets head x.1 x.0 × All (Outside t in_main) x.0)))
              (walk_ends fuel cursor chain r clear inside h) (inside, (clear, (linked, out)))
        | inr outside ↦
            let (g, graph, next, more, parents, h₁) = walk_goes fuel cursor chain r outside h in
            let (row, here, same) = parents_row cursor g graph in
            walk-Linked fuel head next (cursor ∷ chain) r
              (link row more here (same ∙ parents) linked) ((outside, clear), out) h₁
      ]

  -- The walk returns the changesets from the head down to the first that `main`'s ancestry contains: each
  -- is the first parent of the next, none but that base is in the ancestry, and none is redacted.
  pub chain_of-Linked :
      (head : Bytes) (r : List Bytes × Bytes)
      → chain_of t in_main head ≡ ok r
      → (contains r.1 in_main ≡ true)
        × ((redaction_active t r.1 ≡ false)
            × (Linked t.changesets head r.1 r.0 × All (Outside t in_main) r.0))
  unfolding chain_of
  chain_of-Linked head r h =
      walk-Linked (walk_steps (changeset_graph t.changesets head)) head head [] r done tt h

check_changes-InScope :
    (scope : Option Bytes) (cs : List FileChange) {x : Unit {0}}
    → check_changes scope cs ≡ ok x
    → All (InScope scope) cs
unfolding check_changes
check_changes-InScope scope [] h = tt
check_changes-InScope scope (c ∷ cs) h =
    let (u₁, first, h₁) =
      bind-eq-ok (refuse_if (not (scope_allows scope c.path)) (forbidden c.path)) _ h in
    (
      negated (scope_allows scope c.path)
          (refuse_if-eq-ok (not (scope_allows scope c.path)) (forbidden c.path) first),
      check_changes-InScope scope cs h₁,
    )
  where
    negated : (b : Bool) → not b ≡ false → b ≡ true
    negated true e = refl
    negated false e = absurd cc

pub check_scope-InScope :
    (rows : ChangesetRows) (scope : Option Bytes) (chain : List Bytes) {x : Unit {0}}
    → check_scope rows scope chain ≡ ok x
    → All (λ cs. All (InScope scope) (file_changes_list rows cs)) chain
unfolding check_scope
check_scope-InScope rows scope [] h = tt
check_scope-InScope rows scope (cs ∷ chain) h =
    let (u₁, first, h₁) = bind-eq-ok (check_changes scope (file_changes_list rows cs)) _ h in
    (
      check_changes-InScope scope (file_changes_list rows cs) first,
      check_scope-InScope rows scope chain h₁,
    )
