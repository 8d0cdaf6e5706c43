-- ===== src/Server/Land/Chain.antt =====
-- crates/naatre-server/src/land.rs: the walk along first parents from the head to `main`'s ancestry, and
-- the scope of the changes on it.
use naatre.Prelude.{
  ℕ, zero, suc, true, false, not, Option, none, some, List, [], ◌∷◌, Bytes, Result, ok, err, bind,
  refuse_if,
}
use naatre.Core.Changeset.{FileChange}
use naatre.Server.Authz.{scope_allows}
use naatre.Server.Land.{
  ChangesetRows, CsGraph, LandError, not_found, no_shared_history, redacted_base, forbidden,
  out_of_steps, Tables, redaction_active, changeset_graph, contains, file_changes_list,
}

module _ (t : Tables) (in_main : List Bytes) where
  -- The chain, oldest first, and the changeset of `main`'s ancestry where it ends. The walk pushes to the
  -- front what the source pushes to the back and then reverses.
  unfoldable pub walk :
      ℕ → (cursor : Bytes) (chain : List Bytes) → Result LandError (List Bytes × Bytes)
  walk zero cursor chain = err out_of_steps
  walk (suc fuel) cursor chain =
      bind (refuse_if (redaction_active t cursor) (redacted_base cursor)) λ _.
        elim (contains cursor in_main) [
          | true ↦ ok (chain, cursor)
          | false ↦ elim (changeset_graph t.changesets cursor) [
            | none ↦ err not_found
            | some g ↦ elim g.parents [
              | [] ↦ err no_shared_history
              | next ∷ more ↦ walk fuel next (cursor ∷ chain)
            ]
          ]
        ]

-- The steps for a head: its first parents have ever smaller generations.
unfoldable pub walk_steps : Option CsGraph → ℕ
walk_steps none = 1
walk_steps (some g) = suc (suc g.generation)

unfoldable pub chain_of : Tables → List Bytes → Bytes → Result LandError (List Bytes × Bytes)
chain_of t in_main head = walk t in_main (walk_steps (changeset_graph t.changesets head)) head []

unfoldable pub check_changes : Option Bytes → List FileChange → Result LandError (Unit {0})
check_changes scope [] = ok tt
check_changes scope (c ∷ cs) =
    bind (refuse_if (not (scope_allows scope c.path)) (forbidden c.path))
      λ _. check_changes scope cs

-- Every change of the chain is in the token's scope.
unfoldable pub check_scope : ChangesetRows → Option Bytes → List Bytes → Result LandError (Unit {0})
check_scope rows scope [] = ok tt
check_scope rows scope (cs ∷ chain) =
    bind (check_changes scope (file_changes_list rows cs)) λ _. check_scope rows scope chain
