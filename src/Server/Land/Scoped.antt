-- ===== src/Server/Land/Scoped.antt =====
-- crates/naatre-server/src/land.rs: the paths that a land writes, in either mode of the merge.
use naatre.Prelude.{
  ◌≡◌, refl, sym, ap, ◌∙◌, subst, Bool, true, false, Option, none, some, List, [], ◌∷◌, ◌++◌, map,
  Bytes, Result, ok, err, bind-eq-ok, ok-injective, map_err, All, is_empty, bytes_eq, bytes_eq→eq,
  bytes_eq_refl, arith, Bool-cases, split_if, inl, inr,
}
use naatre.Core.Path.{Unicode}
use naatre.Core.Changeset.{FileChange}
use naatre.Core.Conflict.{bool_eq}
use naatre.Server.Authz.{scope_allows}
use naatre.Server.TreeDerive.{FileMeta, MemNode}
use naatre.Server.TreeDerive.Ordered.{Ordered}
use naatre.Server.Merge.Lines.{TextDiff}
use naatre.Server.Merge.PathConflict.{PathConflict}
use naatre.Server.Merge.Delta.Paths.{has}
use naatre.Server.Merge.Delta.{
  Files, get, keys, collect, flatten_files, delta_between, delta_files, changes_at, change_of, push,
  key_eq,
}
use naatre.Server.Merge.Trees.{
  OnConflict, refuse, record', MergedTree, RecordedMerge, entry_eq, merge_trees,
  merge_trees_recording, merge_trees_mode,
}
use naatre.Server.Merge.Trees.Kept.{MadeOf, merge_trees_mode-MadeOf, made-keeps}
use naatre.Server.Land.{ChangesetRow, Tables, find, load_tree}
use naatre.Server.Land.Rebase.{fetch_blob, merge_error, recording_done, merge_node, parent_tree}
use naatre.Server.Land.Walked.{InScope}
use naatre.Server.Merge.Delta.Changes.{path-change_of}

map_ok : {A E F : Type 0} (f : E → F) (r : Result E A) (a : A) → map_err f r ≡ ok a → r ≡ ok a
map_ok f (ok b) a h = cc
map_ok f (err e) a h = absurd cc

-- A change of the delta between two trees is at a path where they differ.
change_somewhere :
    (P : FileChange → Type 0) (a c : Files) (paths : List Bytes)
    → ((path : Bytes) (x : FileChange) → change_of path (get path a) (get path c) ≡ some x → P x)
    → All P (changes_at a c paths)
unfolding changes_at
change_somewhere P a c [] k = tt
change_somewhere P a c (path ∷ paths) k =
    at_path (change_of path (get path a) (get path c)) refl (change_somewhere P a c paths k)
  where
    at_path :
        (o : Option FileChange)
        → change_of path (get path a) (get path c) ≡ o
        → All P (changes_at a c paths)
        → All P (push (change_of path (get path a) (get path c)) (changes_at a c paths))
    at_path none e rest = rw e rest
    at_path (some x) e rest = rw e (k path x e, rest)

change_of_same : (path : Bytes) (a : Option FileMeta) → change_of path a a ≡ none
unfolding change_of key_eq bool_eq
change_of_same path none = refl
change_of_same path (some m) = elim (Bool-cases m.exec) [
  | inl set ↦ rw (bytes_eq_refl m.blob, set) refl
  | inr unset ↦ rw (bytes_eq_refl m.blob, unset) refl
]

-- A path that is listed in changes that are in scope is in scope.
pub listed-InScope :
    (scope : Option Bytes) (path : Bytes) (cs : List FileChange)
    → has path (map (λ c. c.path) cs) ≡ true
    → All (InScope scope) cs
    → scope_allows scope path ≡ true
listed-InScope scope path [] h all_in = absurd cc
listed-InScope scope path (c ∷ cs) h (first, all_in) = elim (Bool-cases (bytes_eq path c.path)) [
  | inl same ↦ subst (λ x. scope_allows scope x ≡ true) (sym (bytes_eq→eq path c.path same)) first
  | inr other ↦ listed-InScope scope path cs (ground arith) all_in
]

abbrev pub Differ : MemNode → MemNode → Bytes → Type 0
Differ a c path = entry_eq (get path (flatten_files a)) (get path (flatten_files c)) ≡ false

-- The changes of a row list every path where its tree differs from its first parent's.
abbrev pub Recorded : Tables → ChangesetRow → Type 0
Recorded t row =
    (node_tree base_tree : MemNode) × (load_tree t.trees row.root_tree_id ≡ ok node_tree)
    × (parent_tree t row.parents ≡ ok base_tree)
    × ((path : Bytes)
        → Differ node_tree base_tree path
        → has path (map (λ c. c.path) row.changes) ≡ true)

abbrev pub AllRecorded : Tables → Type 0
AllRecorded t = (id : Bytes) (row : ChangesetRow) → find id t.changesets ≡ some row → Recorded t row

module _ (u : Unicode) (blake3 : Bytes → Bytes) (from_lines : Bytes → Bytes → TextDiff) where
  -- The merge of a changeset, in either mode, is a merged tree.
  pub merge_node-MadeOf :
      (recording : Bool) (t : Tables) (base ours theirs : MemNode)
      (m : MergedTree × List PathConflict)
      → merge_node u blake3 from_lines recording t base ours theirs ≡ ok m
      → (on : OnConflict) × MadeOf u blake3 from_lines
          (fetch_blob t.cas)
          on
          base
          ours
          theirs
          m.0.node
  unfolding merge_node merge_trees merge_trees_recording
  merge_node-MadeOf true t base ours theirs m h =
      let (r, e, e₁) =
        bind-eq-ok
          (map_err (merge_error t)
            (merge_trees_recording u blake3 from_lines (fetch_blob t.cas) base ours theirs))
          _ h in
      let (x, e₂, e₃) =
        bind-eq-ok
          (merge_trees_mode u blake3 from_lines (fetch_blob t.cas) base ours theirs record') _
          (map_ok (merge_error t)
            (merge_trees_recording u blake3 from_lines (fetch_blob t.cas) base ours theirs) r e) in
      let tree : x.0 ≡ r.tree = ap (λ y. y.tree) (ok-injective e₃) in
      let whole : r.tree ≡ m.0 = recorded_tree r e₁ in
      (
        record',
        subst
            (λ (y : MergedTree).
              MadeOf u blake3 from_lines (fetch_blob t.cas) record' base ours theirs y.node)
            (tree ∙ whole)
            (merge_trees_mode-MadeOf u blake3 from_lines (fetch_blob t.cas) record' base ours theirs
              x e₂),
      )
    where
      recorded_tree :
          (r : RecordedMerge) → recording_done u blake3 from_lines r ≡ ok m → r.tree ≡ m.0
      recorded_tree r e = elim (split_if (is_empty r.oversized) _ _ e) [
        | inl (fits, e₁) ↦ ap (λ y. y.0) (ok-injective e₁)
        | inr (big, e₁) ↦ absurd cc
      ]
  merge_node-MadeOf false t base ours theirs m h =
      let (r, e, e₁) =
        bind-eq-ok
          (map_err (merge_error t)
            (merge_trees u blake3 from_lines (fetch_blob t.cas) base ours theirs))
          _ h in
      let (x, e₂, e₃) =
        bind-eq-ok (merge_trees_mode u blake3 from_lines (fetch_blob t.cas) base ours theirs refuse)
          _
          (map_ok (merge_error t)
            (merge_trees u blake3 from_lines (fetch_blob t.cas) base ours theirs) r e) in
      let whole : x.0 ≡ m.0 = ok-injective e₃ ∙ ap (λ y. y.0) (ok-injective e₁) in
      (
        refuse,
        subst
            (λ (y : MergedTree).
              MadeOf u blake3 from_lines (fetch_blob t.cas) refuse base ours theirs y.node)
            whole
            (merge_trees_mode-MadeOf u blake3 from_lines (fetch_blob t.cas) refuse base ours theirs
              x e₂),
      )

  -- The delta to a merged tree stays in a scope that has every path that theirs touched.
  pub delta-InScope :
      (scope : Option Bytes) (fetch : Bytes → Result Bytes Bytes) (on : OnConflict)
      (base ours theirs node : MemNode)
      → MadeOf u blake3 from_lines fetch on base ours theirs node
      → Ordered base
      → Ordered ours
      → Ordered theirs
      → ((path : Bytes) → Differ theirs base path → scope_allows scope path ≡ true)
      → All (InScope scope) (delta_between ours node)
  unfolding delta_between delta_files
  delta-InScope scope fetch on base ours theirs node made b o t touched =
      change_somewhere (InScope scope) (flatten_files ours) (flatten_files node)
        (collect (keys (flatten_files ours) ++ keys (flatten_files node)))
        λ path x e.
          elim (Bool-cases
            (entry_eq (get path (flatten_files theirs)) (get path (flatten_files base)))) [
              | inl same ↦
                  let kept =
                    made-keeps u blake3 from_lines fetch on base ours theirs node path made b o t
                      same in
                  let unchanged : change_of path (get path (flatten_files ours))
                        (get path (flatten_files node))
                      ≡ none =
                    ap (change_of path (get path (flatten_files ours))) kept
                    ∙ change_of_same path (get path (flatten_files ours)) in
                  absurd cc
              | inr differ ↦
                  subst (λ p. scope_allows scope p ≡ true)
                    (sym (
                      path-change_of path (get path (flatten_files ours))
                        (get path (flatten_files node)) x e))
                    (touched path differ)
            ]
