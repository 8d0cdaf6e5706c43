-- ===== src/Server/Land/Stored.antt =====
-- crates/naatre-server/src/land.rs: the trees that a land loads and writes.
use naatre.Prelude.{
  ◌≡◌, ◌⊎◌, refl, sym, ap, ◌∙◌, subst, Option, none, some, List, [], ◌∷◌, Bytes, ok, bind-eq-ok,
  ok-injective, bytes_eq, bytes_eq→eq, Bool-cases, Option-cases, split_if, inl, inr, ok_or,
  ok_or-eq-ok,
}
use naatre.Server.TreeDerive.{MemNode}
use naatre.Server.TreeDerive.Ordered.{Ordered}
use naatre.Server.Land.{internal, Tables, find, load_tree, load_root, and_then_id}
use naatre.Server.Land.Rebase.{parent_tree, write_tree}
use naatre.Server.Land.Grown.{Extends}

-- Every tree that is stored has names in order, each one component.
abbrev pub OrderedTrees : List (Bytes × MemNode) → Type 0
OrderedTrees trees = (root : Bytes) (node : MemNode) → find root trees ≡ some node → Ordered node

abbrev pub TreesExtend : List (Bytes × MemNode) → List (Bytes × MemNode) → Type 0
TreesExtend old new =
    (root : Bytes) (node : MemNode) → find root old ≡ some node → find root new ≡ some node

pub load_tree-Ordered :
    (trees : List (Bytes × MemNode)) (root : Option Bytes) (node : MemNode)
    → OrderedTrees trees
    → load_tree trees root ≡ ok node
    → Ordered node
unfolding load_tree Ordered
load_tree-Ordered trees root node ordered h = by_id (and_then_id root) h
  where
    by_id : (o : Option Bytes) → load_root trees o ≡ ok node → Ordered node
    by_id none e = subst Ordered (ok-injective e) tt
    by_id (some id) e = ordered id node (ok_or-eq-ok (find id trees) internal e)

pub load_tree-extends :
    (old new : List (Bytes × MemNode)) (root : Option Bytes) (node : MemNode)
    → TreesExtend old new
    → load_tree old root ≡ ok node
    → load_tree new root ≡ ok node
unfolding load_tree
load_tree-extends old new root node ext h = by_id (and_then_id root) h
  where
    by_id : (o : Option Bytes) → load_root old o ≡ ok node → load_root new o ≡ ok node
    by_id none e = e
    by_id (some id) e = rw (ext id node (ok_or-eq-ok (find id old) internal e)) refl

pub parent_tree-Ordered :
    (t : Tables) (ps : List Bytes) (node : MemNode)
    → OrderedTrees t.trees
    → parent_tree t ps ≡ ok node
    → Ordered node
unfolding parent_tree Ordered
parent_tree-Ordered t [] node ordered h = subst Ordered (ok-injective h) tt
parent_tree-Ordered t (p ∷ ps) node ordered h =
    let (row, here, e) = bind-eq-ok (ok_or (find p t.changesets) internal) _ h in
    load_tree-Ordered t.trees row.root_tree_id node ordered e

pub parent_tree-extends :
    (t t' : Tables) (ps : List Bytes) (node : MemNode)
    → Extends t.changesets t'.changesets
    → TreesExtend t.trees t'.trees
    → parent_tree t ps ≡ ok node
    → parent_tree t' ps ≡ ok node
unfolding parent_tree
parent_tree-extends t t' [] node ext trees h = h
parent_tree-extends t t' (p ∷ ps) node ext trees h =
    let (row, here, e) = bind-eq-ok (ok_or (find p t.changesets) internal) _ h in
    rw (ext p row (ok_or-eq-ok (find p t.changesets) internal here))
      (load_tree-extends t.trees t'.trees row.root_tree_id node trees e)

tree_added :
    (root : Bytes) (node : MemNode) (trees : List (Bytes × MemNode))
    → find root trees ≡ none
    → write_tree root node trees ≡ (root, node) ∷ trees
unfolding write_tree
tree_added root node trees h = cc

tree_kept :
    (root : Bytes) (node old : MemNode) (trees : List (Bytes × MemNode))
    → find root trees ≡ some old
    → write_tree root node trees ≡ trees
unfolding write_tree
tree_kept root node old trees h = cc

pub write_tree-TreesExtend :
    (root : Bytes) (node : MemNode) (trees : List (Bytes × MemNode))
    → TreesExtend trees (write_tree root node trees)
unfolding find
write_tree-TreesExtend root node trees id old h = elim (Option-cases (find root trees)) [
  | inl gone ↦ subst (λ x. find id x ≡ some old) (sym (tree_added root node trees gone)) (past gone)
  | inr (x, there) ↦ subst (λ y. find id y ≡ some old) (sym (tree_kept root node x trees there)) h
]
  where
    past : find root trees ≡ none → find id ((root, node) ∷ trees) ≡ some old
    past gone = elim (Bool-cases (bytes_eq id root)) [
      | inl same ↦
          let clash : find root trees ≡ some old =
            subst (λ x. find x trees ≡ some old) (bytes_eq→eq id root same) h in
          absurd cc
      | inr other ↦ rw other h
    ]

-- The tree that is written, and those that were there.
pub find-write_tree :
    (root id : Bytes) (node old : MemNode) (trees : List (Bytes × MemNode))
    → find id (write_tree root node trees) ≡ some old
    → (node ≡ old) ⊎ (find id trees ≡ some old)
unfolding find
find-write_tree root id node old trees h = elim (Option-cases (find root trees)) [
  | inl gone ↦ added (ap (find id) (sym (tree_added root node trees gone)) ∙ h)
  | inr (x, there) ↦ inr (ap (find id) (sym (tree_kept root node x trees there)) ∙ h)
]
  where
    added : find id ((root, node) ∷ trees) ≡ some old → (node ≡ old) ⊎ (find id trees ≡ some old)
    added e = elim (split_if (bytes_eq id root) _ _ e) [
      | inl (same, e₁) ↦ inl cc
      | inr (other, e₁) ↦ inr e₁
    ]
