-- ===== src/Server/TreeDerive/Lookups.antt =====
-- crates/naatre-server/src/tree_derive.rs: `lookup` on the files of a tree.
use naatre.Prelude.{
  ◌≡◌, refl, sym, ap, ◌∙◌, Option, none, some, List, [], ◌∷◌, ◌++◌, Bytes, is_empty, if◌then◌else◌,
  Option-cases, inl, inr,
}
use naatre.Server.TreeDerive.{FileMeta, MemNode, MemEntry, file, dir, get_entry, lookup_in}
use naatre.Server.TreeDerive.Files.{file_at, file_at-missing, file_at-dir, file_at-file}

not_last :
    (f : FileMeta) (dirs : List Bytes) (leaf : Bytes)
    → (if is_empty (dirs ++ (leaf ∷ [])) then some f else none) ≡ none
not_last f [] leaf = refl
not_last f (d ∷ dirs) leaf = refl

unfoldable pub file_of : Option MemEntry → Option FileMeta
file_of none = none
file_of (some (file m)) = some m
file_of (some (dir child)) = none

lookup_in-missing :
    (node : MemNode) (n : Bytes) (dirs : List Bytes) (leaf : Bytes)
    → get_entry n node ≡ none
    → lookup_in node (n ∷ dirs) leaf ≡ none
unfolding lookup_in
lookup_in-missing node n dirs leaf h = cc

lookup_in-file :
    (node : MemNode) (f : FileMeta) (n : Bytes) (dirs : List Bytes) (leaf : Bytes)
    → get_entry n node ≡ some (file f)
    → lookup_in node (n ∷ dirs) leaf ≡ none
unfolding lookup_in
lookup_in-file node f n dirs leaf h = cc

lookup_in-dir :
    (node child : MemNode) (n : Bytes) (dirs : List Bytes) (leaf : Bytes)
    → get_entry n node ≡ some (dir child)
    → lookup_in node (n ∷ dirs) leaf ≡ lookup_in child dirs leaf
unfolding lookup_in
lookup_in-dir node child n dirs leaf h = cc

-- `lookup` finds a file exactly where the tree has one.
pub lookup_in-files :
    (node : MemNode) (dirs : List Bytes) (leaf : Bytes)
    → file_of (lookup_in node dirs leaf) ≡ file_at node (dirs ++ (leaf ∷ []))
lookup_in-files node [] leaf = elim (Option-cases (get_entry leaf node)) [
  | inl missing ↦
      ap file_of (leaf_entry missing)
      ∙ (unfold file_of in sym (file_at-missing node leaf [] missing))
  | inr (entry, found) ↦
      elim entry as (λ x. get_entry leaf node ≡ some x → _) [
        | file f ↦ λ at.
            ap file_of (leaf_entry at) ∙ (unfold file_of in sym (file_at-file node f leaf [] at))
        | dir child ↦ λ at.
            ap file_of (leaf_entry at)
            ∙ (unfold file_of in sym (file_at-dir node child leaf [] at ∙ (unfold file_at in refl)))
      ]
        found
]
  where
    leaf_entry : {o : Option MemEntry} → get_entry leaf node ≡ o → lookup_in node [] leaf ≡ o
    leaf_entry e = unfold lookup_in in e
lookup_in-files node (n ∷ dirs) leaf = elim (Option-cases (get_entry n node)) [
  | inl missing ↦
      ap file_of (lookup_in-missing node n dirs leaf missing)
      ∙ (unfold file_of in sym (file_at-missing node n (dirs ++ (leaf ∷ [])) missing))
  | inr (entry, found) ↦
      elim entry as (λ x. get_entry n node ≡ some x → _) [
        | file f ↦ λ at.
            ap file_of (lookup_in-file node f n dirs leaf at)
            ∙ (unfold file_of in
                sym (file_at-file node f n (dirs ++ (leaf ∷ [])) at ∙ not_last f dirs leaf))
        | dir child ↦ λ at.
            ap file_of (lookup_in-dir node child n dirs leaf at)
            ∙ lookup_in-files child dirs leaf
            ∙ sym (file_at-dir node child n (dirs ++ (leaf ∷ [])) at)
      ]
        found
]
