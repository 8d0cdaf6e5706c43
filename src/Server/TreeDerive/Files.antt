-- ===== src/Server/TreeDerive/Files.antt =====
-- crates/naatre-server/src/tree_derive.rs: the files of a tree by their components, and how `apply`
-- changes them.
use naatre.Prelude.{
  ◌≡◌, refl, sym, ◌∙◌, subst, arith, true, false, Option, none, some, List, [], ◌∷◌, Bytes,
  bytes_eq, bytes_eq_refl, bytes_eq→eq, is_empty, if◌then◌else◌, Bool-cases, inl, inr,
}
use naatre.Server.TreeDerive.{FileMeta, MemNode, no_entries, file, dir, get_entry}

-- The file at a path, given by its components.
unfoldable pub file_at : MemNode → List Bytes → Option FileMeta
file_at node [] = none
file_at node (n ∷ ns) = elim (get_entry n node) [
  | none ↦ none
  | some e ↦ elim e [ file m ↦ if is_empty ns then some m else none | dir child ↦ file_at child ns ]
]

-- What a path `q` holds, where it held `old`, once `p` holds `new`: nothing is left below `p`.
unfoldable pub place : Option FileMeta → List Bytes → List Bytes → Option FileMeta → Option FileMeta
place new [] [] old = new
place new [] (t ∷ ts) old = none
place new (s ∷ ss) [] old = old
place new (s ∷ ss) (t ∷ ts) old =
    let rest = place new ss ts old in if bytes_eq t s then rest else old

pub file_at-missing :
    (node : MemNode) (n : Bytes) (ns : List Bytes)
    → get_entry n node ≡ none
    → file_at node (n ∷ ns) ≡ none
unfolding file_at
file_at-missing node n ns h = cc

pub file_at-dir :
    (node child : MemNode) (n : Bytes) (ns : List Bytes)
    → get_entry n node ≡ some (dir child)
    → file_at node (n ∷ ns) ≡ file_at child ns
unfolding file_at
file_at-dir node child n ns h = cc

pub file_at-file :
    (node : MemNode) (m : FileMeta) (n : Bytes) (ns : List Bytes)
    → get_entry n node ≡ some (file m)
    → file_at node (n ∷ ns) ≡ (if is_empty ns then some m else none)
unfolding file_at
file_at-file node m n ns h = cc

-- Nodes with the same entry of a name have the same files behind it.
pub file_at-same :
    (node other : MemNode) (n : Bytes) (ns : List Bytes)
    → get_entry n node ≡ get_entry n other
    → file_at node (n ∷ ns) ≡ file_at other (n ∷ ns)
unfolding file_at
file_at-same node other n ns h = cc

pub file_at-no_entries : (ns : List Bytes) → file_at no_entries ns ≡ none
unfolding file_at get_entry
file_at-no_entries [] = refl
file_at-no_entries (n ∷ ns) = refl

-- The law of one level: what stands behind `n` changes as its child does, and nothing else does.
pub level :
    (new : Option FileMeta) (p : List Bytes) (n : Bytes) (node node' : MemNode)
    → ((ns : List Bytes) → file_at node' (n ∷ ns) ≡ place new p ns (file_at node (n ∷ ns)))
    → ((q : Bytes) → bytes_eq q n ≡ false → get_entry q node' ≡ get_entry q node)
    → (q : List Bytes) → file_at node' q ≡ place new (n ∷ p) q (file_at node q)
level new p n node node' k other [] = unfold place file_at in refl
level new p n node node' k other (t ∷ ts) = elim (Bool-cases (bytes_eq t n)) [
  | inl same ↦
      let at = bytes_eq→eq t n same in
      subst (λ u. file_at node' (u ∷ ts) ≡ place new (n ∷ p) (u ∷ ts) (file_at node (u ∷ ts)))
        (sym at) (here _ _ (k ts) (bytes_eq_refl n))
  | inr differs ↦ file_at-same node' node t ts (other t differs) ∙ away _ differs
]
  where
    here :
        (old x : Option FileMeta)
        → x ≡ place new p ts old
        → bytes_eq n n ≡ true
        → x ≡ place new (n ∷ p) (n ∷ ts) old
    here old x e same = unfold place in rw same e

    away : (old : Option FileMeta) → bytes_eq t n ≡ false → old ≡ place new (n ∷ p) (t ∷ ts) old
    away old differs = unfold place in rw differs refl

-- What a file or nothing leaves behind its name.
pub place_leaf :
    (m : FileMeta) (ns : List Bytes) (old : Option FileMeta)
    → (if is_empty ns then some m else none) ≡ place (some m) [] ns old
unfolding place
place_leaf m [] old = refl
place_leaf m (n ∷ ns) old = refl

pub place_gone : (ns : List Bytes) (old : Option FileMeta) → none ≡ place none [] ns old
unfolding place
place_gone [] old = refl
place_gone (n ∷ ns) old = refl

pub place_nothing : (p q : List Bytes) → place none p q none ≡ none
unfolding place
place_nothing [] [] = refl
place_nothing [] (t ∷ ts) = refl
place_nothing (s ∷ ss) [] = refl
place_nothing (s ∷ ss) (t ∷ ts) = ground (arith, place_nothing ss ts)
