-- ===== src/Server/Merge/Delta/Flat.antt =====
-- crates/naatre-server/src/merge.rs: `flatten_files` holds the files of the tree, by their paths.
use naatre.Prelude.{
  ◌≡◌, ◌⊎◌, refl, sym, ap, ◌∙◌, subst, true, false, Option, none, some, List, [], ◌∷◌, ◌++◌, Bytes,
  All, All-append, bytes_lt, bytes_eq, bytes_eq→eq, bytes_eq_refl, Bool-cases, inl, inr,
  if◌then◌else◌,
}
use naatre.Core.Path.{split, slash}
use naatre.Server.TreeDerive.{
  FileMeta, MemNode, no_entries, file_entry, dir_entry, file, dir, get_entry,
}
use naatre.Server.TreeDerive.Files.{
  file_at, file_at-missing, file_at-file, file_at-dir, file_at-same, file_at-no_entries,
}
use naatre.Server.TreeDerive.Ordered.{GoodName, GoodPath, Before, Ordered, Before-absent}
use naatre.Server.Merge.Delta.{
  Files, get, insert_file, join, flatten_into, flatten_files, keys, insert_path, collect,
}
use naatre.Server.Merge.Trees.Step.{get-insert_file, over}
use naatre.Server.Merge.Delta.Parts.{
  split_injective, IsPrefix, split-join, join-IsPrefix, strip, strip_prefix_eq, strip_whole,
  one_more, strip-append,
}

-- The file of a tree at what follows some components.
abbrev file_of_rest : MemNode → Option (List Bytes) → Option FileMeta
file_of_rest node none = none
file_of_rest node (some r) = file_at node r

over-over : (a b c : Option FileMeta) → over a (over b c) ≡ over (over a b) c
over-over none b c = refl
over-over (some m) b c = refl

file_here :
    (n name : Bytes) (m : FileMeta) (rest : MemNode)
    → bytes_eq n name ≡ true
    → get_entry n (file_entry name m rest) ≡ some (file m)
unfolding get_entry
file_here n name m rest same = rw same refl

file_later :
    (n name : Bytes) (m : FileMeta) (rest : MemNode)
    → bytes_eq n name ≡ false
    → get_entry n (file_entry name m rest) ≡ get_entry n rest
unfolding get_entry
file_later n name m rest other = rw other refl

dir_here :
    (n name : Bytes) (child rest : MemNode)
    → bytes_eq n name ≡ true
    → get_entry n (dir_entry name child rest) ≡ some (dir child)
unfolding get_entry
dir_here n name child rest same = rw same refl

dir_later :
    (n name : Bytes) (child rest : MemNode)
    → bytes_eq n name ≡ false
    → get_entry n (dir_entry name child rest) ≡ get_entry n rest
unfolding get_entry
dir_later n name child rest other = rw other refl

-- A file entry, and the entries after it, of other names.
file_rest :
    (name : Bytes) (m : FileMeta) (rest : MemNode) (r : List Bytes)
    → Before name rest
    → (r ≡ name ∷ []) ⊎ (file_at (file_entry name m rest) r ≡ file_at rest r)
unfolding file_at
file_rest name m rest [] h = inr refl
file_rest name m rest (n ∷ ns) h = elim (Bool-cases (bytes_eq n name)) [
  | inl same ↦ behind ns same
  | inr other ↦
      inr (file_at-same (file_entry name m rest) rest n ns (file_later n name m rest other))
]
  where
    absent : bytes_eq n name ≡ true → get_entry n rest ≡ none
    absent same =
        subst (λ x. get_entry x rest ≡ none) (sym (bytes_eq→eq n name same))
          (Before-absent name rest h)

    behind :
        (ns : List Bytes)
        → bytes_eq n name ≡ true
        → (n ∷ ns ≡ name ∷ []) ⊎ (file_at (file_entry name m rest) (n ∷ ns) ≡ file_at rest (n ∷ ns))
    behind [] same = inl (ap (λ x. x ∷ []) (bytes_eq→eq n name same))
    behind (x ∷ xs) same = inr (
        file_at-file (file_entry name m rest) m n (x ∷ xs) (file_here n name m rest same)
        ∙ sym (file_at-missing rest n (x ∷ xs) (absent same)))

file_head :
    (name : Bytes) (m : FileMeta) (rest : MemNode)
    → file_at (file_entry name m rest) (name ∷ []) ≡ some m
file_head name m rest =
    file_at-file (file_entry name m rest) m name []
      (file_here name name m rest (bytes_eq_refl name))

file_tail : (name : Bytes) (rest : MemNode) → Before name rest → file_at rest (name ∷ []) ≡ none
file_tail name rest h = file_at-missing rest name [] (Before-absent name rest h)

-- A directory entry: what is behind its name, and what is not.
dir_rest :
    (name : Bytes) (child rest : MemNode) (o : Option (List Bytes))
    → Before name rest
    → over (file_of_rest rest o) (file_of_rest child (one_more name o))
      ≡ file_of_rest (dir_entry name child rest) o
unfolding file_at
dir_rest name child rest none h = refl
dir_rest name child rest (some []) h = refl
dir_rest name child rest (some (n ∷ ns)) h = elim (Bool-cases (bytes_eq n name)) [
  | inl same ↦
      let gone : get_entry n rest ≡ none =
        subst (λ x. get_entry x rest ≡ none) (sym (bytes_eq→eq n name same))
          (Before-absent name rest h) in
      rw same (
        ap (λ o. over o (file_at child ns)) (file_at-missing rest n ns gone)
        ∙ sym
            (file_at-dir (dir_entry name child rest) child n ns (dir_here n name child rest same)))
  | inr other ↦ rw other (
      over_nothing (file_at rest (n ∷ ns))
      ∙ sym
          (file_at-same (dir_entry name child rest) rest n ns (dir_later n name child rest other)))
]
  where
    over_nothing : (a : Option FileMeta) → over a none ≡ a
    over_nothing none = refl
    over_nothing (some m) = refl

-- What `flatten_into` leaves at a path.
get-flatten_into :
    (node : MemNode) (prefix : Bytes) (ps : List Bytes) (out : Files) (path : Bytes)
    → IsPrefix prefix ps
    → Ordered node
    → get path (flatten_into node prefix out)
      ≡ over (file_of_rest node (strip ps (split path slash))) (get path out)
unfolding flatten_into Ordered
get-flatten_into no_entries prefix ps out path h ord = sym (nothing (strip ps (split path slash)))
  where
    nothing :
        (o : Option (List Bytes)) → over (file_of_rest no_entries o) (get path out) ≡ get path out
    nothing none = refl
    nothing (some r) = rw (file_at-no_entries r) refl
get-flatten_into (file_entry name m rest) prefix ps out path h (good, (before, ord)) =
    get-flatten_into rest prefix ps (insert_file (join prefix name) m out) path h ord
    ∙ ap (over (file_of_rest rest (strip ps (split path slash))))
        (get-insert_file path (join prefix name) m out)
    ∙ at_file (Bool-cases (bytes_eq path (join prefix name)))
  where
    whole : bytes_eq path (join prefix name) ≡ true → strip ps (split path slash) ≡ some (name ∷ [])
    whole same =
        ap (strip ps) (
          ap (λ x. split x slash) (bytes_eq→eq path (join prefix name) same)
          ∙ split-join prefix name ps h good)
        ∙ strip_prefix_eq ps (name ∷ [])

    apart :
        (o : Option (List Bytes))
        → strip ps (split path slash) ≡ o
        → bytes_eq path (join prefix name) ≡ false
        → file_of_rest rest o ≡ file_of_rest (file_entry name m rest) o
    apart none e other = refl
    apart (some r) e other = elim (file_rest name m rest r before) [
      | inl here ↦
          let parts : split path slash ≡ split (join prefix name) slash =
            strip_whole ps (split path slash) r e
            ∙ ap (λ x. ps ++ x) here
            ∙ sym (split-join prefix name ps h good) in
          let same : path ≡ join prefix name = split_injective path (join prefix name) parts in
          let clash : bytes_eq path (join prefix name) ≡ true =
            subst (λ x. bytes_eq path x ≡ true) same (bytes_eq_refl path) in
          absurd cc
      | inr e₁ ↦ sym e₁
    ]

    at_file :
        ((bytes_eq path (join prefix name) ≡ true) ⊎ (bytes_eq path (join prefix name) ≡ false))
        → over
            (file_of_rest rest (strip ps (split path slash)))
            (if bytes_eq path (join prefix name) then some m else get path out)
          ≡ over
              (file_of_rest (file_entry name m rest) (strip ps (split path slash)))
              (get path out)
    at_file (inl same) =
        rw (same, whole same, file_head name m rest, file_tail name rest before) refl
    at_file (inr other) = rw (other, apart _ refl other) refl
get-flatten_into (dir_entry name child rest) prefix ps out path h (good, (below, (before, ord))) =
    get-flatten_into rest prefix ps (flatten_into child (join prefix name) out) path h ord
    ∙ ap (over (file_of_rest rest (strip ps (split path slash)))) (
        get-flatten_into child (join prefix name) (ps ++ (name ∷ [])) out path
          (join-IsPrefix prefix name ps h good) below)
    ∙ over-over _ _ (get path out)
    ∙ ap (λ o. over o (get path out))
        (ap (λ o. over (file_of_rest rest (strip ps (split path slash))) (file_of_rest child o))
            (strip-append ps name (split path slash))
          ∙ dir_rest name child rest (strip ps (split path slash)) before)

-- In a tree whose names ascend, the flattened files hold at each path what the tree does.
pub get-flatten_files :
    (node : MemNode) (path : Bytes)
    → Ordered node
    → get path (flatten_files node) ≡ file_at node (split path slash)
unfolding flatten_files strip get
get-flatten_files node path ord =
    get-flatten_into node [] [] [] path (inl (refl, refl)) ord
    ∙ over_none (file_at node (split path slash))
  where
    over_none : (a : Option FileMeta) → over a none ≡ a
    over_none none = refl
    over_none (some m) = refl

pub all-insert_file :
    (P : Bytes → Type 0) (path : Bytes) (m : FileMeta) (files : Files)
    → P path
    → All P (keys files)
    → All P (keys (insert_file path m files))
unfolding insert_file keys
all-insert_file P path m [] p h = (p, tt)
all-insert_file P path m ((q, n) ∷ files) p (first, h) = elim (Bool-cases (bytes_lt path q)) [
  | inl before ↦ rw before (p, (first, h))
  | inr late ↦ elim (Bool-cases (bytes_eq path q)) [
    | inl same ↦ rw (late, same) (p, h)
    | inr other ↦ rw (late, other) (first, all-insert_file P path m files p h)
  ]
]

flatten-good :
    (node : MemNode) (prefix : Bytes) (ps : List Bytes) (out : Files)
    → IsPrefix prefix ps
    → All GoodName ps
    → Ordered node
    → All GoodPath (keys out)
    → All GoodPath (keys (flatten_into node prefix out))
unfolding flatten_into Ordered
flatten-good no_entries prefix ps out h above ord good = good
flatten-good (file_entry name m rest) prefix ps out h above (named, (before, ord)) good =
    flatten-good rest prefix ps (insert_file (join prefix name) m out) h above ord (
      all-insert_file GoodPath (join prefix name) m out
        (subst (All GoodName) (sym (split-join prefix name ps h named))
          ((All-append GoodName ps (name ∷ [])).1 (above, (named, tt))))
        good)
flatten-good (dir_entry name child rest) prefix ps out h above (named, (below, (before, ord)))
      good =
    flatten-good rest prefix ps (flatten_into child (join prefix name) out) h above ord (
      flatten-good child (join prefix name) (ps ++ (name ∷ [])) out
        (join-IsPrefix prefix name ps h named)
        ((All-append GoodName ps (name ∷ [])).1 (above, (named, tt))) below good)

-- The paths of the files of an ordered tree are good.
pub flatten_files-good : (node : MemNode) → Ordered node → All GoodPath (keys (flatten_files node))
unfolding flatten_files keys
flatten_files-good node ord = flatten-good node [] [] [] (inl (refl, refl)) tt ord tt

all-insert_path :
    (P : Bytes → Type 0) (path : Bytes) (ps : List Bytes)
    → P path
    → All P ps
    → All P (insert_path path ps)
unfolding insert_path
all-insert_path P path [] p h = (p, tt)
all-insert_path P path (q ∷ ps) p (first, h) = elim (Bool-cases (bytes_lt path q)) [
  | inl before ↦ rw before (p, (first, h))
  | inr late ↦ elim (Bool-cases (bytes_eq path q)) [
    | inl same ↦ rw (late, same) (p, h)
    | inr other ↦ rw (late, other) (first, all-insert_path P path ps p h)
  ]
]

pub all-collect : (P : Bytes → Type 0) (ps : List Bytes) → All P ps → All P (collect ps)
unfolding collect
all-collect P [] h = tt
all-collect P (p ∷ ps) (first, h) = all-insert_path P p (collect ps) first (all-collect P ps h)
