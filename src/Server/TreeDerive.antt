-- ===== src/Server/TreeDerive.antt =====
-- crates/naatre-server/src/tree_derive.rs: in-memory directories and the file changes applied to them.
-- The entries of a directory, a `BTreeMap` by name, are the list of them in ascending order of name.
-- What follows an error in `apply` is left out: every caller drops the node then.
pub mod Entries
pub mod Files
pub mod Inserted
pub mod Removed
pub mod Lookups
pub mod Applied
pub mod Refused
pub mod Collect
pub mod Ordered
use naatre.Prelude.{
  ℕ, ◌+◌, Bool, true, false, ◌&&◌, not, Option, none, some, List, [], ◌∷◌, Bytes, Result, ok, err,
  bind, refuse_if, length, ltb, bytes_eq, bytes_lt, if◌then◌else◌,
}
use naatre.Core.Path.{split, slash, max_path_components}
use naatre.Core.Changeset.{Op, add, mod', del, FileChange}

-- The fields of `MemEntry::File`, which are those of `FileMeta` in merge.rs.
pub record FileMeta : Type 0 where
  pub blob : Bytes
  pub size : ℕ
  pub exec : Bool

pub data MemNode : Type 0 where
  no_entries : MemNode
  file_entry : (name : Bytes) (meta : FileMeta) (rest : MemNode) → MemNode
  dir_entry : (name : Bytes) (child rest : MemNode) → MemNode

pub data MemEntry : Type 0 where
  file : FileMeta → MemEntry
  dir : MemNode → MemEntry

pub data ApplyError : Type 0 where
  file_in_path mod_not_file del_not_file too_deep : (path : Bytes) → ApplyError

unfoldable pub cons_entry : Bytes → MemEntry → MemNode → MemNode
cons_entry name (file m) rest = file_entry name m rest
cons_entry name (dir child) rest = dir_entry name child rest

-- `entries.get(name)`
unfoldable pub get_entry : Bytes → MemNode → Option MemEntry
get_entry name no_entries = none
get_entry name (file_entry n m rest) =
    if bytes_eq name n then some (file m) else get_entry name rest
get_entry name (dir_entry n child rest) =
    if bytes_eq name n then some (dir child) else get_entry name rest

abbrev placed : Bytes → Bytes → MemEntry → MemNode → MemNode → MemNode → MemNode
placed name n e here rest later =
    if bytes_lt name n
    then cons_entry name e here
    else if bytes_eq name n
    then cons_entry name e rest
    else later

-- `entries.insert(name, entry)`
unfoldable pub put_entry : Bytes → MemEntry → MemNode → MemNode
put_entry name e no_entries = cons_entry name e no_entries
put_entry name e (file_entry n m rest) =
    let later = file_entry n m (put_entry name e rest) in
    placed name n e (file_entry n m rest) rest later
put_entry name e (dir_entry n child rest) =
    let later = dir_entry n child (put_entry name e rest) in
    placed name n e (dir_entry n child rest) rest later

-- `entries.remove(name)`
unfoldable pub remove_entry : Bytes → MemNode → MemNode
remove_entry name no_entries = no_entries
remove_entry name (file_entry n m rest) =
    let later = remove_entry name rest in if bytes_eq name n then later else file_entry n m later
remove_entry name (dir_entry n child rest) =
    let later = remove_entry name rest in if bytes_eq name n then later else dir_entry n child later

unfoldable pub is_empty : MemNode → Bool
is_empty no_entries = true
is_empty (file_entry n m rest) = false
is_empty (dir_entry n child rest) = false

-- The last of a list that is not empty, and the list before it.
unfoldable pub split_last : Bytes → List Bytes → List Bytes × Bytes
split_last s [] = ([], s)
split_last s (t ∷ ts) = let (dirs, leaf) = split_last t ts in (s ∷ dirs, leaf)

abbrev split_last_of : List Bytes → List Bytes × Bytes
split_last_of [] = ([], [])
split_last_of (s ∷ ss) = split_last s ss

-- `path.split('/')` is never empty.
unfoldable pub split_leaf : Bytes → List Bytes × Bytes
split_leaf path = split_last_of (split path slash)

-- The walk of `lookup`.
unfoldable pub lookup_in : MemNode → List Bytes → Bytes → Option MemEntry
lookup_in node [] leaf = get_entry leaf node
lookup_in node (name ∷ dirs) leaf = elim (get_entry name node) [
  | none ↦ none
  | some e ↦ elim e [ file m ↦ none | dir child ↦ lookup_in child dirs leaf ]
]

unfoldable pub lookup : MemNode → Bytes → Option MemEntry
lookup node path = lookup_in node (split_leaf path).0 (split_leaf path).1

unfoldable pub insert_in :
    MemNode → List Bytes → Bytes → Bytes → FileMeta → Result ApplyError MemNode
insert_in node [] leaf full m = ok (put_entry leaf (file m) node)
insert_in node (name ∷ dirs) leaf full m = elim (get_entry name node) [
  | none ↦
      bind (insert_in no_entries dirs leaf full m) λ child. ok (put_entry name (dir child) node)
  | some e ↦ elim e [
    | file f ↦ err (file_in_path full)
    | dir child ↦ bind (insert_in child dirs leaf full m) λ c. ok (put_entry name (dir c) node)
  ]
]

abbrev is_some_entry : Option MemEntry → Bool
is_some_entry none = false
is_some_entry (some e) = true

-- The child is mutated in place, then removed from its parent if that emptied it.
abbrev pruned : Bytes → MemNode → MemNode × Bool → MemNode × Bool
pruned name node (child, removed) = (
  if removed && is_empty child then remove_entry name node else put_entry name (dir child) node,
  removed,
)

unfoldable pub remove_in : MemNode → List Bytes → Bytes → MemNode × Bool
remove_in node [] leaf = (remove_entry leaf node, is_some_entry (get_entry leaf node))
remove_in node (name ∷ dirs) leaf = elim (get_entry name node) [
  | none ↦ (node, false)
  | some e ↦ elim e [
    | file m ↦ (node, false)
    | dir child ↦ pruned name node (remove_in child dirs leaf)
  ]
]

unfoldable pub insert_file : MemNode → Bytes → FileMeta → Result ApplyError MemNode
insert_file node path m = insert_in node (split_leaf path).0 (split_leaf path).1 path m

unfoldable pub remove_file : MemNode → Bytes → MemNode
remove_file node path = (remove_in node (split_leaf path).0 (split_leaf path).1).0

-- `matches!(entry, Some(MemEntry::File { .. }))`
abbrev pub is_file : Option MemEntry → Bool
is_file none = false
is_file (some e) = elim e [ file m ↦ true | dir child ↦ false ]

-- The fields of an addition or modification, if all are there.
unfoldable pub meta_of : FileChange → Option FileMeta
meta_of c = elim c.blob [
  | none ↦ none
  | some blob ↦ elim c.size [
    | none ↦ none
    | some size ↦ elim c.exec [
      | none ↦ none
      | some exec ↦ some (record { blob = blob; size = size; exec = exec })
    ]
  ]
]

-- The arm of `Op::Add | Op::Mod`.
unfoldable pub apply_write : Bool → MemNode → Bytes → Option FileMeta → Result ApplyError MemNode
apply_write is_mod node path none = err (mod_not_file path)
apply_write is_mod node path (some m) =
    bind (refuse_if (is_mod && not (is_file (lookup node path))) (mod_not_file path))
      λ _. insert_file node path m

unfoldable pub apply_op : Op → MemNode → FileChange → Result ApplyError MemNode
apply_op add node c = apply_write false node c.path (meta_of c)
apply_op mod' node c = apply_write true node c.path (meta_of c)
apply_op del node c =
    bind (refuse_if (not (is_file (lookup node c.path))) (del_not_file c.path))
      λ _. ok (remove_file node c.path)

unfoldable pub apply_change : MemNode → FileChange → Result ApplyError MemNode
apply_change node c =
    bind (refuse_if (ltb max_path_components (length (split c.path slash))) (too_deep c.path))
      λ _. apply_op c.op node c

unfoldable pub apply : MemNode → List FileChange → Result ApplyError MemNode
apply node [] = ok node
apply node (c ∷ cs) = bind (apply_change node c) λ n. apply n cs
