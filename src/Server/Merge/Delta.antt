-- ===== src/Server/Merge/Delta.antt =====
-- crates/naatre-server/src/merge.rs: the files of a tree and the delta between two trees. A `BTreeMap`
-- is the list of its entries, and a `BTreeSet` that of its elements, in ascending order.
pub mod Paths
pub mod Changes
pub mod Parts
pub mod Flat
use naatre.Prelude.{
  ℕ, Bool, true, false, ◌&&◌, not, Option, none, some, List, [], ◌∷◌, ◌++◌, map, Bytes, bytes_eq,
  bytes_lt, is_empty, if◌then◌else◌,
}
use naatre.Core.Conflict.{bool_eq}
use naatre.Core.Path.{slash}
use naatre.Core.Changeset.{FileChange, add, mod', del}
use naatre.Server.TreeDerive.{FileMeta, MemNode, no_entries, file_entry, dir_entry}

abbrev pub Files : Type 0
Files = List (Bytes × FileMeta)

-- `BTreeMap::get`
unfoldable pub get : Bytes → Files → Option FileMeta
get path [] = none
get path ((p, m) ∷ files) = if bytes_eq path p then some m else get path files

-- `BTreeMap::insert`
unfoldable pub insert_file : Bytes → FileMeta → Files → Files
insert_file path m [] = (path, m) ∷ []
insert_file path m ((p, n) ∷ files) =
    let rest = insert_file path m files in
    if bytes_lt path p
    then (path, m) ∷ (p, n) ∷ files
    else if bytes_eq path p
    then (path, m) ∷ files
    else (p, n) ∷ rest

unfoldable pub join : Bytes → Bytes → Bytes
join prefix name = if is_empty prefix then name else prefix ++ (slash ∷ name)

unfoldable pub flatten_into : MemNode → Bytes → Files → Files
flatten_into no_entries prefix out = out
flatten_into (file_entry name meta rest) prefix out =
    flatten_into rest prefix (insert_file (join prefix name) meta out)
flatten_into (dir_entry name child rest) prefix out =
    flatten_into rest prefix (flatten_into child (join prefix name) out)

unfoldable pub flatten_files : MemNode → Files
flatten_files node = flatten_into node [] []

-- `ae.key() == ce.key()`
unfoldable pub key_eq : FileMeta → FileMeta → Bool
key_eq a c = bytes_eq a.blob c.blob && bool_eq a.exec c.exec

-- What the loop over the paths pushes for a path.
unfoldable pub change_of : Bytes → Option FileMeta → Option FileMeta → Option FileChange
change_of path (some a) (some c) =
    if not (key_eq a c)
    then some (record {
      path = path;
      op = mod';
      blob = some c.blob;
      size = some c.size;
      exec = some c.exec;
    })
    else none
change_of path (some a) none =
    some (record { path = path; op = del; blob = none; size = none; exec = none })
change_of path none (some c) =
    some
      (record { path = path; op = add; blob = some c.blob; size = some c.size; exec = some c.exec })
change_of path none none = none

-- `BTreeSet::insert`
unfoldable pub insert_path : Bytes → List Bytes → List Bytes
insert_path path [] = path ∷ []
insert_path path (p ∷ ps) =
    let rest = insert_path path ps in
    if bytes_lt path p then path ∷ p ∷ ps else if bytes_eq path p then path ∷ ps else p ∷ rest

-- `a.keys().chain(c.keys()).collect()` of a set
unfoldable pub collect : List Bytes → List Bytes
collect [] = []
collect (p ∷ ps) = insert_path p (collect ps)

unfoldable pub keys : Files → List Bytes
keys [] = []
keys ((p, m) ∷ files) = p ∷ keys files

abbrev pub push : Option FileChange → List FileChange → List FileChange
push none out = out
push (some c) out = c ∷ out

-- The loop over the paths.
unfoldable pub changes_at : Files → Files → List Bytes → List FileChange
changes_at a c [] = []
changes_at a c (path ∷ paths) =
    push (change_of path (get path a) (get path c)) (changes_at a c paths)

unfoldable pub delta_files : Files → Files → List FileChange
delta_files a c = changes_at a c (collect (keys a ++ keys c))

unfoldable pub delta_between : MemNode → MemNode → List FileChange
delta_between parent child = delta_files (flatten_files parent) (flatten_files child)
