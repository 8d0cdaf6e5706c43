-- ===== src/Server/TreeDerive/Refused.antt =====
-- crates/naatre-server/src/tree_derive.rs: the changes that `apply` refuses.
use naatre.Prelude.{
  ◌≡◌, refl, sym, ap, ◌∙◌, Bool, true, false, ◌&&◌, not, Option, none, some, List, [], ◌∷◌, map,
  any, Bytes, Result, ok, err, bind, refuse_if, length, ltb, if◌then◌else◌, Option-cases, inl, inr,
}
use naatre.Core.Path.{split, slash, max_path_components}
use naatre.Core.Changeset.{Op, add, mod', del, FileChange}
use naatre.Server.TreeDerive
use naatre.Server.TreeDerive.{
  FileMeta, MemNode, no_entries, MemEntry, file, dir, ApplyError, too_deep, mod_not_file,
  del_not_file, file_in_path, get_entry, put_entry, split_leaf, lookup_in, lookup, insert_in,
  insert_file, is_file, meta_of, apply_write, apply_op, apply_change,
}
use naatre.Server.TreeDerive.Files.{
  file_at, file_at-missing, file_at-dir, file_at-file, file_at-no_entries,
}
use naatre.Server.TreeDerive.Lookups.{file_of, lookup_in-files}
use naatre.Server.TreeDerive.Applied.{split_leaf-append}

abbrev pub is_there : Option FileMeta → Bool
is_there none = false
is_there (some m) = true

-- The paths of the directories above a leaf.
unfoldable pub above : List Bytes → List (List Bytes)
above [] = []
above (s ∷ ss) = (s ∷ []) ∷ map (λ p. s ∷ p) (above ss)

-- Whether one of those is a file.
unfoldable pub blocked : MemNode → List Bytes → Bool
blocked node dirs = any (λ p. is_there (file_at node p)) (above dirs)

-- What a write is refused for, by what it writes.
unfoldable pub refused_write : Bool → MemNode → Bytes → Option FileMeta → Option ApplyError
refused_write is_mod node path none = some (mod_not_file path)
refused_write is_mod node path (some m) =
    if is_mod && not (is_there (file_at node (split path slash)))
    then some (mod_not_file path)
    else if blocked node (split_leaf path).0
    then some (file_in_path path)
    else none

unfoldable pub refused_op : Op → MemNode → FileChange → Option ApplyError
refused_op add node c = refused_write false node c.path (meta_of c)
refused_op mod' node c = refused_write true node c.path (meta_of c)
refused_op del node c =
    if is_there (file_at node (split c.path slash)) then none else some (del_not_file c.path)

-- What a change is refused for, if it is, by the files of the tree.
unfoldable pub refused : MemNode → FileChange → Option ApplyError
refused node c =
    if ltb max_path_components (length (split c.path slash))
    then some (too_deep c.path)
    else refused_op c.op node c

abbrev pub error_of : Result ApplyError MemNode → Option ApplyError
error_of (ok node) = none
error_of (err e) = some e

error_bind :
    (r : Result ApplyError MemNode) (f : MemNode → MemNode)
    → error_of (bind r (λ n. ok (f n))) ≡ error_of r
error_bind (ok n) f = refl
error_bind (err e) f = refl

any_same :
    (f g : List Bytes → Bool) (n : Bytes) (ps : List (List Bytes))
    → ((p : List Bytes) → f (n ∷ p) ≡ g p)
    → any f (map (λ p. n ∷ p) ps) ≡ any g ps
any_same f g n [] h = refl
any_same f g n (p ∷ ps) h = rw (h p, any_same f g n ps h) refl

any_never :
    (g : List Bytes → Bool) (ps : List (List Bytes))
    → ((p : List Bytes) → g p ≡ false)
    → any g ps ≡ false
any_never g [] h = refl
any_never g (p ∷ ps) h = rw (h p) (any_never g ps h)

blocked-no_entries : (dirs : List Bytes) → blocked no_entries dirs ≡ false
unfolding blocked
blocked-no_entries dirs = any_never _ (above dirs) (λ p. ap is_there (file_at-no_entries p))

blocked-missing :
    (node : MemNode) (n : Bytes) (dirs : List Bytes)
    → get_entry n node ≡ none
    → blocked node (n ∷ dirs) ≡ false
unfolding blocked above
blocked-missing node n dirs h =
    let first = file_at-missing node n [] h in
    rw first (
      any_same (λ p. is_there (file_at node p)) (λ p. false) n (above dirs)
        (λ p. ap is_there (file_at-missing node n p h))
      ∙ any_never (λ p. false) (above dirs) (λ p. refl))

blocked-file :
    (node : MemNode) (f : FileMeta) (n : Bytes) (dirs : List Bytes)
    → get_entry n node ≡ some (file f)
    → blocked node (n ∷ dirs) ≡ true
unfolding blocked above
blocked-file node f n dirs h = let first = file_at-file node f n [] h in rw first refl

blocked-dir :
    (node child : MemNode) (n : Bytes) (dirs : List Bytes)
    → get_entry n node ≡ some (dir child)
    → blocked node (n ∷ dirs) ≡ blocked child dirs
unfolding blocked above
blocked-dir node child n dirs h =
    let first : file_at node (n ∷ []) ≡ none =
      file_at-dir node child n [] h ∙ (unfold file_at in refl) in
    rw first (
      any_same (λ p. is_there (file_at node p)) (λ p. is_there (file_at child p)) n (above dirs)
        (λ p. ap is_there (file_at-dir node child n p h)))

into_missing :
    (node : MemNode) (n : Bytes) (dirs : List Bytes) (leaf full : Bytes) (m : FileMeta)
    → get_entry n node ≡ none
    → error_of (insert_in node (n ∷ dirs) leaf full m)
      ≡ error_of (insert_in no_entries dirs leaf full m)
into_missing node n dirs leaf full m h =
    ap error_of step
    ∙ error_bind (insert_in no_entries dirs leaf full m) (λ child. put_entry n (dir child) node)
  where
    step :
        insert_in node (n ∷ dirs) leaf full m
        ≡ bind (insert_in no_entries dirs leaf full m) (λ child. ok (put_entry n (dir child) node))
    step = unfold insert_in in cc

into_file :
    (node : MemNode) (f : FileMeta) (n : Bytes) (dirs : List Bytes) (leaf full : Bytes)
    (m : FileMeta)
    → get_entry n node ≡ some (file f)
    → error_of (insert_in node (n ∷ dirs) leaf full m) ≡ some (file_in_path full)
into_file node f n dirs leaf full m h = ap error_of step
  where
    step : insert_in node (n ∷ dirs) leaf full m ≡ err (file_in_path full)
    step = unfold insert_in in cc

into_dir :
    (node child : MemNode) (n : Bytes) (dirs : List Bytes) (leaf full : Bytes) (m : FileMeta)
    → get_entry n node ≡ some (dir child)
    → error_of (insert_in node (n ∷ dirs) leaf full m) ≡ error_of (insert_in child dirs leaf full m)
into_dir node child n dirs leaf full m h =
    ap error_of step ∙ error_bind (insert_in child dirs leaf full m) (λ c. put_entry n (dir c) node)
  where
    step :
        insert_in node (n ∷ dirs) leaf full m
        ≡ bind (insert_in child dirs leaf full m) (λ c. ok (put_entry n (dir c) node))
    step = unfold insert_in in cc

abbrev in_path : Bytes → Bool → Option ApplyError
in_path full b = if b then some (file_in_path full) else none

insert_in-blocked :
    (node : MemNode) (dirs : List Bytes) (leaf full : Bytes) (m : FileMeta)
    → error_of (insert_in node dirs leaf full m) ≡ in_path full (blocked node dirs)
insert_in-blocked node [] leaf full m = unfold insert_in blocked above in refl
insert_in-blocked node (n ∷ dirs) leaf full m = elim (Option-cases (get_entry n node)) [
  | inl missing ↦
      into_missing node n dirs leaf full m missing
      ∙ insert_in-blocked no_entries dirs leaf full m
      ∙ ap (in_path full) (blocked-no_entries dirs ∙ sym (blocked-missing node n dirs missing))
  | inr (entry, found) ↦
      elim entry as (λ x. get_entry n node ≡ some x → _) [
        | file f ↦ λ at.
            into_file node f n dirs leaf full m at
            ∙ ap (in_path full) (sym (blocked-file node f n dirs at))
        | dir child ↦ λ at.
            into_dir node child n dirs leaf full m at
            ∙ insert_in-blocked child dirs leaf full m
            ∙ ap (in_path full) (sym (blocked-dir node child n dirs at))
      ]
        found
]

is_file-there : (o : Option MemEntry) → is_file o ≡ is_there (file_of o)
unfolding file_of
is_file-there none = refl
is_file-there (some (file m)) = refl
is_file-there (some (dir child)) = refl

lookup_there :
    (node : MemNode) (path : Bytes)
    → is_file (lookup node path) ≡ is_there (file_at node (split path slash))
unfolding lookup
lookup_there node path =
    let (dirs, leaf) = split_leaf path in
    is_file-there (lookup_in node dirs leaf)
    ∙ ap is_there (lookup_in-files node dirs leaf ∙ ap (file_at node) (split_leaf-append path))

refusing :
    (b : Bool) (e : ApplyError) (r : Result ApplyError MemNode)
    → error_of (bind (refuse_if b e) (λ _. r)) ≡ (if b then some e else error_of r)
refusing true e r = refl
refusing false e r = refl

write-refused :
    (is_mod : Bool) (node : MemNode) (path : Bytes) (new : Option FileMeta)
    → error_of (apply_write is_mod node path new) ≡ refused_write is_mod node path new
unfolding apply_write refused_write insert_file
write-refused is_mod node path none = refl
write-refused is_mod node path (some m) =
    refusing (is_mod && not (is_file (lookup node path))) (mod_not_file path)
      (insert_in node (split_leaf path).0 (split_leaf path).1 path m)
    ∙ (rw
        (
          lookup_there node path,
          insert_in-blocked node (split_leaf path).0 (split_leaf path).1 path m,
        )
        refl)

not_if :
    (b : Bool) (e : ApplyError) → (if not b then some e else none) ≡ (if b then none else some e)
not_if true e = refl
not_if false e = refl

op-refused :
    (op : Op) (node : MemNode) (c : FileChange)
    → error_of (apply_op op node c) ≡ refused_op op node c
unfolding apply_op refused_op
op-refused add node c = write-refused false node c.path (meta_of c)
op-refused mod' node c = write-refused true node c.path (meta_of c)
op-refused del node c =
    refusing (not (is_file (lookup node c.path))) (del_not_file c.path)
      (ok (TreeDerive.remove_file node c.path))
    ∙ (rw (lookup_there node c.path)
        (not_if (is_there (file_at node (split c.path slash))) (del_not_file c.path)))

-- A change is refused for these reasons, tried in this order, and no other: its path is too deep; an
-- addition or modification lacks a field, or a modification's path holds no file, or a directory of the
-- path is a file; a deletion's path holds no file.
pub apply_change-refused :
    (node : MemNode) (c : FileChange) → error_of (apply_change node c) ≡ refused node c
unfolding apply_change refused
apply_change-refused node c =
    refusing (ltb max_path_components (length (split c.path slash))) (too_deep c.path)
      (apply_op c.op node c)
    ∙ (rw (op-refused c.op node c) refl)
