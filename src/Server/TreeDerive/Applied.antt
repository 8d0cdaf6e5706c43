-- ===== src/Server/TreeDerive/Applied.antt =====
-- crates/naatre-server/src/tree_derive.rs: `apply` on the files of a tree.
use naatre.Prelude.{
  ◌≡◌, refl, sym, ap, ◌∙◌, subst, Bool, true, false, ◌&&◌, not, Option, none, some, List, [], ◌∷◌,
  ◌++◌, Bytes, ok, bind-eq-ok, refuse_if, length, ltb, if◌then◌else◌,
}
use naatre.Core.Path.{split, slash, max_path_components}
use naatre.Core.Changeset.{Op, add, mod', del, FileChange, is_del}
use naatre.Server.Authz.Segments.{split_cons}
use naatre.Server.TreeDerive
use naatre.Server.TreeDerive.{
  FileMeta, MemNode, no_entries, file_entry, dir_entry, MemEntry, file, dir, ApplyError, too_deep,
  mod_not_file, del_not_file, file_in_path, get_entry, put_entry, remove_entry, split_last,
  split_last_of, split_leaf, lookup_in, lookup, insert_in, remove_in, insert_file, remove_file,
  is_file, meta_of, apply_write, apply_op, apply_change, apply, pruned, is_some_entry,
}
use naatre.Server.TreeDerive.Files.{file_at, place}
use naatre.Server.TreeDerive.Inserted.{insert_in-files}
use naatre.Server.TreeDerive.Removed.{remove_in-files}

split_last-append :
    (s : Bytes) (ss : List Bytes) → (split_last s ss).0 ++ ((split_last s ss).1 ∷ []) ≡ s ∷ ss
unfolding split_last
split_last-append s [] = refl
split_last-append s (t ∷ ts) = ap (λ l. s ∷ l) (split_last-append t ts)

-- The directories and the leaf of a path are its components in order.
pub split_leaf-append :
    (path : Bytes) → (split_leaf path).0 ++ ((split_leaf path).1 ∷ []) ≡ split path slash
unfolding split_leaf
split_leaf-append path =
    let (first, rest, e) = split_cons path in
    subst (λ l. (split_last_of l).0 ++ ((split_last_of l).1 ∷ []) ≡ l) (sym e)
      (split_last-append first rest)

-- What a change leaves at its path.
unfoldable pub new_of : FileChange → Option FileMeta
new_of c = if is_del c.op then none else meta_of c

-- What a path holds after some changes, from what it held before.
unfoldable pub replay : List FileChange → List Bytes → Option FileMeta → Option FileMeta
replay [] q old = old
replay (c ∷ cs) q old = replay cs q (place (new_of c) (split c.path slash) q old)

insert_file-files :
    (node : MemNode) (path : Bytes) (m : FileMeta) (node' : MemNode)
    → insert_file node path m ≡ ok node'
    → (q : List Bytes) → file_at node' q ≡ place (some m) (split path slash) q (file_at node q)
unfolding insert_file
insert_file-files node path m node' e q =
    insert_in-files node (split_leaf path).0 (split_leaf path).1 path m node' e q
    ∙ ap (λ p. place (some m) p q (file_at node q)) (split_leaf-append path)

remove_file-files :
    (node : MemNode) (path : Bytes) (q : List Bytes)
    → file_at (remove_file node path) q ≡ place none (split path slash) q (file_at node q)
unfolding remove_file
remove_file-files node path q =
    remove_in-files node (split_leaf path).0 (split_leaf path).1 q
    ∙ ap (λ p. place none p q (file_at node q)) (split_leaf-append path)

apply_write-files :
    (is_mod : Bool) (node : MemNode) (path : Bytes) (new : Option FileMeta) (node' : MemNode)
    → apply_write is_mod node path new ≡ ok node'
    → (q : List Bytes) → file_at node' q ≡ place new (split path slash) q (file_at node q)
unfolding apply_write
apply_write-files is_mod node path none node' e = absurd cc
apply_write-files is_mod node path (some m) node' e =
    let (_, _, inserted) =
      bind-eq-ok (refuse_if (is_mod && not (is_file (lookup node path))) (mod_not_file path)) _ e in
    insert_file-files node path m node' inserted

apply_op-files :
    (op : Op) (node : MemNode) (c : FileChange) (node' : MemNode)
    → apply_op op node c ≡ ok node'
    → (q : List Bytes)
    → file_at node' q
      ≡ place (if is_del op then none else meta_of c) (split c.path slash) q (file_at node q)
unfolding apply_op is_del
apply_op-files add node c node' e = apply_write-files false node c.path (meta_of c) node' e
apply_op-files mod' node c node' e = apply_write-files true node c.path (meta_of c) node' e
apply_op-files del node c node' e =
    let (_, _, made) =
      bind-eq-ok (refuse_if (not (is_file (lookup node c.path))) (del_not_file c.path)) _ e in
    subst (λ k. (q : List Bytes) → file_at k q ≡ place none (split c.path slash) q (file_at node q))
      (cc made) (remove_file-files node c.path)

-- Where `apply` accepts a list of changes, every path holds what replaying the changes in order gives:
-- a change puts its file at its path, or leaves nothing there, leaves nothing below its path, and
-- touches no other path.
pub apply-files :
    (node : MemNode) (cs : List FileChange) (node' : MemNode) (q : List Bytes)
    → apply node cs ≡ ok node'
    → file_at node' q ≡ replay cs q (file_at node q)
unfolding apply apply_change replay new_of
apply-files node [] node' q e = ap (λ k. file_at k q) (sym (cc e))
apply-files node (c ∷ cs) node' q e =
    let (n, changed, rest) = bind-eq-ok (TreeDerive.apply_change node c) _ e in
    let (_, _, done) =
      bind-eq-ok
        (refuse_if (ltb max_path_components (length (split c.path slash))) (too_deep c.path)) _
        changed in
    apply-files n cs node' q rest ∙ ap (replay cs q) (apply_op-files c.op node c n done q)
