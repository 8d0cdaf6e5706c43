-- ===== src/Server/TreeDerive/Removed.antt =====
-- crates/naatre-server/src/tree_derive.rs: `remove_in` on the files of a tree.
use naatre.Prelude.{
  ◌≡◌, refl, sym, ap, ◌∙◌, arith, Bool, true, false, ◌&&◌, none, some, List, [], ◌∷◌, ◌++◌, Bytes,
  is_empty, if◌then◌else◌, Bool-cases, Option-cases, inl, inr,
}
use naatre.Server.TreeDerive
use naatre.Server.TreeDerive.{
  FileMeta, MemNode, no_entries, file_entry, dir_entry, MemEntry, file, dir, ApplyError, too_deep,
  mod_not_file, del_not_file, file_in_path, get_entry, put_entry, remove_entry, split_last,
  split_last_of, split_leaf, lookup_in, lookup, insert_in, remove_in, insert_file, remove_file,
  is_file, meta_of, apply_write, apply_op, apply_change, apply, pruned, is_some_entry,
}
use naatre.Server.TreeDerive.Entries.{put_other, put_self, remove_other, remove_self}
use naatre.Server.TreeDerive.Files.{
  place_gone, place_nothing, file_at, place, level, file_at-missing, file_at-dir, file_at-file,
  file_at-no_entries,
}

-- A file has nothing behind it, so that removing what is below it changes nothing.
place_below_file :
    (f : FileMeta) (dirs : List Bytes) (leaf : Bytes) (ns : List Bytes)
    → (if is_empty ns then some f else none)
      ≡ place none (dirs ++ (leaf ∷ [])) ns (if is_empty ns then some f else none)
unfolding place
place_below_file f [] leaf [] = refl
place_below_file f (d ∷ dirs) leaf [] = refl
place_below_file f dirs leaf (n ∷ ns) = sym (place_nothing (dirs ++ (leaf ∷ [])) (n ∷ ns))

emptied-files :
    (c : MemNode) (done : Bool) (ns : List Bytes)
    → (done && TreeDerive.is_empty c) ≡ true
    → file_at c ns ≡ none
unfolding TreeDerive.is_empty
emptied-files no_entries done ns h = file_at-no_entries ns
emptied-files (file_entry n m rest) done ns h = absurd (ground arith)
emptied-files (dir_entry n child rest) done ns h = absurd (ground arith)

-- What `remove_in` does at one level below which the files of the child change.
prune-files :
    (n : Bytes) (p : List Bytes) (node child : MemNode) (removed : MemNode × Bool)
    → get_entry n node ≡ some (dir child)
    → ((ns : List Bytes) → file_at removed.0 ns ≡ place none p ns (file_at child ns))
    → (q : List Bytes) → file_at (pruned n node removed).0 q ≡ place none (n ∷ p) q (file_at node q)
prune-files n p node child (c, done) at new = elim (Bool-cases (done && TreeDerive.is_empty c)) [
  | inl emptied ↦ rw emptied (
      level none p n node (remove_entry n node)
        (λ ns.
          file_at-missing (remove_entry n node) n ns (remove_self n node)
          ∙ (sym (emptied-files c done ns emptied) ∙ (new ns ∙ behind ns)))
        (λ t h. remove_other t n node h))
  | inr kept ↦ rw kept (
      level none p n node (put_entry n (dir c) node)
        (λ ns.
          file_at-dir (put_entry n (dir c) node) c n ns (put_self n (dir c) node)
          ∙ (new ns ∙ behind ns))
        (λ t h. put_other t n (dir c) node h))
]
  where
    behind :
        (ns : List Bytes)
        → place none p ns (file_at child ns) ≡ place none p ns (file_at node (n ∷ ns))
    behind ns = ap (place none p ns) (sym (file_at-dir node child n ns at))

remove_in-missing :
    (node : MemNode) (n : Bytes) (dirs : List Bytes) (leaf : Bytes)
    → get_entry n node ≡ none
    → remove_in node (n ∷ dirs) leaf ≡ (node, false)
unfolding remove_in
remove_in-missing node n dirs leaf h = cc

remove_in-file :
    (node : MemNode) (f : FileMeta) (n : Bytes) (dirs : List Bytes) (leaf : Bytes)
    → get_entry n node ≡ some (file f)
    → remove_in node (n ∷ dirs) leaf ≡ (node, false)
unfolding remove_in
remove_in-file node f n dirs leaf h = cc

remove_in-dir :
    (node child : MemNode) (n : Bytes) (dirs : List Bytes) (leaf : Bytes)
    → get_entry n node ≡ some (dir child)
    → remove_in node (n ∷ dirs) leaf ≡ pruned n node (remove_in child dirs leaf)
unfolding remove_in
remove_in-dir node child n dirs leaf h = cc

-- `remove_in` leaves nothing at the path, and every path that is not below it keeps what it holds.
pub remove_in-files :
    (node : MemNode) (dirs : List Bytes) (leaf : Bytes) (q : List Bytes)
    → file_at (remove_in node dirs leaf).0 q ≡ place none (dirs ++ (leaf ∷ [])) q (file_at node q)
remove_in-files node [] leaf =
    unfold remove_in in
    level none [] leaf node (remove_entry leaf node)
      (λ ns.
        file_at-missing (remove_entry leaf node) leaf ns (remove_self leaf node)
        ∙ place_gone ns (file_at node (leaf ∷ ns)))
      (λ t h. remove_other t leaf node h)
remove_in-files node (n ∷ dirs) leaf = elim (Option-cases (get_entry n node)) [
  | inl missing ↦ λ q.
      ap (λ r. file_at r.0 q) (remove_in-missing node n dirs leaf missing)
      ∙ level none (dirs ++ (leaf ∷ [])) n node node
          (λ ns.
            let nothing = file_at-missing node n ns missing in
            nothing
            ∙ (sym (place_nothing (dirs ++ (leaf ∷ [])) ns)
                ∙ ap (place none (dirs ++ (leaf ∷ [])) ns) (sym nothing)))
          (λ t h. refl) q
  | inr (entry, found) ↦
      elim entry as (λ x. get_entry n node ≡ some x → _) [
        | file f ↦ λ at q.
            ap (λ r. file_at r.0 q) (remove_in-file node f n dirs leaf at)
            ∙ level none (dirs ++ (leaf ∷ [])) n node node
                (λ ns.
                  let here = file_at-file node f n ns at in
                  here
                  ∙ (place_below_file f dirs leaf ns
                      ∙ ap (place none (dirs ++ (leaf ∷ [])) ns) (sym here)))
                (λ t h. refl) q
        | dir child ↦ λ at q.
            ap (λ r. file_at r.0 q) (remove_in-dir node child n dirs leaf at)
            ∙ prune-files n (dirs ++ (leaf ∷ [])) node child (remove_in child dirs leaf) at
                (remove_in-files child dirs leaf) q
      ]
        found
]
