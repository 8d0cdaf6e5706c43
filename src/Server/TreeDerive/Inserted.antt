-- ===== src/Server/TreeDerive/Inserted.antt =====
-- crates/naatre-server/src/tree_derive.rs: `insert_in` on the files of a tree.
use naatre.Prelude.{
  ◌≡◌, sym, ap, ◌∙◌, subst, none, some, List, [], ◌∷◌, ◌++◌, Bytes, Result, ok, bind, bind-eq-ok,
  Option-cases, inl, inr,
}
use naatre.Server.TreeDerive.{
  FileMeta, MemNode, no_entries, file, dir, ApplyError, get_entry, put_entry, insert_in,
}
use naatre.Server.TreeDerive.Entries.{put_other, put_self}
use naatre.Server.TreeDerive.Files.{
  place_leaf, file_at, place, level, file_at-missing, file_at-dir, file_at-file, file_at-no_entries,
}

put_child :
    (n : Bytes) (dirs : List Bytes) (leaf : Bytes) (m : FileMeta)
    (node before child node' : MemNode)
    → ((ns : List Bytes) → file_at node (n ∷ ns) ≡ file_at before ns)
    → ((ns : List Bytes)
        → file_at child ns ≡ place (some m) (dirs ++ (leaf ∷ [])) ns (file_at before ns))
    → put_entry n (dir child) node ≡ node'
    → (q : List Bytes)
    → file_at node' q ≡ place (some m) (n ∷ (dirs ++ (leaf ∷ []))) q (file_at node q)
put_child n dirs leaf m node before child node' old new made =
    subst
      (λ k.
        (q : List Bytes)
        → file_at k q ≡ place (some m) (n ∷ (dirs ++ (leaf ∷ []))) q (file_at node q))
      made
      (level (some m) (dirs ++ (leaf ∷ [])) n node (put_entry n (dir child) node)
        (λ ns.
          file_at-dir (put_entry n (dir child) node) child n ns (put_self n (dir child) node)
          ∙ new ns
          ∙ ap (place (some m) (dirs ++ (leaf ∷ [])) ns) (sym (old ns)))
        (λ t h. put_other t n (dir child) node h))

-- One step of `insert_in`, by what the name holds.
insert_in-missing :
    (node : MemNode) (n : Bytes) (dirs : List Bytes) (leaf full : Bytes) (m : FileMeta)
    {r : Result ApplyError MemNode}
    → get_entry n node ≡ none
    → insert_in node (n ∷ dirs) leaf full m ≡ r
    → bind (insert_in no_entries dirs leaf full m) (λ child. ok (put_entry n (dir child) node)) ≡ r
unfolding insert_in
insert_in-missing node n dirs leaf full m h e = cc

insert_in-dir :
    (node child : MemNode) (n : Bytes) (dirs : List Bytes) (leaf full : Bytes) (m : FileMeta)
    {r : Result ApplyError MemNode}
    → get_entry n node ≡ some (dir child)
    → insert_in node (n ∷ dirs) leaf full m ≡ r
    → bind (insert_in child dirs leaf full m) (λ c. ok (put_entry n (dir c) node)) ≡ r
unfolding insert_in
insert_in-dir node child n dirs leaf full m h e = cc

-- `insert_in` puts the file at the path: nothing is left below the path, and every other path keeps
-- what it holds.
pub insert_in-files :
    (node : MemNode) (dirs : List Bytes) (leaf full : Bytes) (m : FileMeta) (node' : MemNode)
    → insert_in node dirs leaf full m ≡ ok node'
    → (q : List Bytes) → file_at node' q ≡ place (some m) (dirs ++ (leaf ∷ [])) q (file_at node q)
unfolding insert_in
insert_in-files node [] leaf full m node' e =
    subst (λ k. (q : List Bytes) → file_at k q ≡ place (some m) (leaf ∷ []) q (file_at node q))
      (cc e)
      (level (some m) [] leaf node (put_entry leaf (file m) node)
        (λ ns.
          file_at-file (put_entry leaf (file m) node) m leaf ns (put_self leaf (file m) node)
          ∙ place_leaf m ns (file_at node (leaf ∷ ns)))
        (λ t h. put_other t leaf (file m) node h))
insert_in-files node (n ∷ dirs) leaf full m node' e = elim (Option-cases (get_entry n node)) [
  | inl missing ↦
      let (child, inserted, made) =
        bind-eq-ok (insert_in no_entries dirs leaf full m) _
          (insert_in-missing node n dirs leaf full m missing e) in
      put_child n dirs leaf m node no_entries child node'
        (λ ns. file_at-missing node n ns missing ∙ sym (file_at-no_entries ns))
        (insert_in-files no_entries dirs leaf full m child inserted) (cc made)
  | inr (entry, found) ↦
      elim entry as (λ x. get_entry n node ≡ some x → _) [
        | file f ↦ λ at. absurd cc
        | dir child ↦ λ at.
            let (c, inserted, made) =
              bind-eq-ok (insert_in child dirs leaf full m) _
                (insert_in-dir node child n dirs leaf full m at e) in
            put_child n dirs leaf m node child c node' (λ ns. file_at-dir node child n ns at)
              (insert_in-files child dirs leaf full m c inserted) (cc made)
      ]
        found
]
