-- ===== src/Server/TreeDerive/Collect.antt =====
-- crates/naatre-server/src/tree_derive.rs: `MemNode::collect`, the encoder of a tree with an explicit
-- stack. The rows of a `TreeWrite` are the entries that they are made of. The loop runs on fuel.
use naatre.Prelude.{
  ℕ, zero, suc, ◌+◌, ◌%◌, ◌^◌, ◌≤◌, ◌≡◌, refl, sym, ap, ◌∙◌, arith, false, Option, none, some, List,
  [], ◌∷◌, ◌++◌, Bytes, Result, ok, err, bind, Result-cases, inl, inr,
}
use naatre.Core.Error.{CoreError}
use naatre.Core.Tree.{EntryKind, TreeEntry, encode}
use naatre.Core.Tree.Validate.{tree_id}
use naatre.Server.TreeDerive.{FileMeta, MemNode, no_entries, file_entry, dir_entry}

pub record TreeWrite : Type 0 where
  pub id : Bytes
  pub canonical : Bytes
  pub entries : List TreeEntry

-- `remaining` is what is left of the entries.
pub record Frame : Type 0 where
  pub name_in_parent : Bytes
  pub remaining : MemNode
  pub entries : List TreeEntry
  pub total : ℕ

-- The root's id, the size of its files, and the writes.
abbrev pub Collected : Type 0
Collected = Bytes × (ℕ × List TreeWrite)

abbrev pub file_row : Bytes → FileMeta → TreeEntry
file_row name m = record {
  name = name;
  kind = EntryKind.file;
  object = m.blob;
  size = m.size;
  exec = m.exec;
}

abbrev pub dir_row : Bytes → Bytes → ℕ → TreeEntry
dir_row name id total = record {
  name = name;
  kind = EntryKind.dir;
  object = id;
  size = total;
  exec = false;
}

-- `+=` on `u64`
unfoldable pub add_u64 : ℕ → ℕ → ℕ
add_u64 a b = (a + b) % 2 ^ 64

module _ (blake3 : Bytes → Bytes) where
  -- A directory whose entries are all there: its write.
  unfoldable pub finish_dir : List TreeEntry → ℕ → List TreeWrite → Result CoreError Collected
  finish_dir entries total writes = bind (encode (record { entries = entries })) λ canonical.
      bind (tree_id blake3 (record { entries = entries })) λ id.
        ok (
          id,
          (total, writes ++ (record { id = id; canonical = canonical; entries = entries } ∷ [])),
        )

  -- The fields of the top frame are arguments.
  unfoldable pub collect_loop :
      ℕ
      → (name_in_parent : Bytes) (remaining : MemNode) → List TreeEntry
      → ℕ
      → List Frame
      → List TreeWrite
      → Option (Result CoreError Collected)
  collect_loop zero top remaining entries total stack writes = none
  collect_loop (suc fuel) top no_entries entries total stack writes =
      elim (finish_dir entries total writes) [
        | err e ↦ some (err e)
        | ok r ↦ elim stack [
          | [] ↦ some (ok r)
          | p ∷ ps ↦
              collect_loop fuel p.name_in_parent p.remaining
                (p.entries ++ (dir_row top r.0 r.1.0 ∷ [])) (add_u64 p.total r.1.0) ps r.1.1
        ]
      ]
  collect_loop (suc fuel) top (file_entry name m rest) entries total stack writes =
      collect_loop fuel top rest (entries ++ (file_row name m ∷ [])) (add_u64 total m.size) stack
        writes
  collect_loop (suc fuel) top (dir_entry name child rest) entries total stack writes =
      let frame : Frame = record {
        name_in_parent = top;
        remaining = rest;
        entries = entries;
        total = total;
      } in
      collect_loop fuel name child [] 0 (frame ∷ stack) writes

  -- The rounds of the loop for a directory: one for each entry below it and each directory's end.
  unfoldable pub rounds : MemNode → ℕ
  rounds no_entries = 1
  rounds (file_entry name m rest) = suc (rounds rest)
  rounds (dir_entry name child rest) = suc (rounds child + rounds rest)

  unfoldable pub collect : MemNode → Option (Result CoreError Collected)
  collect node = collect_loop (rounds node) [] node [] 0 [] []

  -- The recursion that the loop stands for: a directory's writes follow those of what is below it.
  unfoldable pub collect_from :
      MemNode → List TreeEntry → ℕ → List TreeWrite → Result CoreError Collected
  collect_from no_entries entries total writes = finish_dir entries total writes
  collect_from (file_entry name m rest) entries total writes =
      collect_from rest (entries ++ (file_row name m ∷ [])) (add_u64 total m.size) writes
  collect_from (dir_entry name child rest) entries total writes =
      bind (collect_from child [] 0 writes) λ r.
        collect_from rest (entries ++ (dir_row name r.0 r.1.0 ∷ [])) (add_u64 total r.1.0) r.1.1

  -- What the frames below make of a finished directory.
  unwind : Result CoreError Collected → Bytes → List Frame → Result CoreError Collected
  unwind r top [] = r
  unwind r top (p ∷ ps) =
      unwind
        (bind r λ x.
          collect_from p.remaining (p.entries ++ (dir_row top x.0 x.1.0 ∷ []))
            (add_u64 p.total x.1.0) x.1.1)
        p.name_in_parent ps

  unwind-err : (e : CoreError) (top : Bytes) (stack : List Frame) → unwind (err e) top stack ≡ err e
  unfolding unwind
  unwind-err e top [] = refl
  unwind-err e top (p ∷ ps) = unwind-err e p.name_in_parent ps

  stack_rounds : List Frame → ℕ
  stack_rounds [] = 0
  stack_rounds (p ∷ ps) = rounds p.remaining + stack_rounds ps

  loop-end :
      (fuel : ℕ) (top : Bytes) (entries : List TreeEntry) (total : ℕ) (writes : List TreeWrite)
      → collect_loop (suc fuel) top no_entries entries total [] writes
        ≡ some (finish_dir entries total writes)
  unfolding collect_loop
  loop-end fuel top entries total writes = elim (Result-cases (finish_dir entries total writes)) [
    | inl (r, e) ↦ cc
    | inr (r, e) ↦ cc
  ]

  loop-pop :
      (fuel : ℕ) (top : Bytes) (entries : List TreeEntry) (total : ℕ) (p : Frame) (ps : List Frame)
      (writes : List TreeWrite) (r : Collected)
      → finish_dir entries total writes ≡ ok r
      → collect_loop (suc fuel) top no_entries entries total (p ∷ ps) writes
        ≡ collect_loop fuel p.name_in_parent p.remaining
            (p.entries ++ (dir_row top r.0 r.1.0 ∷ []))
            (add_u64 p.total r.1.0)
            ps
            r.1.1
  unfolding collect_loop
  loop-pop fuel top entries total p ps writes r e = cc

  loop-fail :
      (fuel : ℕ) (top : Bytes) (entries : List TreeEntry) (total : ℕ) (stack : List Frame)
      (writes : List TreeWrite) (e : CoreError)
      → finish_dir entries total writes ≡ err e
      → collect_loop (suc fuel) top no_entries entries total stack writes ≡ some (err e)
  unfolding collect_loop
  loop-fail fuel top entries total stack writes e h = cc

  loop-from :
      (fuel : ℕ) (top : Bytes) (node : MemNode) (entries : List TreeEntry) (total : ℕ)
      (stack : List Frame) (writes : List TreeWrite)
      → rounds node + stack_rounds stack ≤ fuel
      → collect_loop fuel top node entries total stack writes
        ≡ some (unwind (collect_from node entries total writes) top stack)
  unfolding collect_loop collect_from unwind rounds stack_rounds
  loop-from zero top no_entries entries total stack writes h = absurd (omega arith)
  loop-from zero top (file_entry name m rest) entries total stack writes h = absurd (omega arith)
  loop-from zero top (dir_entry name child rest) entries total stack writes h = absurd (omega arith)
  loop-from (suc fuel) top no_entries entries total [] writes h =
      loop-end fuel top entries total writes
  loop-from (suc fuel) top no_entries entries total (p ∷ ps) writes h =
      elim (Result-cases (finish_dir entries total writes)) [
        | inl (r, e) ↦
            loop-pop fuel top entries total p ps writes r e
            ∙ loop-from fuel p.name_in_parent p.remaining
                (p.entries ++ (dir_row top r.0 r.1.0 ∷ [])) (add_u64 p.total r.1.0) ps r.1.1
                (omega arith)
            ∙ (rw e refl)
        | inr (x, e) ↦
            loop-fail fuel top entries total (p ∷ ps) writes x e
            ∙ sym (rw e (ap some (unwind-err x p.name_in_parent ps)))
      ]
  loop-from (suc fuel) top (file_entry name m rest) entries total stack writes h =
      loop-from fuel top rest (entries ++ (file_row name m ∷ [])) (add_u64 total m.size) stack
        writes (omega arith)
  loop-from (suc fuel) top (dir_entry name child rest) entries total stack writes h =
      loop-from fuel name child [] 0
        (record { name_in_parent = top; remaining = rest; entries = entries; total = total }
          ∷ stack)
        writes (omega arith)

  -- The loop over the frames ends and computes the recursion over the directories, with the writes of
  -- a directory after those of the directories below it.
  pub collect-collect_from : (node : MemNode) → collect node ≡ some (collect_from node [] 0 [])
  unfolding collect unwind stack_rounds
  collect-collect_from node = loop-from (rounds node) [] node [] 0 [] [] (omega arith)
