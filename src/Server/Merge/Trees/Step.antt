-- ===== src/Server/Merge/Trees/Step.antt =====
-- crates/naatre-server/src/merge.rs: one path of `merge_trees_mode` that refuses conflicts.
use naatre.Prelude.{
  ◌≡◌, ◌≢◌, refl, sym, ap, ◌∙◌, subst, arith, true, false, Option, none, some, List, [], ◌∷◌, ◌++◌,
  Bytes, Result, ok, err, bind-eq-ok, map_err, bytes_eq, bytes_lt, bytes_eq_join, bytes_eq_same,
  if◌then◌else◌, Bool-cases, inl, inr,
}
use naatre.Core.Path.{Unicode}
use naatre.Server.TreeDerive.{FileMeta}
use naatre.Server.Merge.Lines.{TextDiff, MergeOutcome, merged, conflict, merge_lines}
use naatre.Server.Merge.PathConflict.{PathConflict}
use naatre.Server.Merge.Delta.Paths.{Sorted, insert-Sorted}
use naatre.Server.Merge.Delta.{keys, insert_path, Files, get, insert_file}
use naatre.Server.Merge.Trees.{
  refuse, fetch_failed, Merging, entry_eq, keep, path_conflict, fetching, refuse_conflict,
  take_conflict, merged_meta, merge_outcome, merge_contents, both_changed, merge_path,
}

-- Inserting a file changes what its path holds, and no other path.
pub get-insert_file :
    (q path : Bytes) (m : FileMeta) (files : Files)
    → get q (insert_file path m files) ≡ (if bytes_eq q path then some m else get q files)
unfolding get insert_file
get-insert_file q path m [] = refl
get-insert_file q path m ((p, n) ∷ files) =
    ground (arith, get-insert_file q path m files, bytes_eq_join q path p, bytes_eq_same q path p)

keys-insert_file :
    (path : Bytes) (m : FileMeta) (files : Files)
    → keys (insert_file path m files) ≡ insert_path path (keys files)
unfolding keys insert_file insert_path
keys-insert_file path m [] = refl
keys-insert_file path m ((p, n) ∷ files) = elim (Bool-cases (bytes_lt path p)) [
  | inl before ↦ rw before refl
  | inr late ↦ elim (Bool-cases (bytes_eq path p)) [
    | inl same ↦ rw (late, same) refl
    | inr other ↦ rw (late, other) (ap (λ ps. p ∷ ps) (keys-insert_file path m files))
  ]
]

pub insert_file-Sorted :
    (path : Bytes) (m : FileMeta) (files : Files)
    → Sorted (keys files)
    → Sorted (keys (insert_file path m files))
insert_file-Sorted path m files h =
    subst Sorted (sym (keys-insert_file path m files)) (insert-Sorted path (keys files) h)

append-ne-nil : (xs : List PathConflict) (c : PathConflict) → xs ++ (c ∷ []) ≢ []
append-ne-nil [] c h = absurd cc
append-ne-nil (x ∷ xs) c h = absurd cc

map_err-ok : {A E F : Type 0} (f : E → F) (r : Result E A) (a : A) → map_err f r ≡ ok a → r ≡ ok a
map_err-ok f (ok x) a h = cc
map_err-ok f (err e) a h = absurd cc

-- What a step puts at its path, if anything.
abbrev pub over : Option FileMeta → Option FileMeta → Option FileMeta
over none old = old
over (some m) old = some m

module _ (u : Unicode) (blake3 : Bytes → Bytes) (from_lines : Bytes → Bytes → TextDiff)
    (fetch : Bytes → Result Bytes Bytes) where
  -- What the merge holds at a path, by what base, ours and theirs hold: a side that did not touch the
  -- path gives way to the other, and where both changed it, all three have it and the contents merge.
  pub data Resolved (b o t new : Option FileMeta) : Type 0 where
    agreed : entry_eq o t ≡ true → new ≡ o → Resolved b o t new
    theirs_wins : entry_eq o t ≡ false → entry_eq o b ≡ true → new ≡ t → Resolved b o t new
    ours_wins :
        entry_eq o t ≡ false
        → entry_eq o b ≡ false
        → entry_eq t b ≡ true
        → new ≡ o
        → Resolved b o t new
    both_merged :
        (bm om tm : FileMeta) (base ours theirs bytes : Bytes)
        → (b ≡ some bm) × (o ≡ some om) × (t ≡ some tm)
        → (fetch bm.blob ≡ ok base) × (fetch om.blob ≡ ok ours) × (fetch tm.blob ≡ ok theirs)
        → merge_lines from_lines base ours theirs ≡ some (merged bytes)
        → new ≡ some (merged_meta u blake3 from_lines fetch bytes bm om tm)
        → Resolved b o t new

  -- What one step did.
  pub record Stepped (path : Bytes) (b o t : Option FileMeta) (st st' : Merging) : Type 0 where
    pub new : Option FileMeta
    pub resolved : Resolved b o t new
    pub put :
        (q : Bytes)
        → get q st'.merged_files
          ≡ (if bytes_eq q path then over new (get q st.merged_files) else get q st.merged_files)
    pub clean : st.refused ≡ []
    pub ascend : Sorted (keys st.merged_files) → Sorted (keys st'.merged_files)

  pub put_keep :
      (path : Bytes) (m : Option FileMeta) (st : Merging) (q : Bytes)
      → get q (keep path m st).merged_files
        ≡ (if bytes_eq q path then over m (get q st.merged_files) else get q st.merged_files)
  unfolding keep
  put_keep path none st q = elim (Bool-cases (bytes_eq q path)) [
    | inl same ↦ rw same refl
    | inr other ↦ rw other refl
  ]
  put_keep path (some m) st q = get-insert_file q path m st.merged_files

  pub keep-refused :
      (path : Bytes) (m : Option FileMeta) (st : Merging) → (keep path m st).refused ≡ st.refused
  unfolding keep
  keep-refused path none st = refl
  keep-refused path (some m) st = refl

  keep-Sorted :
      (path : Bytes) (m : Option FileMeta) (st : Merging)
      → Sorted (keys st.merged_files)
      → Sorted (keys (keep path m st).merged_files)
  unfolding keep
  keep-Sorted path none st h = h
  keep-Sorted path (some m) st h = insert_file-Sorted path m st.merged_files h

  refused_stays :
      (c : PathConflict) (st st' : Merging)
      → take_conflict u blake3 from_lines fetch refuse c st ≡ ok st'
      → st'.refused ≢ []
  unfolding take_conflict refuse_conflict
  refused_stays c st st' h empty =
      let made : st.refused ++ (c ∷ []) ≡ st'.refused = cc in
      append-ne-nil st.refused c (made ∙ empty)

  outcome-Stepped :
      (path : Bytes) (bm om tm : FileMeta) (st st₁ st' : Merging) (base ours theirs : Bytes)
      (o : Option MergeOutcome)
      → entry_eq (some om) (some tm) ≡ false
      → (fetch bm.blob ≡ ok base) × (fetch om.blob ≡ ok ours) × (fetch tm.blob ≡ ok theirs)
      → merge_lines from_lines base ours theirs ≡ o
      → (st₁.merged_files ≡ st.merged_files) × (st₁.refused ≡ st.refused)
      → merge_outcome u blake3 from_lines fetch refuse path bm om tm st₁ o ≡ ok st'
      → st'.refused ≡ []
      → Stepped path (some bm) (some om) (some tm) st st'
  unfolding merge_outcome
  outcome-Stepped path bm om tm st st₁ st' base ours theirs none differ fetched lines same e empty =
      absurd cc
  outcome-Stepped path bm om tm st st₁ st' base ours theirs (some conflict) differ fetched lines
        same e empty =
      absurd (refused_stays (path_conflict path (some bm) (some om) (some tm)) st₁ st' e empty)
  outcome-Stepped path bm om tm st st₁ st' base ours theirs (some (merged bytes)) differ fetched
        lines same e empty =
      let meta = merged_meta u blake3 from_lines fetch bytes bm om tm in
      let files : insert_file path meta st₁.merged_files ≡ st'.merged_files = cc in
      let refusals : st₁.refused ≡ st'.refused = cc in
      record {
        new = some meta;
        resolved =
            both_merged bm om tm base ours theirs bytes (refl, refl, refl) fetched lines refl;
        put = λ q.
            subst (λ fs. get q st'.merged_files ≡ (if bytes_eq q path then some meta else get q fs))
              same.0
              (subst
                (λ fs. get q fs ≡ (if bytes_eq q path then some meta else get q st₁.merged_files))
                files (get-insert_file q path meta st₁.merged_files));
        clean = sym same.1 ∙ refusals ∙ empty;
        ascend = λ h.
            subst (λ fs. Sorted (keys fs)) files
              (insert_file-Sorted path meta st₁.merged_files
                (subst (λ fs. Sorted (keys fs)) (sym same.0) h));
      }

  contents-Stepped :
      (path : Bytes) (bm om tm : FileMeta) (st st' : Merging)
      → entry_eq (some om) (some tm) ≡ false
      → merge_contents u blake3 from_lines fetch refuse path bm om tm st ≡ ok st'
      → st'.refused ≡ []
      → Stepped path (some bm) (some om) (some tm) st st'
  unfolding merge_contents
  contents-Stepped path bm om tm st st' differ e empty =
      let fetched = fetching u blake3 from_lines fetch in
      let (base, b_read, after_b) = bind-eq-ok (fetched bm.blob) _ e in
      let (ours, o_read, after_o) = bind-eq-ok (fetched om.blob) _ after_b in
      let (theirs, t_read, after_t) = bind-eq-ok (fetched tm.blob) _ after_o in
      outcome-Stepped path bm om tm st
        (record st { input_ids = st.input_ids ++ (bm.blob ∷ om.blob ∷ tm.blob ∷ []) }) st' base ours
        theirs (merge_lines from_lines base ours theirs) differ
        (
          map_err-ok (fetch_failed bm.blob) (fetch bm.blob) base b_read,
          map_err-ok (fetch_failed om.blob) (fetch om.blob) ours o_read,
          map_err-ok (fetch_failed tm.blob) (fetch tm.blob) theirs t_read,
        )
        refl (refl, refl) after_t empty

  both-Stepped :
      (path : Bytes) (b o t : Option FileMeta) (st st' : Merging)
      → entry_eq o t ≡ false
      → both_changed u blake3 from_lines fetch refuse path b o t st ≡ ok st'
      → st'.refused ≡ []
      → Stepped path b o t st st'
  unfolding both_changed
  both-Stepped path (some bm) (some om) (some tm) st st' differ e empty =
      contents-Stepped path bm om tm st st' differ e empty
  both-Stepped path none (some om) (some tm) st st' differ e empty =
      absurd (refused_stays (path_conflict path none (some om) (some tm)) st st' e empty)
  both-Stepped path (some bm) none (some tm) st st' differ e empty =
      absurd (refused_stays (path_conflict path (some bm) none (some tm)) st st' e empty)
  both-Stepped path (some bm) (some om) none st st' differ e empty =
      absurd (refused_stays (path_conflict path (some bm) (some om) none) st st' e empty)
  both-Stepped path none none t st st' differ e empty = absurd cc
  both-Stepped path none (some om) none st st' differ e empty = absurd cc
  both-Stepped path (some bm) none none st st' differ e empty = absurd cc

  kept-Stepped :
      (path : Bytes) (b o t new : Option FileMeta) (st st' : Merging)
      → Resolved b o t new
      → keep path new st ≡ st'
      → st'.refused ≡ []
      → Stepped path b o t st st'
  kept-Stepped path b o t new st st' resolved e empty = record {
    new = new;
    resolved = resolved;
    put = λ q.
        subst
          (λ s.
            get q s.merged_files
            ≡ (if bytes_eq q path then over new (get q st.merged_files) else get q st.merged_files))
          e (put_keep path new st q);
    clean = sym (keep-refused path new st) ∙ ap (λ s. s.refused) e ∙ empty;
    ascend = λ h. subst (λ s. Sorted (keys s.merged_files)) e (keep-Sorted path new st h);
  }

  pub path-Stepped :
      (path : Bytes) (b o t : Option FileMeta) (st st' : Merging)
      → merge_path u blake3 from_lines fetch refuse path b o t st ≡ ok st'
      → st'.refused ≡ []
      → Stepped path b o t st st'
  unfolding merge_path
  path-Stepped path b o t st st' e empty = elim (Bool-cases (entry_eq o t)) [
    | inl same ↦ kept-Stepped path b o t o st st' (agreed same refl) (cc) empty
    | inr differ ↦ elim (Bool-cases (entry_eq o b)) [
      | inl untouched ↦
          kept-Stepped path b o t t st st' (theirs_wins differ untouched refl) (cc) empty
      | inr touched ↦ elim (Bool-cases (entry_eq t b)) [
        | inl untouched ↦
            kept-Stepped path b o t o st st' (ours_wins differ touched untouched refl) (cc) empty
        | inr both ↦ both-Stepped path b o t st st' differ (cc) empty
      ]
    ]
  ]
