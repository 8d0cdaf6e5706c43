-- ===== src/Server/Merge/Trees/Touched.antt =====
-- crates/naatre-server/src/merge.rs: what `merge_trees_mode` keeps in either of its modes.
use naatre.Prelude.{
  ◌≡◌, ◌⊎◌, refl, sym, ap, ◌∙◌, subst, arith, true, false, Option, none, some, [], ◌∷◌, ◌++◌, Bytes,
  Result, ok, bind, bind-eq-ok, ok-injective, bytes_eq, bytes_eq→eq, bytes_eq_refl, length,
  and_true, ltb, split_if, ◌==◌, ◌&&◌, Bool-cases, Option-cases, inl, inr,
}
use naatre.Core.Path.{Unicode}
use naatre.Core.Conflict.{bool_eq}
use naatre.Core.Conflict.Markers.{marker_bytes}
use naatre.Server.TreeDerive.{FileMeta}
use naatre.Server.Merge.Lines.{TextDiff, MergeOutcome, merged, conflict, merge_lines}
use naatre.Server.Merge.PathConflict.{PathConflict, content_rep}
use naatre.Server.Merge.Delta.Changes.{bool_eq→eq}
use naatre.Server.Merge.Delta.Paths.{Sorted}
use naatre.Server.Merge.Delta.{keys, Files, get, insert_file}
use naatre.Server.Merge.Trees.{
  MergeError, optional, OnConflict, refuse, record', Merging, meta_eq, entry_eq, keep,
  path_conflict, fetching, refuse_conflict, record_marker, record_conflict, take_conflict,
  merged_meta, blob_limit, merge_outcome, merge_contents, both_changed, merge_path,
}
use naatre.Server.Merge.Trees.Step.{get-insert_file, insert_file-Sorted}

-- Files that differ at one path at most, where the second has a file.
abbrev pub Touched : Bytes → Files → Files → Type 0
Touched path old new = (new ≡ old) ⊎ ((m : FileMeta) × (new ≡ insert_file path m old))

pub Touched-get :
    (path q : Bytes) (old new : Files)
    → Touched path old new
    → bytes_eq q path ≡ false
    → get q new ≡ get q old
Touched-get path q old new (inl e) other = ap (get q) e
Touched-get path q old new (inr (m, e)) other =
    ap (get q) e ∙ get-insert_file q path m old ∙ (rw other refl)

pub Touched-ascends :
    (path : Bytes) (old new : Files) → Touched path old new → Sorted (keys old) → Sorted (keys new)
Touched-ascends path old new (inl e) h = subst (λ fs. Sorted (keys fs)) (sym e) h
Touched-ascends path old new (inr (m, e)) h =
    subst (λ fs. Sorted (keys fs)) (sym e) (insert_file-Sorted path m old h)

keep-Touched :
    (path : Bytes) (m : Option FileMeta) (st : Merging)
    → Touched path st.merged_files (keep path m st).merged_files
unfolding keep
keep-Touched path none st = inl refl
keep-Touched path (some m) st = inr (m, refl)

files_of : {st st' : Merging} → st ≡ st' → st'.merged_files ≡ st.merged_files
files_of e = ap (λ s. s.merged_files) (sym e)

meta_eq→eq : (a c : FileMeta) → meta_eq a c ≡ true → a ≡ c
unfolding meta_eq
meta_eq→eq a c h =
    let (blob, rest) =
      and_true (bytes_eq a.blob c.blob) ((a.size == c.size) && bool_eq a.exec c.exec) h in
    let (size, exec) = and_true (a.size == c.size) (bool_eq a.exec c.exec) rest in
    let same_blob = bytes_eq→eq a.blob c.blob blob in
    let same_size : a.size ≡ c.size = ground arith in
    let same_exec = bool_eq→eq a.exec c.exec exec in cc

entry_eq→eq : (a c : Option FileMeta) → entry_eq a c ≡ true → a ≡ c
unfolding entry_eq
entry_eq→eq none none h = refl
entry_eq→eq none (some c) h = absurd cc
entry_eq→eq (some a) none h = absurd cc
entry_eq→eq (some a) (some c) h = ap some (meta_eq→eq a c h)

pub entry_eq_refl : (a : Option FileMeta) → entry_eq a a ≡ true
unfolding entry_eq meta_eq bool_eq
entry_eq_refl none = refl
entry_eq_refl (some a) = elim (Bool-cases a.exec) [
  | inl set ↦ rw set (ground (arith, bytes_eq_refl a.blob))
  | inr unset ↦ rw unset (ground (arith, bytes_eq_refl a.blob))
]

module _ (u : Unicode) (blake3 : Bytes → Bytes) (from_lines : Bytes → Bytes → TextDiff)
    (fetch : Bytes → Result Bytes Bytes) where
  marker-Touched :
      (c : PathConflict) (bytes : Bytes) (st : Merging)
      → Touched c.path st.merged_files
          (record_marker u blake3 from_lines fetch c bytes st).merged_files
  unfolding record_marker
  marker-Touched c bytes st = elim (Bool-cases (ltb blob_limit (length bytes))) [
    | inl over ↦ rw over (inl refl)
    | inr fits ↦ rw fits (inr (_, refl))
  ]

  record-Touched :
      (c : PathConflict) (st st' : Merging)
      → record_conflict u blake3 from_lines fetch c st ≡ ok st'
      → Touched c.path st.merged_files st'.merged_files
  unfolding record_conflict refuse_conflict
  record-Touched c st st' h = elim (Option-cases (content_rep u c)) [
    | inl e ↦
        let kept : Result MergeError Merging =
          ok (refuse_conflict u blake3 from_lines fetch c st) in
        let made : kept ≡ ok st' = cc in inl (files_of (ok-injective made))
    | inr (rep, e) ↦
        let rest : bind (marker_bytes (fetching u blake3 from_lines fetch) rep) (λ bytes. ok (
              record_marker u blake3 from_lines fetch c bytes
                (record st { input_ids = st.input_ids ++ (optional rep.base ++ rep.sides) })))
            ≡ ok st' =
          cc in
        let (bytes, read, made) =
          bind-eq-ok (marker_bytes (fetching u blake3 from_lines fetch) rep) _ rest in
        subst (λ (s : Merging). Touched c.path st.merged_files s.merged_files) (ok-injective made)
          (marker-Touched c bytes
            (record st { input_ids = st.input_ids ++ (optional rep.base ++ rep.sides) }))
  ]

  conflict-Touched :
      (on : OnConflict) (c : PathConflict) (st st' : Merging)
      → take_conflict u blake3 from_lines fetch on c st ≡ ok st'
      → Touched c.path st.merged_files st'.merged_files
  unfolding take_conflict refuse_conflict
  conflict-Touched refuse c st st' h = inl (files_of (ok-injective h))
  conflict-Touched record' c st st' h = record-Touched c st st' h

  at_path :
      (on : OnConflict) (path : Bytes) (b o t : Option FileMeta) (st st' : Merging)
      → take_conflict u blake3 from_lines fetch on (path_conflict path b o t) st ≡ ok st'
      → Touched path st.merged_files st'.merged_files
  unfolding path_conflict
  at_path on path b o t st st' h = conflict-Touched on (path_conflict path b o t) st st' h

  outcome-Touched :
      (on : OnConflict) (path : Bytes) (bm om tm : FileMeta) (st st' : Merging)
      (o : Option MergeOutcome)
      → merge_outcome u blake3 from_lines fetch on path bm om tm st o ≡ ok st'
      → Touched path st.merged_files st'.merged_files
  unfolding merge_outcome
  outcome-Touched on path bm om tm st st' none h = absurd cc
  outcome-Touched on path bm om tm st st' (some conflict) h =
      at_path on path (some bm) (some om) (some tm) st st' h
  outcome-Touched on path bm om tm st st' (some (merged bytes)) h = inr (
    merged_meta u blake3 from_lines fetch bytes bm om tm,
    ap (λ s. s.merged_files) (sym (ok-injective h)),
  )

  contents-Touched :
      (on : OnConflict) (path : Bytes) (bm om tm : FileMeta) (st st' : Merging)
      → merge_contents u blake3 from_lines fetch on path bm om tm st ≡ ok st'
      → Touched path st.merged_files st'.merged_files
  unfolding merge_contents
  contents-Touched on path bm om tm st st' h =
      let (base, e₁, h₁) = bind-eq-ok (fetching u blake3 from_lines fetch bm.blob) _ h in
      let (ours, e₂, h₂) = bind-eq-ok (fetching u blake3 from_lines fetch om.blob) _ h₁ in
      let (theirs, e₃, h₃) = bind-eq-ok (fetching u blake3 from_lines fetch tm.blob) _ h₂ in
      outcome-Touched on path bm om tm
        (record st { input_ids = st.input_ids ++ (bm.blob ∷ om.blob ∷ tm.blob ∷ []) }) st'
        (merge_lines from_lines base ours theirs) h₃

  both-Touched :
      (on : OnConflict) (path : Bytes) (b o t : Option FileMeta) (st st' : Merging)
      → both_changed u blake3 from_lines fetch on path b o t st ≡ ok st'
      → Touched path st.merged_files st'.merged_files
  unfolding both_changed
  both-Touched on path (some bm) (some om) (some tm) st st' h =
      contents-Touched on path bm om tm st st' h
  both-Touched on path none (some om) (some tm) st st' h =
      at_path on path none (some om) (some tm) st st' h
  both-Touched on path (some bm) none (some tm) st st' h =
      at_path on path (some bm) none (some tm) st st' h
  both-Touched on path (some bm) (some om) none st st' h =
      at_path on path (some bm) (some om) none st st' h
  both-Touched on path none none t st st' h = absurd cc
  both-Touched on path none (some om) none st st' h = absurd cc
  both-Touched on path (some bm) none none st st' h = absurd cc

  -- A path's step changes the merged files at that path alone.
  pub path-Touched :
      (on : OnConflict) (path : Bytes) (b o t : Option FileMeta) (st st' : Merging)
      → merge_path u blake3 from_lines fetch on path b o t st ≡ ok st'
      → Touched path st.merged_files st'.merged_files
  unfolding merge_path
  path-Touched on path b o t st st' h = elim (split_if (entry_eq o t) _ _ h) [
    | inl (e, h₁) ↦ keeps o h₁
    | inr (e, h₁) ↦ elim (split_if (entry_eq o b) _ _ h₁) [
      | inl (e₂, h₂) ↦ keeps t h₂
      | inr (e₂, h₂) ↦ elim (split_if (entry_eq t b) _ _ h₂) [
        | inl (e₃, h₃) ↦ keeps o h₃
        | inr (e₃, h₃) ↦ both-Touched on path b o t st st' h₃
      ]
    ]
  ]
    where
      kept : Option FileMeta → Result MergeError Merging
      kept m = ok (keep path m st)

      keeps :
          (m : Option FileMeta) → kept m ≡ ok st' → Touched path st.merged_files st'.merged_files
      keeps m e =
          subst (λ (s : Merging). Touched path st.merged_files s.merged_files) (ok-injective e)
            (keep-Touched path m st)

  -- A path that theirs did not touch keeps the file of ours.
  pub path_keeps :
      (on : OnConflict) (path : Bytes) (b o t : Option FileMeta) (st : Merging)
      → entry_eq t b ≡ true
      → merge_path u blake3 from_lines fetch on path b o t st ≡ ok (keep path o st)
  unfolding merge_path
  path_keeps on path b o t st same = elim (Bool-cases (entry_eq o t)) [
    | inl e ↦ rw e refl
    | inr e ↦ elim (Bool-cases (entry_eq o b)) [
      | inl e₂ ↦
          let all : o ≡ t = entry_eq→eq o b e₂ ∙ sym (entry_eq→eq t b same) in
          let refl_true : entry_eq o t ≡ true =
            subst (λ x. entry_eq o x ≡ true) all (entry_eq_refl o) in
          absurd cc
      | inr e₂ ↦ rw (e, e₂, same) refl
    ]
  ]
