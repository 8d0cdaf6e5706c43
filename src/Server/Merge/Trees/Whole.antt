-- ===== src/Server/Merge/Trees/Whole.antt =====
-- crates/naatre-server/src/merge.rs: `merge_trees`, from three trees to a tree.
use naatre.Prelude.{
  ◌≡◌, refl, sym, ap, ◌∙◌, subst, not, List, [], ◌∷◌, map, Bytes, Result, ok, err, bind-eq-ok,
  is_empty, if◌then◌else◌,
}
use naatre.Core.Path.{Unicode, split, slash}
use naatre.Server.TreeDerive
use naatre.Server.TreeDerive.{FileMeta, MemNode, no_entries, ApplyError}
use naatre.Server.TreeDerive.Files.{file_at, file_at-no_entries}
use naatre.Server.TreeDerive.Applied.{replay, apply-files}
use naatre.Server.Merge.Lines.{TextDiff}
use naatre.Server.Merge.PathConflict.{PathConflict}
use naatre.Server.Merge.Delta.{get, flatten_files}
use naatre.Server.Merge.Trees.{
  refuse, MergeError, conflicts, Merging, MergedTree, add_of, built, build, merge_files,
  merge_trees_mode, merge_trees,
}
use naatre.Server.Merge.Trees.Step.{Resolved}
use naatre.Server.Merge.Trees.Paths.{merge_files-Resolved, merge_files-Sorted}
use naatre.Server.Merge.Trees.Replayed.{replay_adds}

pub screened :
    {A : Type 0} (cs : List PathConflict) (x : Result MergeError A) {a : A}
    → (if not (is_empty cs) then err (conflicts cs) else x) ≡ ok a
    → (cs ≡ []) × (x ≡ ok a)
screened [] x h = (refl, h)
screened (c ∷ cs) x h = absurd cc

module _ (u : Unicode) (blake3 : Bytes → Bytes) (from_lines : Bytes → Bytes → TextDiff)
    (fetch : Bytes → Result Bytes Bytes) where
  built-ok :
      (st : Merging) (r : Result ApplyError MemNode) (t : MergedTree × Merging)
      → built u blake3 from_lines fetch st r ≡ ok t
      → r ≡ ok t.0.node
  built-ok st (err e) t h = absurd cc
  built-ok st (ok node) t h = cc

  pub build-ok :
      (st : Merging) (t : MergedTree × Merging)
      → build u blake3 from_lines fetch st ≡ ok t
      → (st.refused ≡ []) × (TreeDerive.apply no_entries (map add_of st.merged_files) ≡ ok t.0.node)
  unfolding build
  build-ok st t h = let (empty, made) = screened st.refused _ h in (empty, built-ok st _ t made)

  -- Where `merge_trees` returns a tree, that holds at every path what the files of base, ours and theirs
  -- resolve to there: what both sides agree on, else what the one side that changed the path has, else,
  -- where both did, all three have it and it is the clean line merge of the fetched contents.
  pub merge_trees-Resolved :
      (base ours theirs : MemNode) (t : MergedTree) (path : Bytes)
      → merge_trees u blake3 from_lines fetch base ours theirs ≡ ok t
      → Resolved u blake3 from_lines fetch
          (get path (flatten_files base))
          (get path (flatten_files ours))
          (get path (flatten_files theirs))
          (file_at t.node (split path slash))
  unfolding merge_trees merge_trees_mode
  merge_trees-Resolved base ours theirs t path h =
      let (r, mode, tree) =
        bind-eq-ok (merge_trees_mode u blake3 from_lines fetch base ours theirs refuse) _ h in
      let (st, merged, done) =
        bind-eq-ok
          (merge_files u blake3 from_lines fetch refuse (flatten_files base) (flatten_files ours)
            (flatten_files theirs))
          _ mode in
      let (empty, applied) = build-ok st r done in
      let made : r.0 ≡ t = cc in
      let ascends = merge_files-Sorted u blake3 from_lines fetch _ _ _ st merged empty in
      let holds : file_at t.node (split path slash) ≡ get path st.merged_files =
        ap (λ (m : MergedTree). file_at m.node (split path slash)) (sym made)
        ∙ apply-files no_entries (map add_of st.merged_files) r.0.node (split path slash) applied
        ∙ ap (replay (map add_of st.merged_files) (split path slash))
            (file_at-no_entries (split path slash))
        ∙ replay_adds path st.merged_files ascends in
      subst (Resolved u blake3 from_lines fetch _ _ _) (sym holds)
        (merge_files-Resolved u blake3 from_lines fetch _ _ _ st merged empty path)
