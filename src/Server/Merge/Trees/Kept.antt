-- ===== src/Server/Merge/Trees/Kept.antt =====
-- crates/naatre-server/src/merge.rs: `merge_trees_mode` at the paths that theirs did not touch.
use naatre.Prelude.{
  ◌≡◌, refl, sym, ap, ◌∙◌, subst, true, false, Option, none, List, [], ◌∷◌, ◌++◌, map, Bytes,
  Result, ok, bind-eq-ok, refuse_if, length, ltb, All, All-append, ok-injective, bytes_eq,
  bytes_eq→eq, bytes_eq_refl, Bool-cases, inl, inr,
}
use naatre.Core.Path.{Unicode, split, slash, max_path_components}
use naatre.Server.TreeDerive.{FileMeta, MemNode, no_entries, too_deep}
use naatre.Server.TreeDerive.Ordered.{GoodPath, Ordered, insert_file-Ordered}
use naatre.Server.Merge.Delta.Flat.{
  get-flatten_files, flatten_files-good, all-insert_file, all-collect,
}
use naatre.Server.TreeDerive
use naatre.Server.TreeDerive.Files.{file_at-no_entries}
use naatre.Server.TreeDerive.Applied.{replay, apply-files}
use naatre.Server.Merge.Lines.{TextDiff}
use naatre.Server.Merge.Delta.Paths.{Sorted, has, collect-Sorted}
use naatre.Server.Merge.Delta.{keys, collect, Files, get, flatten_files}
use naatre.Server.Merge.Trees.{
  MergedTree, OnConflict, Merging, nothing_merged, entry_eq, keep, add_of, merge_path, merge_paths,
  merge_files, merge_trees_mode,
}
use naatre.Server.Merge.Trees.Step.{put_keep, over}
use naatre.Server.Merge.Trees.Paths.{
  ascends_tail, has_above, or_false, or_other, when, over-none, nowhere,
}
use naatre.Server.Merge.Trees.Touched.{
  Touched, Touched-get, Touched-ascends, path-Touched, path_keeps,
}
use naatre.Server.Merge.Trees.Replayed.{replay_adds}
use naatre.Server.Merge.Trees.Whole.{build-ok}

spreads :
    (path : Bytes) (old new : Files)
    → Touched path old new
    → GoodPath path
    → All GoodPath (keys old)
    → All GoodPath (keys new)
spreads path old new (inl e) p h = subst (λ fs. All GoodPath (keys fs)) (sym e) h
spreads path old new (inr (m, e)) p h =
    subst (λ fs. All GoodPath (keys fs)) (sym e) (all-insert_file GoodPath path m old p h)

-- Additions of good paths keep the order of a tree.
adds-Ordered :
    (files : Files) (node node' : MemNode)
    → All GoodPath (keys files)
    → Ordered node
    → TreeDerive.apply node (map add_of files) ≡ ok node'
    → Ordered node'
unfolding TreeDerive.apply keys TreeDerive.apply_change TreeDerive.apply_op TreeDerive.apply_write
    TreeDerive.meta_of
adds-Ordered [] node node' good h e = subst Ordered (ok-injective e) h
adds-Ordered ((p, m) ∷ files) node node' (first, good) h e =
    let (mid, one, rest) = bind-eq-ok (TreeDerive.apply_change node (add_of (p, m))) _ e in
    let (u₁, shallow, op) =
      bind-eq-ok (refuse_if (ltb max_path_components (length (split p slash))) (too_deep p)) _
        one in
    adds-Ordered files mid node' good (insert_file-Ordered node p m mid first h op) rest

module _ (u : Unicode) (blake3 : Bytes → Bytes) (from_lines : Bytes → Bytes → TextDiff)
    (fetch : Bytes → Result Bytes Bytes) (on : OnConflict) where
  record KeptLoop (base ours theirs : Files) (ps : List Bytes) (st st' : Merging) : Type 0 where
    pub ascend : Sorted (keys st.merged_files) → Sorted (keys st'.merged_files)
    pub outside : (q : Bytes) → has q ps ≡ false → get q st'.merged_files ≡ get q st.merged_files
    pub inside :
        (q : Bytes)
        → has q ps ≡ true
        → entry_eq (get q theirs) (get q base) ≡ true
        → get q st.merged_files ≡ none
        → get q st'.merged_files ≡ get q ours
    pub good :
        All GoodPath ps → All GoodPath (keys st.merged_files) → All GoodPath (keys st'.merged_files)

  put_here :
      (p : Bytes) (m : Option FileMeta) (st mid : Merging)
      → keep p m st ≡ mid
      → get p st.merged_files ≡ none
      → get p mid.merged_files ≡ m
  put_here p m st mid e fresh =
      ap (λ s. get p s.merged_files) (sym e)
      ∙ put_keep u blake3 from_lines fetch p m st p
      ∙ when _ _ (bytes_eq_refl p)
      ∙ ap (over m) fresh
      ∙ over-none m

  paths_keep :
      (base ours theirs : Files) (ps : List Bytes) (st st' : Merging)
      → Sorted ps
      → merge_paths u blake3 from_lines fetch on base ours theirs ps st ≡ ok st'
      → KeptLoop base ours theirs ps st st'
  unfolding merge_paths
  paths_keep base ours theirs [] st st' asc e =
      let same : st ≡ st' = ok-injective e in
      record {
        ascend =
            subst (λ (s : Merging). Sorted (keys st.merged_files) → Sorted (keys s.merged_files))
              same (λ h. h);
        outside = λ q _. ap (λ (s : Merging). get q s.merged_files) (sym same);
        inside = λ q found. absurd cc;
        good = λ named h. subst (λ (s : Merging). All GoodPath (keys s.merged_files)) same h;
      }
  paths_keep base ours theirs (p ∷ ps) st st' asc e =
      let (mid, stepped, rest) =
        bind-eq-ok
          (merge_path u blake3 from_lines fetch on p (get p base) (get p ours) (get p theirs) st) _
          e in
      let later = paths_keep base ours theirs ps mid st' (ascends_tail p ps asc) rest in
      let step =
        path-Touched u blake3 from_lines fetch on p (get p base) (get p ours) (get p theirs) st mid
          stepped in
      record {
        ascend = λ h. later.ascend (Touched-ascends p st.merged_files mid.merged_files step h);
        outside = λ q missing.
            let (first, others) = or_false (bytes_eq q p) (has q ps) missing in
            later.outside q others ∙ Touched-get p q st.merged_files mid.merged_files step first;
        inside = λ q found same fresh. elim (Bool-cases (bytes_eq q p)) [
          | inl here ↦
              let at : q ≡ p = bytes_eq→eq q p here in
              subst (λ r. get r st'.merged_files ≡ get r ours) (sym at)
                (later.outside p (has_above p ps asc)
                  ∙ put_here p (get p ours) st mid
                      (ok-injective (
                        sym (
                          path_keeps u blake3 from_lines fetch on p (get p base) (get p ours)
                            (get p theirs) st
                            (subst (λ r. entry_eq (get r theirs) (get r base) ≡ true) at same))
                        ∙ stepped))
                      (subst (λ r. get r st.merged_files ≡ none) at fresh))
          | inr other ↦
              later.inside q (or_other (bytes_eq q p) (has q ps) other found) same
                (Touched-get p q st.merged_files mid.merged_files step other ∙ fresh)
        ];
        good = λ named h.
            later.good named.1 (spreads p st.merged_files mid.merged_files step named.0 h);
      }

  files_keep :
      (base ours theirs : Files) (st : Merging)
      → merge_files u blake3 from_lines fetch on base ours theirs ≡ ok st
      → Sorted (keys st.merged_files)
        × (((path : Bytes)
              → entry_eq (get path theirs) (get path base) ≡ true
              → get path st.merged_files ≡ get path ours)
            × (All GoodPath (keys base)
                → All GoodPath (keys ours)
                → All GoodPath (keys theirs)
                → All GoodPath (keys st.merged_files)))
  unfolding merge_files
  files_keep base ours theirs st e =
      let union = collect (keys base ++ (keys ours ++ keys theirs)) in
      let looped = paths_keep base ours theirs union nothing_merged st (collect-Sorted _) e in
      (
        looped.ascend (unfold keys in tt),
        (
          λ path same. elim (Bool-cases (has path union)) [
            | inl found ↦ looped.inside path found same (unfold get in refl)
            | inr missing ↦
                let (b, o, t) = nowhere u blake3 from_lines fetch base ours theirs path missing in
                looped.outside path missing ∙ (unfold get in sym o)
          ],
          λ b o t.
              looped.good
                (all-collect GoodPath (keys base ++ (keys ours ++ keys theirs)) (
                  (All-append GoodPath (keys base) (keys ours ++ keys theirs)).1
                    (b, (All-append GoodPath (keys ours) (keys theirs)).1 (o, t))))
                (unfold keys in tt),
        ),
      )

  -- The merged files that a merged tree is made of.
  pub record MadeOf (base ours theirs : MemNode) (node : MemNode) : Type 0 where
    pub files : Files
    pub sorted : Sorted (keys files)
    pub applied : TreeDerive.apply no_entries (map add_of files) ≡ ok node
    pub kept :
        (path : Bytes)
        → entry_eq (get path (flatten_files theirs)) (get path (flatten_files base)) ≡ true
        → get path files ≡ get path (flatten_files ours)
    pub good : Ordered base → Ordered ours → Ordered theirs → All GoodPath (keys files)

  pub merge_trees_mode-MadeOf :
      (base ours theirs : MemNode) (r : MergedTree × Merging)
      → merge_trees_mode u blake3 from_lines fetch base ours theirs on ≡ ok r
      → MadeOf base ours theirs r.0.node
  unfolding merge_trees_mode
  merge_trees_mode-MadeOf base ours theirs r h =
      let (st, merged, done) =
        bind-eq-ok
          (merge_files u blake3 from_lines fetch on (flatten_files base) (flatten_files ours)
            (flatten_files theirs))
          _ h in
      let (sorted, (kept, good)) =
        files_keep (flatten_files base) (flatten_files ours) (flatten_files theirs) st merged in
      let (empty, applied) = build-ok u blake3 from_lines fetch st r done in
      record {
        files = st.merged_files;
        sorted = sorted;
        applied = applied;
        kept = kept;
        good = λ b o t.
            good (flatten_files-good base b) (flatten_files-good ours o)
              (flatten_files-good theirs t);
      }

  pub made-Ordered :
      (base ours theirs node : MemNode)
      → MadeOf base ours theirs node
      → Ordered base
      → Ordered ours
      → Ordered theirs
      → Ordered node
  made-Ordered base ours theirs node made b o t =
      adds-Ordered made.files no_entries node (made.good b o t) (unfold Ordered in tt) made.applied

  -- Where theirs did not touch a path, the merged tree has what ours has there.
  pub made-keeps :
      (base ours theirs node : MemNode) (path : Bytes)
      → MadeOf base ours theirs node
      → Ordered base
      → Ordered ours
      → Ordered theirs
      → entry_eq (get path (flatten_files theirs)) (get path (flatten_files base)) ≡ true
      → get path (flatten_files node) ≡ get path (flatten_files ours)
  made-keeps base ours theirs node path made b o t same =
      get-flatten_files node path (made-Ordered base ours theirs node made b o t)
      ∙ apply-files no_entries (map add_of made.files) node (split path slash) made.applied
      ∙ ap (replay (map add_of made.files) (split path slash))
          (file_at-no_entries (split path slash))
      ∙ replay_adds path made.files made.sorted
      ∙ made.kept path same
