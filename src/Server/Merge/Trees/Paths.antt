-- ===== src/Server/Merge/Trees/Paths.antt =====
-- crates/naatre-server/src/merge.rs: the loop of `merge_trees_mode` over the paths, where conflicts are
-- refused.
use naatre.Prelude.{
  ◌≡◌, refl, sym, ap, ◌∙◌, subst, arith, Bool, true, false, ◌||◌, Option, none, some, List, [], ◌∷◌,
  ◌++◌, Bytes, Result, ok, bind-eq-ok, bytes_eq, bytes_eq→eq, bytes_lt, bytes_lt_irrefl,
  bytes_lt_trans, if◌then◌else◌, Bool-cases, inl, inr,
}
use naatre.Core.Path.{Unicode}
use naatre.Server.TreeDerive.{FileMeta}
use naatre.Server.Merge.Lines.{TextDiff}
use naatre.Server.Merge.Delta.{Files, get, keys, collect}
use naatre.Server.Merge.Delta.Paths.{
  Ascends, Sorted, collect-Sorted, has, has-collect, has-append, get_absent,
}
use naatre.Server.Merge.Trees.{
  refuse, Merging, nothing_merged, entry_eq, merge_path, merge_paths, merge_files,
}
use naatre.Server.Merge.Trees.Step.{over, Resolved, agreed, path-Stepped}

-- A path before another is not it.
pub lt-not-eq : (p q : Bytes) → bytes_lt p q ≡ true → bytes_eq p q ≡ false
lt-not-eq p q lt = elim (Bool-cases (bytes_eq p q)) [
  | inl same ↦
      let at = subst (λ r. bytes_lt p r ≡ true) (sym (bytes_eq→eq p q same)) lt in
      let never = bytes_lt_irrefl p in absurd cc
  | inr other ↦ other
]

pub lower : (p q : Bytes) (qs : List Bytes) → bytes_lt p q ≡ true → Ascends q qs → Ascends p qs
lower p q [] lt h = tt
lower p q (r ∷ rs) lt (lt₁, h) = (bytes_lt_trans p q r lt lt₁, h)

-- A path that ascending paths follow is none of them.
pub has_above : (p : Bytes) (ps : List Bytes) → Ascends p ps → has p ps ≡ false
has_above p [] h = refl
has_above p (q ∷ qs) (lt, asc) = rw (lt-not-eq p q lt, has_above p qs (lower p q qs lt asc)) refl

pub ascends_tail : (p : Bytes) (ps : List Bytes) → Ascends p ps → Sorted ps
ascends_tail p [] h = tt
ascends_tail p (q ∷ qs) h = h.1

pub or_false : (a b : Bool) → (a || b) ≡ false → (a ≡ false) × (b ≡ false)
or_false a b h = ground arith

pub or_other : (a b : Bool) → a ≡ false → (a || b) ≡ true → b ≡ true
or_other a b h k = ground arith

pub when {ℓ} : {A : Type ℓ} {b : Bool} (x y : A) → b ≡ true → (if b then x else y) ≡ x
when x y h = rw h refl

pub unless {ℓ} : {A : Type ℓ} {b : Bool} (x y : A) → b ≡ false → (if b then x else y) ≡ y
unless x y h = rw h refl

pub over-none : (o : Option FileMeta) → over o none ≡ o
over-none none = refl
over-none (some m) = refl

module _ (u : Unicode) (blake3 : Bytes → Bytes) (from_lines : Bytes → Bytes → TextDiff)
    (fetch : Bytes → Result Bytes Bytes) where
  -- What the loop over some paths did.
  record Looped (base ours theirs : Files) (ps : List Bytes) (st st' : Merging) : Type 0 where
    pub clean : st.refused ≡ []
    pub ascend : Sorted (keys st.merged_files) → Sorted (keys st'.merged_files)
    pub outside : (q : Bytes) → has q ps ≡ false → get q st'.merged_files ≡ get q st.merged_files
    pub inside :
        (q : Bytes)
        → has q ps ≡ true
        → get q st.merged_files ≡ none
        → Resolved u blake3 from_lines fetch
            (get q base)
            (get q ours)
            (get q theirs)
            (get q st'.merged_files)

  paths-Looped :
      (base ours theirs : Files) (ps : List Bytes) (st st' : Merging)
      → Sorted ps
      → merge_paths u blake3 from_lines fetch refuse base ours theirs ps st ≡ ok st'
      → st'.refused ≡ []
      → Looped base ours theirs ps st st'
  unfolding merge_paths
  paths-Looped base ours theirs [] st st' asc e empty =
      let same : st ≡ st' = cc in
      record {
        clean = ap (λ s. s.refused) same ∙ empty;
        ascend =
            subst (λ s. Sorted (keys st.merged_files) → Sorted (keys s.merged_files)) same (λ h. h);
        outside = λ q _. ap (λ s. get q s.merged_files) (sym same);
        inside = λ q found. absurd cc;
      }
  paths-Looped base ours theirs (p ∷ ps) st st' asc e empty =
      let (mid, stepped, rest) =
        bind-eq-ok
          (merge_path u blake3 from_lines fetch refuse p (get p base) (get p ours) (get p theirs)
            st)
          _ e in
      let later = paths-Looped base ours theirs ps mid st' (ascends_tail p ps asc) rest empty in
      let step =
        path-Stepped u blake3 from_lines fetch p (get p base) (get p ours) (get p theirs) st mid
          stepped later.clean in
      record {
        clean = step.clean;
        ascend = λ h. later.ascend (step.ascend h);
        outside = λ q missing.
            let (first, others) = or_false (bytes_eq q p) (has q ps) missing in
            later.outside q others ∙ step.put q ∙ unless _ _ first;
        inside = λ q found fresh. elim (Bool-cases (bytes_eq q p)) [
          | inl here ↦
              let at = bytes_eq→eq q p here in
              let holds : get q st'.merged_files ≡ step.new =
                later.outside q (subst (λ r. has r ps ≡ false) (sym at) (has_above p ps asc))
                ∙ step.put q
                ∙ when _ _ here
                ∙ ap (over step.new) fresh
                ∙ over-none step.new in
              subst
                (λ m. Resolved u blake3 from_lines fetch (get q base) (get q ours) (get q theirs) m)
                (sym holds)
                (subst
                  (λ r.
                    Resolved u blake3 from_lines fetch (get r base) (get r ours) (get r theirs)
                      step.new)
                  (sym at) step.resolved)
          | inr other ↦
              later.inside q (or_other (bytes_eq q p) (has q ps) other found)
                (step.put q ∙ unless _ _ other ∙ fresh)
        ];
      }

  pub nowhere :
      (base ours theirs : Files) (q : Bytes)
      → has q (collect (keys base ++ (keys ours ++ keys theirs))) ≡ false
      → (get q base ≡ none) × (get q ours ≡ none) × (get q theirs ≡ none)
  nowhere base ours theirs q missing =
      let whole = sym (has-collect q (keys base ++ (keys ours ++ keys theirs))) ∙ missing in
      let (in_base, rest) =
        or_false _ _ (sym (has-append q (keys base) (keys ours ++ keys theirs)) ∙ whole) in
      let (in_ours, in_theirs) =
        or_false _ _ (sym (has-append q (keys ours) (keys theirs)) ∙ rest) in
      (get_absent q base in_base, get_absent q ours in_ours, get_absent q theirs in_theirs)

  -- Where conflicts are refused and none was, the merged files hold at every path what the three trees'
  -- files there resolve to: what both sides agree on, else what the side that changed the path has,
  -- else, where both did and all three have the path, the line merge of the fetched contents.
  pub merge_files-Resolved :
      (base ours theirs : Files) (st : Merging)
      → merge_files u blake3 from_lines fetch refuse base ours theirs ≡ ok st
      → st.refused ≡ []
      → (path : Bytes)
      → Resolved u blake3 from_lines fetch
          (get path base)
          (get path ours)
          (get path theirs)
          (get path st.merged_files)
  unfolding merge_files
  merge_files-Resolved base ours theirs st e empty path =
      let union = collect (keys base ++ (keys ours ++ keys theirs)) in
      let looped =
        paths-Looped base ours theirs union nothing_merged st (collect-Sorted _) e empty in
      elim (Bool-cases (has path union)) [
        | inl found ↦ looped.inside path found (unfold get in refl)
        | inr missing ↦
            let (b, o, t) = nowhere base ours theirs path missing in
            let kept = looped.outside path missing in
            agreed (rw (o, t) (unfold entry_eq in refl)) (kept ∙ (unfold get in sym o))
      ]

  -- The merged files ascend.
  pub merge_files-Sorted :
      (base ours theirs : Files) (st : Merging)
      → merge_files u blake3 from_lines fetch refuse base ours theirs ≡ ok st
      → st.refused ≡ []
      → Sorted (keys st.merged_files)
  unfolding merge_files
  merge_files-Sorted base ours theirs st e empty =
      let union = collect (keys base ++ (keys ours ++ keys theirs)) in
      let looped =
        paths-Looped base ours theirs union nothing_merged st (collect-Sorted _) e empty in
      looped.ascend (unfold keys in tt)
