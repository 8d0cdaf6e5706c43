-- ===== src/Server/Merge/Trees/Recorded.antt =====
-- crates/naatre-server/src/merge.rs: `merge_trees_mode` where conflicts are recorded.
use naatre.Prelude.{
  ◌≡◌, ◌≢◌, refl, sym, ap, ◌∙◌, subst, true, false, Option, none, some, List, [], ◌∷◌, ◌++◌, Bytes,
  Result, ok, ok-injective, bind, bind-eq-ok, length, ltb, All, Bool-cases, inl, inr,
}
use naatre.Core.Path
use naatre.Core.Path.{Unicode}
use naatre.Core.Conflict.{ConflictRep, Side}
use naatre.Core.Conflict.Markers.{marker_bytes}
use naatre.Server.TreeDerive.{FileMeta}
use naatre.Server.Merge.Lines.{TextDiff, MergeOutcome, merged, conflict, merge_lines}
use naatre.Server.Merge.PathConflict.{PathConflict, content_rep}
use naatre.Server.Merge.PathConflict.Recordable.{raised, content_rep-raised}
use naatre.Server.Merge.Delta.{Files, get, keys, collect}
use naatre.Server.Merge.Delta.Flat.{all-collect}
use naatre.Server.Merge.Trees.{
  record', Merging, nothing_merged, entry_eq, keep, path_conflict, blob_limit, optional, fetching,
  record_marker, record_conflict, take_conflict, merge_outcome, merge_contents, both_changed,
  merge_path, merge_paths, merge_files, MergeError,
}
use naatre.Server.Merge.Trees.Step.{keep-refused}
use naatre.Server.Merge.Trees.Touched.{entry_eq_refl}

-- The blob and the exec bit that a path holds.
abbrev side : Option FileMeta → Option Side
side none = none
side (some m) = some (m.blob, m.exec)

-- Two files with one blob have one size.
abbrev IsSized : Option FileMeta → Option FileMeta → Type 0
IsSized none c = Unit
IsSized (some a) none = Unit
IsSized (some a) (some c) = a.blob ≡ c.blob → a.size ≡ c.size

-- What a path must be, and what base, ours and theirs must hold at it.
pub record IsMergeable (u : Unicode) (path : Bytes) (b o t : Option FileMeta) : Type 0 where
  pub valid : Path.validate u path ≡ ok tt
  pub ours_theirs : IsSized o t
  pub ours_base : IsSized o b
  pub theirs_base : IsSized t b

-- Entries that the decision table tells apart have different blobs or exec bits.
side_apart : (a c : Option FileMeta) → IsSized a c → entry_eq a c ≡ false → side a ≢ side c
side_apart none none h e same = let never = entry_eq_refl none in absurd cc
side_apart none (some c) h e same = absurd cc
side_apart (some a) none h e same = absurd cc
side_apart (some a) (some c) h e same =
    let pair : ◌≡◌ {A = Side} (a.blob, a.exec) (c.blob, c.exec) = cc in
    let blob : a.blob ≡ c.blob = ap (λ p. p.0) pair in
    let exec : a.exec ≡ c.exec = ap (λ p. p.1) pair in
    let size = h blob in
    let one : a ≡ c = cc in
    let never = subst (λ m. entry_eq (some a) (some m) ≡ true) one (entry_eq_refl (some a)) in
    absurd cc

path_conflict-raised :
    (path : Bytes) (b o t : Option FileMeta)
    → path_conflict path b o t ≡ raised path (side b) (side o) (side t)
unfolding path_conflict
path_conflict-raised path none none none = refl
path_conflict-raised path none none (some t) = refl
path_conflict-raised path none (some o) none = refl
path_conflict-raised path none (some o) (some t) = refl
path_conflict-raised path (some b) none none = refl
path_conflict-raised path (some b) none (some t) = refl
path_conflict-raised path (some b) (some o) none = refl
path_conflict-raised path (some b) (some o) (some t) = refl

-- The conflict of a path where the decision table finds no agreement has a representation.
pub has_rep :
    (u : Unicode) (path : Bytes) (b o t : Option FileMeta)
    → IsMergeable u path b o t
    → entry_eq o t ≡ false
    → entry_eq o b ≡ false
    → entry_eq t b ≡ false
    → (rep : ConflictRep) × (content_rep u (path_conflict path b o t) ≡ some rep)
has_rep u path b o t good ot ob tb = (
  _,
  ap (content_rep u) (path_conflict-raised path b o t)
      ∙ content_rep-raised u path (side b) (side o) (side t) good.valid
          (side_apart o t good.ours_theirs ot) (side_apart o b good.ours_base ob)
          (side_apart t b good.theirs_base tb),
)

refused_of :
    (st st' : Merging)
    → ◌≡◌ {A = Result MergeError Merging} (ok st) (ok st')
    → st'.refused ≡ st.refused
refused_of st st' h = ap (λ (s : Merging). s.refused) (sym (ok-injective h))

module _ (u : Unicode) (blake3 : Bytes → Bytes) (from_lines : Bytes → Bytes → TextDiff)
    (fetch : Bytes → Result Bytes Bytes) where
  marker-refused :
      (c : PathConflict) (bytes : Bytes) (st : Merging)
      → (record_marker u blake3 from_lines fetch c bytes st).refused ≡ st.refused
  unfolding record_marker
  marker-refused c bytes st = elim (Bool-cases (ltb blob_limit (length bytes))) [
    | inl over ↦ rw over refl
    | inr fits ↦ rw fits refl
  ]

  -- Recording a conflict that has a representation refuses none.
  conflict-refused :
      (c : PathConflict) (rep : ConflictRep) (st st' : Merging)
      → content_rep u c ≡ some rep
      → take_conflict u blake3 from_lines fetch record' c st ≡ ok st'
      → st'.refused ≡ st.refused
  unfolding take_conflict record_conflict
  conflict-refused c rep st st' e h =
      let read : Merging = record st {
        input_ids = st.input_ids ++ (optional rep.base ++ rep.sides);
      } in
      let rest : bind (marker_bytes (fetching u blake3 from_lines fetch) rep)
            (λ bytes. ok (record_marker u blake3 from_lines fetch c bytes read))
          ≡ ok st' =
        cc in
      let (bytes, fetched, made) =
        bind-eq-ok (marker_bytes (fetching u blake3 from_lines fetch) rep) _ rest in
      refused_of (record_marker u blake3 from_lines fetch c bytes read) st' made
      ∙ marker-refused c bytes read

  outcome-refused :
      (path : Bytes) (bm om tm : FileMeta) (rep : ConflictRep) (st st' : Merging)
      (outcome : Option MergeOutcome)
      → content_rep u (path_conflict path (some bm) (some om) (some tm)) ≡ some rep
      → merge_outcome u blake3 from_lines fetch record' path bm om tm st outcome ≡ ok st'
      → st'.refused ≡ st.refused
  unfolding merge_outcome
  outcome-refused path bm om tm rep st st' none e h = absurd cc
  outcome-refused path bm om tm rep st st' (some conflict) e h =
      conflict-refused (path_conflict path (some bm) (some om) (some tm)) rep st st' e h
  outcome-refused path bm om tm rep st st' (some (merged bytes)) e h = refused_of _ st' h

  contents-refused :
      (path : Bytes) (bm om tm : FileMeta) (rep : ConflictRep) (st st' : Merging)
      → content_rep u (path_conflict path (some bm) (some om) (some tm)) ≡ some rep
      → merge_contents u blake3 from_lines fetch record' path bm om tm st ≡ ok st'
      → st'.refused ≡ st.refused
  unfolding merge_contents
  contents-refused path bm om tm rep st st' e h₀ =
      let (base, c₀, h₁) = bind-eq-ok (fetching u blake3 from_lines fetch bm.blob) _ h₀ in
      let (ours, c₁, h₂) = bind-eq-ok (fetching u blake3 from_lines fetch om.blob) _ h₁ in
      let (theirs, c₂, h₃) = bind-eq-ok (fetching u blake3 from_lines fetch tm.blob) _ h₂ in
      outcome-refused path bm om tm rep
        (record st { input_ids = st.input_ids ++ (bm.blob ∷ om.blob ∷ tm.blob ∷ []) }) st'
        (merge_lines from_lines base ours theirs) e h₃

  both-refused :
      (path : Bytes) (b o t : Option FileMeta) (rep : ConflictRep) (st st' : Merging)
      → content_rep u (path_conflict path b o t) ≡ some rep
      → both_changed u blake3 from_lines fetch record' path b o t st ≡ ok st'
      → st'.refused ≡ st.refused
  unfolding both_changed
  both-refused path (some b) (some o) (some t) rep st st' e h =
      contents-refused path b o t rep st st' e h
  both-refused path none (some o) (some t) rep st st' e h =
      conflict-refused (path_conflict path none (some o) (some t)) rep st st' e h
  both-refused path (some b) none (some t) rep st st' e h =
      conflict-refused (path_conflict path (some b) none (some t)) rep st st' e h
  both-refused path (some b) (some o) none rep st st' e h =
      conflict-refused (path_conflict path (some b) (some o) none) rep st st' e h
  both-refused path none none t rep st st' e h = absurd cc
  both-refused path none (some o) none rep st st' e h = absurd cc
  both-refused path (some b) none none rep st st' e h = absurd cc

  kept :
      (path : Bytes) (m : Option FileMeta) (st st' : Merging)
      → ◌≡◌ {A = Result MergeError Merging} (ok (keep path m st)) (ok st')
      → st'.refused ≡ st.refused
  kept path m st st' h =
      refused_of (keep path m st) st' h ∙ keep-refused u blake3 from_lines fetch path m st

  path-refused :
      (path : Bytes) (b o t : Option FileMeta) (st st' : Merging)
      → IsMergeable u path b o t
      → merge_path u blake3 from_lines fetch record' path b o t st ≡ ok st'
      → st'.refused ≡ st.refused
  unfolding merge_path
  path-refused path b o t st st' good h = elim (Bool-cases (entry_eq o t)) [
    | inl agreed ↦ kept path o st st' cc
    | inr ot ↦ elim (Bool-cases (entry_eq o b)) [
      | inl theirs ↦ kept path t st st' cc
      | inr ob ↦ elim (Bool-cases (entry_eq t b)) [
        | inl ours ↦ kept path o st st' cc
        | inr tb ↦
            let (rep, e) = has_rep u path b o t good ot ob tb in
            both-refused path b o t rep st st' e cc
      ]
    ]
  ]

  paths-refused :
      (base ours theirs : Files) (ps : List Bytes) (st st' : Merging)
      → All (λ p. IsMergeable u p (get p base) (get p ours) (get p theirs)) ps
      → merge_paths u blake3 from_lines fetch record' base ours theirs ps st ≡ ok st'
      → st'.refused ≡ st.refused
  unfolding merge_paths
  paths-refused base ours theirs [] st st' good h = refused_of _ st' h
  paths-refused base ours theirs (p ∷ ps) st st' (here, good) h =
      let (st₁, first, rest) =
        bind-eq-ok
          (merge_path u blake3 from_lines fetch record' p (get p base) (get p ours) (get p theirs)
            st)
          _ h in
      paths-refused base ours theirs ps st₁ st' good rest
      ∙ path-refused p (get p base) (get p ours) (get p theirs) st st₁ here first

  -- Where the loop that records conflicts returns, it has refused none.
  pub merge_files-refused :
      (base ours theirs : Files) (st : Merging)
      → All
          (λ p. IsMergeable u p (get p base) (get p ours) (get p theirs))
          (keys base ++ (keys ours ++ keys theirs))
      → merge_files u blake3 from_lines fetch record' base ours theirs ≡ ok st
      → st.refused ≡ []
  unfolding merge_files
  merge_files-refused base ours theirs st good h =
      paths-refused base ours theirs (collect (keys base ++ (keys ours ++ keys theirs)))
        nothing_merged st
        (all-collect (λ p. IsMergeable u p (get p base) (get p ours) (get p theirs))
          (keys base ++ (keys ours ++ keys theirs)) good)
        h
