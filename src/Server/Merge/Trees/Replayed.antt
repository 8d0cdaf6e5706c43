-- ===== src/Server/Merge/Trees/Replayed.antt =====
-- crates/naatre-server/src/merge.rs: additions of ascending paths, replayed on the empty tree.
use naatre.Prelude.{
  ◌≡◌, refl, sym, ap, ◌∙◌, subst, arith, true, false, Option, none, some, List, [], ◌∷◌, map, Bytes,
  bytes_eq, bytes_eq_refl, bytes_eq→eq, bytes_lt, bytes_lt_total, Bool-cases, inl, inr,
}
use naatre.Core.Path.{split, slash}
use naatre.Core.Text.{strip_prefix}
use naatre.Core.Changeset.{is_del}
use naatre.Server.Authz.{scope_allows, goes_on}
use naatre.Server.Authz.Segments.{begins, scope_allows-begins}
use naatre.Server.TreeDerive.{FileMeta, meta_of}
use naatre.Server.TreeDerive.Files.{place}
use naatre.Server.TreeDerive.Applied.{new_of, replay}
use naatre.Server.Merge.Delta.{Files, get, keys}
use naatre.Server.Merge.Delta.Paths.{Ascends, Sorted}
use naatre.Server.Merge.Trees.{add_of}
use naatre.Server.Merge.Trees.Paths.{lt-not-eq, ascends_tail, lower}

strip_prefix-lt : (path p : Bytes) → bytes_lt path p ≡ true → strip_prefix path p ≡ none
unfolding strip_prefix
strip_prefix-lt [] [] h = absurd cc
strip_prefix-lt [] (d ∷ p) h = refl
strip_prefix-lt (c ∷ path) [] h = absurd cc
strip_prefix-lt (c ∷ path) (d ∷ p) h = ground (arith, strip_prefix-lt path p)

-- A path's components do not begin those of a path before it.
begins-lt :
    (path p : Bytes) → bytes_lt path p ≡ true → begins (split p slash) (split path slash) ≡ false
unfolding scope_allows goes_on
begins-lt path p h =
    sym (scope_allows-begins p path) ∙ (rw (lt-not-eq path p h, strip_prefix-lt path p h) refl)

place_elsewhere :
    (new old : Option FileMeta) (p q : List Bytes) → begins p q ≡ false → place new p q old ≡ old
unfolding place begins
place_elsewhere new old [] q h = absurd cc
place_elsewhere new old (s ∷ ss) [] h = refl
place_elsewhere new old (s ∷ ss) (t ∷ ts) h = ground (arith, place_elsewhere new old ss ts)

place_here : (new old : Option FileMeta) (p : List Bytes) → place new p p old ≡ new
unfolding place
place_here new old [] = refl
place_here new old (s ∷ ss) = rw (bytes_eq_refl s) (place_here new old ss)

place_unset :
    (new : Option FileMeta) (p q : List Bytes) → begins q p ≡ false → place new p q none ≡ none
unfolding place begins
place_unset new [] [] h = absurd cc
place_unset new [] (t ∷ ts) h = refl
place_unset new (s ∷ ss) [] h = absurd cc
place_unset new (s ∷ ss) (t ∷ ts) h = elim (Bool-cases (bytes_eq t s)) [
  | inl same ↦
      let back = subst (λ x. bytes_eq s x ≡ true) (sym (bytes_eq→eq t s same)) (bytes_eq_refl s) in
      rw same (place_unset new ss ts (ground arith))
  | inr other ↦ rw other refl
]

new_of-add : (p : Bytes) (m : FileMeta) → new_of (add_of (p, m)) ≡ some m
unfolding new_of meta_of is_del
new_of-add p m = refl

-- Additions of paths after `path` leave what `path` holds.
replay_after :
    (path : Bytes) (files : Files) (old : Option FileMeta)
    → Ascends path (keys files)
    → replay (map add_of files) (split path slash) old ≡ old
unfolding replay keys
replay_after path [] old h = refl
replay_after path ((p, m) ∷ files) old (lt, h) =
    ap (replay (map add_of files) (split path slash)) (
      place_elsewhere (new_of (add_of (p, m))) old (split p slash) (split path slash)
        (begins-lt path p lt))
    ∙ replay_after path files old (lower path p (keys files) lt h)

-- Adding ascending files to nothing gives each path the file that the list has for it.
pub replay_adds :
    (path : Bytes) (files : Files)
    → Sorted (keys files)
    → replay (map add_of files) (split path slash) none ≡ get path files
unfolding replay keys get
replay_adds path [] h = refl
replay_adds path ((p, m) ∷ files) h = elim (Bool-cases (bytes_eq path p)) [
  | inl same ↦
      let at = bytes_eq→eq path p same in
      rw same (
        subst
          (λ r.
            replay (map add_of files) (split r slash)
              (place (new_of (add_of (p, m))) (split p slash) (split r slash) none)
            ≡ some m)
          (sym at)
          (ap (replay (map add_of files) (split p slash))
              (place_here (new_of (add_of (p, m))) none (split p slash) ∙ new_of-add p m)
            ∙ replay_after p files (some m) h))
  | inr other ↦ rw other (
      ap (replay (map add_of files) (split path slash)) (untouched other)
      ∙ replay_adds path files (ascends_tail p (keys files) h))
]
  where
    untouched :
        bytes_eq path p ≡ false
        → place (new_of (add_of (p, m))) (split p slash) (split path slash) none ≡ none
    untouched other = elim (Bool-cases (bytes_lt path p)) [
      | inl before ↦
          place_elsewhere (new_of (add_of (p, m))) none (split p slash) (split path slash)
            (begins-lt path p before)
      | inr late ↦
          place_unset (new_of (add_of (p, m))) (split p slash) (split path slash)
            (begins-lt p path (bytes_lt_total path p late other))
    ]
