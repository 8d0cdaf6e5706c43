-- ===== src/Server/Merge/Lines/Applies.antt =====
-- crates/naatre-server/src/merge.rs: the loop of `merge_lines` that applies the hunks.
use naatre.Prelude.{
  ℕ, ◌-◌, ◌≤◌, ◌≡◌, refl, sym, subst, arith, true, Option, some, List, [], ◌∷◌, ◌++◌, length, take,
  drop, Bool-cases, inl, inr,
}
use naatre.Server.Merge.Lines.{
  Lines, merged, conflict, Hunk, Tagged, slice, is_insertion, is_duplicate, apply_after, apply,
  clashes, merge_hunks, concat, onto, joined,
}
use naatre.Server.Merge.Lines.Order.{Ordered, OrderedTags, sides-OrderedTags}

-- A computation that does not panic.
abbrev pub Returns {ℓ} : {A : Type ℓ} → Option A → Type ℓ
Returns {A = A} o = (a : A) × (o ≡ some a)

pub slice-Returns :
    (lines : Lines) (from to : ℕ) → from ≤ to → to ≤ length lines → Returns (slice lines from to)
unfolding slice
slice-Returns lines from to h k = (take (to - from) (drop from lines), ground arith)

-- The position after a duplicate is the position before it.
duplicate_end : (last next : Hunk) → is_duplicate last next ≡ true → last.end' ≡ next.end'
unfolding is_duplicate is_insertion
duplicate_end last next same = ground arith

onto-Returns : (x y : Option Lines) → Returns x → Returns y → Returns (onto x y)
onto-Returns x y (a, e) (b, f) = (a ++ b, rw (e, f) refl)

apply_after-Returns :
    (base : Lines) (last : Hunk) (all : List Tagged)
    → OrderedTags (length base) last.end' all
    → Returns (apply_after base last all)
unfolding apply_after
apply_after-Returns base last [] h = slice-Returns base last.end' (length base) h (omega arith)
apply_after-Returns base last ((next, b) ∷ all) (from, range, ordered) =
    elim (Bool-cases (is_duplicate last next)) [
      | inl same ↦ rw same (
          apply_after-Returns base last all (
            subst (λ p. OrderedTags (length base) p all) (sym (duplicate_end last next same))
              ordered))
      | inr other ↦ rw other (
          onto-Returns _ _
            (slice-Returns base last.end' next.start from (omega (arith, range.0, range.1)))
            (onto-Returns _ _ (next.lines, refl) (apply_after-Returns base next all ordered)))
    ]

apply-Returns :
    (base : Lines) (all : List Tagged) → OrderedTags (length base) 0 all → Returns (apply base all)
unfolding apply
apply-Returns base [] h = slice-Returns base 0 (length base) h (omega arith)
apply-Returns base ((first, b) ∷ all) (from, range, ordered) =
    onto-Returns _ _ (slice-Returns base 0 first.start from (omega (arith, range.0, range.1)))
      (onto-Returns _ _ (first.lines, refl) (apply_after-Returns base first all ordered))

joined-Returns : (o : Option Lines) → Returns o → Returns (joined o)
joined-Returns o (lines, e) = (merged (concat lines), rw e refl)

pub merge_hunks-Returns :
    (base : Lines) (ours theirs : List Hunk)
    → Ordered (length base) 0 ours
    → Ordered (length base) 0 theirs
    → Returns (merge_hunks base ours theirs)
unfolding merge_hunks
merge_hunks-Returns base ours theirs h k = elim (Bool-cases (clashes ours theirs)) [
  | inl clash ↦ rw clash (conflict, refl)
  | inr clear ↦ rw clear (
      joined-Returns _
        (apply-Returns base _ (sides-OrderedTags (length base) ours theirs h k clear)))
]
