-- ===== src/Server/Merge/Lines/Returns.antt =====
-- crates/naatre-server/src/merge.rs: `merge_lines` as a whole, over a documented line diff.
use naatre.Prelude.{◌≡◌, refl, sym, subst, ◌&&◌, Bytes, length, bytes_eq, ◌∙◌, Bool-cases, inl, inr}
use naatre.Core.Utf8.{is_utf8}
use naatre.Server.Merge.Lines.{Lines, TextDiff, merged, conflict, merge_diffs, merge_lines}
use naatre.Server.Merge.Lines.Applies.{Returns, merge_hunks-Returns}
use naatre.Server.Merge.Lines.Script.{Script, Script→HunksFrom}

-- What the crate similar documents of `TextDiff::from_lines`: the old side is the old text split into
-- lines, and the operations lead through both sides from their beginnings to their ends.
pub record IsLineDiff (split : Bytes → Lines) (from_lines : Bytes → Bytes → TextDiff) : Type 0 where
  pub old : (a b : Bytes) → (from_lines a b).old_slices ≡ split a
  pub script :
      (a b : Bytes)
      → Script
          (length (from_lines a b).old_slices)
          (length (from_lines a b).new_slices)
          0
          0
          (from_lines a b).ops

merge_diffs-Returns :
    (ours theirs : TextDiff)
    → Script (length ours.old_slices) (length ours.new_slices) 0 0 ours.ops
    → Script (length theirs.old_slices) (length theirs.new_slices) 0 0 theirs.ops
    → ours.old_slices ≡ theirs.old_slices
    → Returns (merge_diffs ours theirs)
merge_diffs-Returns ours theirs h k same =
    let (os, e, ordered) =
      Script→HunksFrom (length ours.old_slices) 0 0 ours.new_slices ours.ops h in
    let (ts, e₁, ordered₁) =
      Script→HunksFrom (length ours.old_slices) 0 0 theirs.new_slices theirs.ops
        (subst (λ o. Script (length o) (length theirs.new_slices) 0 0 theirs.ops) (sym same) k) in
    let (outcome, e₂) = merge_hunks-Returns ours.old_slices os ts ordered ordered₁ in (outcome, cc)

-- With a line diff as documented, `merge_lines` returns an outcome for any three texts: no slice of
-- the base or of a new text is out of range, whichever order the hunks of both sides come in.
pub merge_lines-Returns :
    (split : Bytes → Lines) (from_lines : Bytes → Bytes → TextDiff)
    → IsLineDiff split from_lines
    → (base ours theirs : Bytes) → Returns (merge_lines from_lines base ours theirs)
unfolding merge_lines
merge_lines-Returns split from_lines diff base ours theirs =
    let (outcome, e) =
      merge_diffs-Returns (from_lines base ours) (from_lines base theirs) (diff.script base ours)
        (diff.script base theirs) (diff.old base ours ∙ sym (diff.old base theirs)) in
    elim (Bool-cases (bytes_eq ours base)) [
      | inl same ↦ rw same (merged theirs, refl)
      | inr changed ↦ elim (Bool-cases (bytes_eq theirs base)) [
        | inl same ↦ rw (changed, same) (merged ours, refl)
        | inr changed₁ ↦ elim (Bool-cases (bytes_eq ours theirs)) [
          | inl same ↦ rw (changed, changed₁, same) (merged ours, refl)
          | inr differ ↦
              rw (changed, changed₁, differ)
                (elim (Bool-cases (is_utf8 base && (is_utf8 ours && is_utf8 theirs))) [
                  | inl text ↦ rw text (outcome, e)
                  | inr binary ↦ rw binary (conflict, refl)
                ])
        ]
      ]
    ]
