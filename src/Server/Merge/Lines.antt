-- ===== src/Server/Merge/Lines.antt =====
-- crates/naatre-server/src/merge.rs: `merge_lines`, the line-level three-way merge. The line diff of the
-- crate similar is the parameter `from_lines` (`TextDiff::from_lines`). A result `none` is a panic:
-- the index of a slice out of range.
pub mod Order
pub mod Applies
pub mod Script
pub mod Returns
use naatre.Prelude.{
  ℕ, ◌+◌, ◌-◌, Bool, true, false, ◌&&◌, ◌||◌, not, Option, none, some, List, [], ◌∷◌, ◌++◌, map,
  Bytes, length, take, drop, any, bytes_eq, leb, ltb, ◌==◌, if◌then◌else◌, min,
}
use naatre.Core.Utf8.{is_utf8}
use naatre.Core.Conflict.{bool_eq}

-- `similar::DiffOp`
pub data DiffOp : Type 0 where
  equal : (old_index new_index len : ℕ) → DiffOp
  delete : (old_index old_len new_index : ℕ) → DiffOp
  insert : (old_index new_index new_len : ℕ) → DiffOp
  replace : (old_index old_len new_index new_len : ℕ) → DiffOp

abbrev pub Lines : Type 0
Lines = List Bytes

-- `similar::TextDiff`, by the methods that the source calls.
pub record TextDiff : Type 0 where
  pub ops : List DiffOp
  pub old_slices : Lines
  pub new_slices : Lines

pub data MergeOutcome : Type 0 where
  merged : Bytes → MergeOutcome
  conflict : MergeOutcome

pub record Hunk : Type 0 where
  pub start : ℕ
  pub end' : ℕ
  pub lines : Lines

unfoldable pub overlaps : Hunk → Hunk → Bool
overlaps h other = ltb h.start other.end' && ltb other.start h.end'

unfoldable pub is_insertion : Hunk → Bool
is_insertion h = h.start == h.end'

-- `lines[from..to]`
unfoldable pub slice : Lines → ℕ → ℕ → Option Lines
slice lines from to =
    if leb from to && leb to (length lines) then some (take (to - from) (drop from lines)) else none

abbrev replacing : ℕ → ℕ → Option Lines → Option (Option Hunk)
replacing start end' none = none
replacing start end' (some lines) =
    some (some (record { start = start; end' = end'; lines = lines }))

-- The closure of `hunks_of`.
unfoldable pub hunk_of : Lines → DiffOp → Option (Option Hunk)
hunk_of new_lines (equal old_index new_index len) = some none
hunk_of new_lines (delete old_index old_len new_index) =
    some (some (record { start = old_index; end' = old_index + old_len; lines = [] }))
hunk_of new_lines (insert old_index new_index new_len) =
    replacing old_index old_index (slice new_lines new_index (new_index + new_len))
hunk_of new_lines (replace old_index old_len new_index new_len) =
    replacing old_index (old_index + old_len) (slice new_lines new_index (new_index + new_len))

abbrev push : Option (Option Hunk) → Option (List Hunk) → Option (List Hunk)
push none rest = none
push (some h) none = none
push (some none) (some hs) = some hs
push (some (some h)) (some hs) = some (h ∷ hs)

unfoldable pub hunks_of : List DiffOp → Lines → Option (List Hunk)
hunks_of [] new_lines = some []
hunks_of (op ∷ ops) new_lines = push (hunk_of new_lines op) (hunks_of ops new_lines)

unfoldable pub lines_eq : Lines → Lines → Bool
lines_eq [] [] = true
lines_eq [] (y ∷ ys) = false
lines_eq (x ∷ xs) [] = false
lines_eq (x ∷ xs) (y ∷ ys) = bytes_eq x y && lines_eq xs ys

-- What makes a hunk of ours and a hunk of theirs conflict.
unfoldable pub clash : Hunk → Hunk → Bool
clash ho ht =
    overlaps ho ht
    || (is_insertion ho
        && (is_insertion ht && ((ho.start == ht.start) && not (lines_eq ho.lines ht.lines))))

unfoldable pub clashes : List Hunk → List Hunk → Bool
clashes ours theirs = any (λ ho. any (clash ho) theirs) ours

-- A hunk, and whether it is from theirs.
abbrev pub Tagged : Type 0
Tagged = Hunk × Bool

-- `false < true`
unfoldable pub bool_lt : Bool → Bool → Bool
bool_lt a b = not a && b

-- The order of the sort keys `(start, !is_insertion, from_theirs)`.
unfoldable pub key_lt : Tagged → Tagged → Bool
key_lt (g, from_g) (h, from_h) =
    ltb g.start h.start
    || ((g.start == h.start)
        && (bool_lt (not (is_insertion g)) (not (is_insertion h))
            || (bool_eq (is_insertion g) (is_insertion h) && bool_lt from_g from_h)))

unfoldable pub insert_by_key : Tagged → List Tagged → List Tagged
insert_by_key t [] = t ∷ []
insert_by_key t (s ∷ ss) =
    let rest = insert_by_key t ss in if key_lt s t then s ∷ rest else t ∷ s ∷ ss

-- `sort_by_key`, which is stable: an element goes before the later elements of an equal key.
unfoldable pub sort_by_key : List Tagged → List Tagged
sort_by_key [] = []
sort_by_key (t ∷ ts) = insert_by_key t (sort_by_key ts)

-- Whether `next` is the insertion `h` that the other side contributed verbatim.
unfoldable pub is_duplicate : Hunk → Hunk → Bool
is_duplicate h next =
    is_insertion next
    && (is_insertion h && ((next.start == h.start) && lines_eq next.lines h.lines))

abbrev onto : Option Lines → Option Lines → Option Lines
onto none rest = none
onto (some xs) none = none
onto (some xs) (some ys) = some (xs ++ ys)

-- The loop from the hunk at `i` on, `last` being the hunk that the duplicates are skipped of and
-- `pos` its end.
unfoldable pub apply_after : Lines → Hunk → List Tagged → Option Lines
apply_after base last [] = slice base last.end' (length base)
apply_after base last ((next, _) ∷ all) =
    let skipped = apply_after base last all in
    let applied = apply_after base next all in
    if is_duplicate last next
    then skipped
    else onto (slice base last.end' next.start) (onto (some next.lines) applied)

unfoldable pub apply : Lines → List Tagged → Option Lines
apply base [] = slice base 0 (length base)
apply base ((first, _) ∷ all) =
    onto (slice base 0 first.start) (onto (some first.lines) (apply_after base first all))

unfoldable pub concat : Lines → Bytes
concat [] = []
concat (l ∷ ls) = l ++ concat ls

unfoldable pub tag_all : Bool → List Hunk → List Tagged
tag_all from_theirs = map (λ h. (h, from_theirs))

abbrev joined : Option Lines → Option MergeOutcome
joined none = none
joined (some lines) = some (merged (concat lines))

-- From the hunks of the two sides on.
unfoldable pub merge_hunks : Lines → List Hunk → List Hunk → Option MergeOutcome
merge_hunks base ours theirs =
    if clashes ours theirs
    then some conflict
    else joined (apply base (sort_by_key (tag_all false ours ++ tag_all true theirs)))

abbrev merge_diffs : TextDiff → TextDiff → Option MergeOutcome
merge_diffs ours theirs = elim (hunks_of ours.ops ours.new_slices) [
  | none ↦ none
  | some os ↦ elim (hunks_of theirs.ops theirs.new_slices) [
    | none ↦ none
    | some ts ↦ merge_hunks ours.old_slices os ts
  ]
]

module _ (from_lines : Bytes → Bytes → TextDiff) where
  unfoldable pub merge_lines : Bytes → Bytes → Bytes → Option MergeOutcome
  merge_lines base ours theirs =
      if bytes_eq ours base
      then some (merged theirs)
      else if bytes_eq theirs base
      then some (merged ours)
      else if bytes_eq ours theirs
      then some (merged ours)
      else if not (is_utf8 base && (is_utf8 ours && is_utf8 theirs))
      then some conflict
      else merge_diffs (from_lines base ours) (from_lines base theirs)
