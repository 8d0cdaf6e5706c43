-- ===== src/Server/Examples.antt =====
-- Small texts and trees of crates/naatre-server, merged and compared.
use naatre.Prelude.{
  ℕ, ◌+◌, ◌≡◌, refl, subst, true, false, some, List, [], ◌∷◌, arith, Bytes, ok, codes, replicate,
  leb, ◌&&◌, ◌==◌, if◌then◌else◌, map, length, Bool-cases, inl, inr,
}
use naatre.Core.Utf8.{char_indices}
use naatre.Core.Path
use naatre.Core.Path.{split, slash}
use naatre.Server.Authz.{scope_allows}
use naatre.Server.Authz.Segments.{begins, scope_allows-begins}
use naatre.Core.Path.{Unicode}
use naatre.Core.Changeset.{is_sorted}
use naatre.Server.Merge.Lines.{DiffOp, insert, delete, equal, replace, Lines, TextDiff, merge_lines}
use naatre.Server.Merge.Lines.Applies.{Returns}
use naatre.Server.Merge.Lines.Script.{Script}
use naatre.Server.Merge.Lines.Returns.{IsLineDiff, merge_lines-Returns}
use naatre.Server.Merge.Delta.{delta_between, get, flatten_files}
use naatre.Server.TreeDerive.{MemNode, FileMeta, no_entries, file_entry, dir_entry}
use naatre.Server.Merge.Delta.Changes.{
  find, redo, content, is_sorted-delta_between, redo-delta_between,
}

-- A diff that pairs lines by position. A line here is a byte.
abbrev pub lines_of : Bytes → Lines
lines_of = map (λ b. b ∷ [])

unfoldable pub pairwise : ℕ → ℕ → Bytes → Bytes → List DiffOp
pairwise i j [] [] = []
pairwise i j [] (y ∷ ys) = insert i j 1 ∷ pairwise i (j + 1) [] ys
pairwise i j (x ∷ xs) [] = delete i 1 j ∷ pairwise (i + 1) j xs []
pairwise i j (x ∷ xs) (y ∷ ys) =
    let rest = pairwise (i + 1) (j + 1) xs ys in
    if x == y then equal i j 1 ∷ rest else replace i 1 j 1 ∷ rest

ends_at :
    (n n₁ m m₁ i j : ℕ) (ops : List DiffOp)
    → n ≡ n₁
    → m ≡ m₁
    → Script n m i j ops
    → Script n₁ m₁ i j ops
ends_at n n₁ m m₁ i j ops same same₁ h =
    subst (λ k. Script k m₁ i j ops) same (subst (λ k. Script n k i j ops) same₁ h)

pairwise-Script :
    (i j : ℕ) (xs ys : Bytes)
    → Script (i + length (lines_of xs)) (j + length (lines_of ys)) i j (pairwise i j xs ys)
unfolding pairwise
pairwise-Script i j [] [] = (omega arith, omega arith)
pairwise-Script i j [] (y ∷ ys) = (
  refl,
  refl,
  subst (λ m. Script (i + 0) m i (j + 1) (pairwise i (j + 1) [] ys)) (omega arith)
      (pairwise-Script i (j + 1) [] ys),
)
pairwise-Script i j (x ∷ xs) [] = (
  refl,
  refl,
  subst (λ n. Script n (j + 0) (i + 1) j (pairwise (i + 1) j xs [])) (omega arith)
      (pairwise-Script (i + 1) j xs []),
)
pairwise-Script i j (x ∷ xs) (y ∷ ys) =
    let rest =
      ends_at _ (i + length (lines_of (x ∷ xs))) _ (j + length (lines_of (y ∷ ys))) (i + 1) (j + 1)
        (pairwise (i + 1) (j + 1) xs ys) (omega arith) (omega arith)
        (pairwise-Script (i + 1) (j + 1) xs ys) in
    elim (Bool-cases (x == y)) [
      | inl same ↦ rw same (refl, refl, rest)
      | inr other ↦ rw other (refl, refl, rest)
    ]

abbrev pub by_position : Bytes → Bytes → TextDiff
by_position a b = record {
  ops = pairwise 0 0 a b;
  old_slices = lines_of a;
  new_slices = lines_of b;
}

pub by_position-IsLineDiff : IsLineDiff lines_of by_position
by_position-IsLineDiff = record {
  old = λ a b. refl;
  script = λ a b.
      ends_at _ (length (lines_of a)) _ (length (lines_of b)) 0 0 (pairwise 0 0 a b) (omega arith)
        (omega arith) (pairwise-Script 0 0 a b);
}

merge_lines-Returns_example :
    Returns (merge_lines by_position (codes "abc") (codes "xbc") (codes "aby"))
merge_lines-Returns_example =
    merge_lines-Returns lines_of by_position by_position-IsLineDiff (codes "abc") (codes "xbc")
      (codes "aby")

-- Unicode tables for ASCII text.
abbrev pub ascii : Unicode
ascii = record {
  nfc = λ s. s;
  to_lowercase = map (λ c. if leb b'A' c && leb c b'Z' then c + 32 else c);
}

pub path_valid : Path.validate ascii (codes "a/b") ≡ ok tt
unfolding Path.validate Path.starts_with Path.contains Path.check_control Path.find_char
    Path.is_control Path.is_cc Path.is_cf Path.check_components Path.is_dots Path.split
    Path.check_reserved Path.find_reserved char_indices
path_valid = refl

abbrev pub id_of : ℕ → Bytes
id_of n = replicate 32 n

abbrev pub file_of : ℕ → FileMeta
file_of n = record { blob = id_of n; size = n; exec = false }

abbrev parent : MemNode
parent =
    file_entry (codes "a") (file_of 1)
      (dir_entry (codes "d") (file_entry (codes "x") (file_of 2) no_entries) no_entries)

abbrev child : MemNode
child =
    dir_entry (codes "d")
      (file_entry (codes "x") (file_of 3) (file_entry (codes "y") (file_of 4) no_entries))
      no_entries

is_sorted-delta_between_example : is_sorted (delta_between parent child) ≡ true
is_sorted-delta_between_example = is_sorted-delta_between parent child

redo-delta_between_example :
    redo
      (content (get (codes "d/x") (flatten_files parent)))
      (find (codes "d/x") (delta_between parent child))
    ≡ content (get (codes "d/x") (flatten_files child))
redo-delta_between_example = redo-delta_between parent child (codes "d/x")

scope_allows-begins_example :
    scope_allows (some (codes "a/b")) (codes "a/bc")
    ≡ begins (split (codes "a/b") slash) (split (codes "a/bc") slash)
scope_allows-begins_example = scope_allows-begins (codes "a/b") (codes "a/bc")
