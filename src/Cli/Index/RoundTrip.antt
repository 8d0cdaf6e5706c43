-- ===== src/Cli/Index/RoundTrip.antt =====
-- crates/naatre-cli/src/wc/index.rs: an index, encoded and decoded.
use naatre.Prelude.{
  ◌<◌, ◌^◌, ◌≡◌, refl, sym, ap, ◌∙◌, subst, arith, true, false, Option, none, some, List, [], ◌∷◌,
  ◌++◌, Bytes, All, All-append, ok, length, take, bytes_eq, bytes_eq→eq, bytes_lt, bytes_lt_irrefl,
  bytes_lt_trans, ltb, le→ltb, length-append, append_assoc, append-nil, Bool-cases, inl, inr,
}
use naatre.Core.Words.{le_bytes, from_le, length-le_bytes, from_le-le_bytes}
use naatre.Cli.Index.{Row, insert_row, is_after, read_rows, decode, write_rows, encode}
use naatre.Cli.Index.Rows.{RowTyped, read_row-write_row, take_exact, drop_exact}

-- The rows ascend by path, from after `prev` on.
abbrev pub Ascending : Option Bytes → List Row → Type 0
Ascending prev [] = Unit
Ascending prev (row ∷ rows) = (is_after prev row.path ≡ true) × Ascending (some row.path) rows

abbrev pub Below : Bytes → List Row → Type 0
Below p rows = All (λ r. bytes_lt r.path p ≡ true) rows

not_before : (p q : Bytes) → bytes_lt p q ≡ true → (bytes_lt q p ≡ false) × (bytes_eq q p ≡ false)
not_before p q lt = (
  elim (Bool-cases (bytes_lt q p)) [
    | inl back ↦
        let loop = bytes_lt_trans p q p lt back in let never = bytes_lt_irrefl p in absurd cc
    | inr differs ↦ differs
  ],
  elim (Bool-cases (bytes_eq q p)) [
    | inl same ↦
        let at = subst (λ r. bytes_lt p r ≡ true) (bytes_eq→eq q p same) lt in
        let never = bytes_lt_irrefl p in absurd cc
    | inr differs ↦ differs
  ],
)

-- Inserting a row after all others appends it.
pub insert_row-last :
    (row : Row) (rows : List Row) → Below row.path rows → insert_row row rows ≡ rows ++ (row ∷ [])
unfolding insert_row
insert_row-last row [] h = refl
insert_row-last row (r ∷ rows) (lt, h) =
    let (late, other) = not_before r.path row.path lt in
    rw (late, other) (ap (λ rs. r ∷ rs) (insert_row-last row rows h))

abbrev NextBelow : List Row → List Row → Type 0
NextBelow acc [] = Unit
NextBelow acc (row ∷ rows) = Below row.path acc

pub lift_bound : (p q : Bytes) (rows : List Row) → bytes_lt p q ≡ true → Below p rows → Below q rows
lift_bound p q [] lt h = tt
lift_bound p q (r ∷ rows) lt (first, h) =
    (bytes_lt_trans r.path p q first lt, lift_bound p q rows lt h)

next_below :
    (row : Row) (acc rows : List Row)
    → Below row.path acc
    → Ascending (some row.path) rows
    → NextBelow (acc ++ (row ∷ [])) rows
next_below row acc [] h asc = tt
next_below row acc (r ∷ rows) h (lt, asc) =
    (All-append (λ a. bytes_lt a.path r.path ≡ true) acc (row ∷ [])).1
      (lift_bound row.path r.path acc lt h, (lt, tt))

below_nothing : (rows : List Row) → NextBelow [] rows
below_nothing [] = tt
below_nothing (row ∷ rows) = tt

read_rows-write_rows :
    (prev : Option Bytes) (rows acc : List Row)
    → All RowTyped rows
    → Ascending prev rows
    → NextBelow acc rows
    → read_rows (length rows) prev (write_rows rows) acc ≡ ok (acc ++ rows, [])
unfolding read_rows write_rows
read_rows-write_rows prev [] acc typed asc below = ap (λ rs. ok (rs, [])) (sym (append-nil acc))
read_rows-write_rows prev (row ∷ rows) acc (t, typed) (after, asc) below =
    rw (read_row-write_row prev row (write_rows rows) t after, insert_row-last row acc below)
      (read_rows-write_rows (some row.path) rows (acc ++ (row ∷ [])) typed asc
          (next_below row acc rows below asc)
        ∙ ap (λ rs. ok (rs, [])) (append_assoc acc (row ∷ []) rows))

-- An index whose rows ascend by path, have fields of their Rust types and paths without NUL below 2^32
-- bytes, and are fewer than 2^32, decodes from what it encodes to.
pub index_decode-encode :
    (rows : List Row)
    → All RowTyped rows
    → Ascending none rows
    → length rows < 2 ^ 32
    → decode (encode rows) ≡ ok rows
unfolding decode encode
index_decode-encode rows typed asc few =
    let n = length rows in
    let head = length-le_bytes 4 n in
    let long : ltb (length (encode rows)) 11 ≡ false =
      unfold encode in
      le→ltb _ 11 (omega (arith, head, length-append (le_bytes 4 n) (write_rows rows))) in
    let count : from_le (take 4 (le_bytes 4 n ++ write_rows rows)) ≡ n =
      ap from_le (take_exact 4 (le_bytes 4 n) (write_rows rows) head) ∙ from_le-le_bytes 4 n few in
    rw
      (
        long,
        count,
        drop_exact 4 (le_bytes 4 n) (write_rows rows) head,
        read_rows-write_rows none rows [] typed asc (below_nothing rows),
      )
      refl
