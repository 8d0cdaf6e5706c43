-- ===== src/Cli/Index/Rows.antt =====
-- crates/naatre-cli/src/wc/index.rs: one record, written and read.
use naatre.Prelude.{
  ℕ, zero, suc, ◌+◌, ◌<◌, ◌≤◌, ◌^◌, ◌≡◌, refl, ap, ◌∙◌, subst, arith, Bool, true, false, Option, [],
  ◌∷◌, ◌++◌, Bytes, ok, bind, refuse_if, length, take, drop, any, ltb, ◌==◌, if◌then◌else◌, le→ltb,
  length-append, take-append, drop-append,
}
use naatre.Core.Words.{le_bytes, from_le, length-le_bytes, from_le-le_bytes}
use naatre.Core.Utf8.{is_utf8}
use naatre.Cli.Index.{
  Row, truncated_length, truncated_record, row_fields, read_bool, is_after, read_path, read_row,
  write_row,
}

-- What the fields of a row are in Rust and in a checkout.
pub record RowTyped (row : Row) : Type 0 where
  pub path_utf8 : is_utf8 row.path ≡ true
  pub path_no_nul : any (λ b. b == 0) row.path ≡ false
  pub path_short : length row.path < 2 ^ 32
  pub blob_length : length row.blob ≡ 32
  pub size_u64 : row.size < 2 ^ 64
  pub mtime_u64 : row.mtime_ns < 2 ^ 64
  pub ctime_u64 : row.ctime_ns < 2 ^ 64
  pub ino_u64 : row.ino < 2 ^ 64

pub take_exact : (n : ℕ) (xs ys : Bytes) → length xs ≡ n → take n (xs ++ ys) ≡ xs
take_exact n xs ys h = subst (λ m. take m (xs ++ ys) ≡ xs) h (take-append xs ys)

pub drop_exact : (n : ℕ) (xs ys : Bytes) → length xs ≡ n → drop n (xs ++ ys) ≡ ys
drop_exact n xs ys h = subst (λ m. drop m (xs ++ ys) ≡ ys) h (drop-append xs ys)

drop_more : (k n : ℕ) (xs ys : Bytes) → k ≡ length xs + n → drop k (xs ++ ys) ≡ drop n ys
drop_more k n [] ys h = ap (λ m. drop m ys) (omega (arith, h))
drop_more zero n (x ∷ xs) ys h = absurd (omega (arith, h))
drop_more (suc k) n (x ∷ xs) ys h = drop_more k n xs ys (omega (arith, h))

word_at : (v : ℕ) (rest : Bytes) → v < 2 ^ 64 → from_le (take 8 (le_bytes 8 v ++ rest)) ≡ v
word_at v rest h =
    ap from_le (take_exact 8 (le_bytes 8 v) rest (length-le_bytes 8 v)) ∙ from_le-le_bytes 8 v h

-- The four words and what follows them.
words_of : (a b c d : ℕ) (rest : Bytes) → Bytes
words_of a b c d rest = le_bytes 8 a ++ (le_bytes 8 b ++ (le_bytes 8 c ++ (le_bytes 8 d ++ rest)))

drop-words_of :
    (a b c d : ℕ) (rest : Bytes)
    → (drop 8 (words_of a b c d rest) ≡ le_bytes 8 b ++ (le_bytes 8 c ++ (le_bytes 8 d ++ rest)))
      × (drop 16 (words_of a b c d rest) ≡ le_bytes 8 c ++ (le_bytes 8 d ++ rest))
      × (drop 24 (words_of a b c d rest) ≡ le_bytes 8 d ++ rest)
      × (drop 32 (words_of a b c d rest) ≡ rest)
unfolding words_of
drop-words_of a b c d rest =
    let word = length-le_bytes 8 in
    let last = drop_exact 8 (le_bytes 8 d) rest (word d) in
    let two = drop_more 16 8 (le_bytes 8 c) (le_bytes 8 d ++ rest) (omega (arith, word c)) ∙ last in
    let three =
      drop_more 24 16 (le_bytes 8 b) (le_bytes 8 c ++ (le_bytes 8 d ++ rest))
        (omega (arith, word b))
      ∙ two in
    (
      drop_exact 8 (le_bytes 8 a) _ (word a),
      drop_more 16 8 (le_bytes 8 a) _ (omega (arith, word a))
          ∙ drop_exact 8 (le_bytes 8 b) _ (word b),
      drop_more 24 16 (le_bytes 8 a) _ (omega (arith, word a))
          ∙ (drop_more 16 8 (le_bytes 8 b) _ (omega (arith, word b))
              ∙ drop_exact 8 (le_bytes 8 c) _ (word c)),
      drop_more 32 24 (le_bytes 8 a) _ (omega (arith, word a)) ∙ three,
    )

exec_byte : (exec : Bool) → read_bool (if exec then 1 else 0) ≡ ok exec
exec_byte true = refl
exec_byte false = refl

fields_of :
    (row : Row) (rest : Bytes)
    → RowTyped row
    → row_fields row.path (
        row.blob
        ++ words_of row.size row.mtime_ns row.ctime_ns row.ino ((if row.exec then 1 else 0) ∷ rest))
      ≡ ok (row, rest)
unfolding row_fields
fields_of row rest typed =
    let tail : Bytes = (if row.exec then 1 else 0) ∷ rest in
    let words = words_of row.size row.mtime_ns row.ctime_ns row.ino tail in
    let (second, third, fourth, past) =
      drop-words_of row.size row.mtime_ns row.ctime_ns row.ino tail in
    let first : from_le (take 8 words) ≡ row.size =
      unfold words_of in word_at row.size _ typed.size_u64 in
    rw
      (
        take_exact 32 row.blob words typed.blob_length,
        drop_exact 32 row.blob words typed.blob_length,
        second,
        third,
        fourth,
        past,
        first,
        word_at row.mtime_ns _ typed.mtime_u64,
        word_at row.ctime_ns _ typed.ctime_u64,
        word_at row.ino _ typed.ino_u64,
        exec_byte row.exec,
      )
      refl

fields_length :
    (row : Row) (rest : Bytes)
    → RowTyped row
    → 65
      ≤ length (
          row.blob
          ++ words_of row.size row.mtime_ns row.ctime_ns row.ino
              ((if row.exec then 1 else 0) ∷ rest))
unfolding words_of
fields_length row rest typed =
    let word = length-le_bytes 8 in
    let tail : Bytes = (if row.exec then 1 else 0) ∷ rest in
    let d = le_bytes 8 row.ino ++ tail in
    let c = le_bytes 8 row.ctime_ns ++ d in
    let b = le_bytes 8 row.mtime_ns ++ c in
    omega (
      arith,
      typed.blob_length,
      word row.size,
      word row.mtime_ns,
      word row.ctime_ns,
      word row.ino,
      length-append row.blob (le_bytes 8 row.size ++ b),
      length-append (le_bytes 8 row.size) b,
      length-append (le_bytes 8 row.mtime_ns) c,
      length-append (le_bytes 8 row.ctime_ns) d,
      length-append (le_bytes 8 row.ino) tail,
    )

path_read :
    (prev : Option Bytes) (row : Row)
    → RowTyped row
    → is_after prev row.path ≡ true
    → read_path prev row.path ≡ ok row.path
unfolding read_path
path_read prev row typed later = rw (typed.path_utf8, typed.path_no_nul, later) refl

-- A record that is written reads back, with what follows it left.
pub read_row-write_row :
    (prev : Option Bytes) (row : Row) (rest : Bytes)
    → RowTyped row
    → is_after prev row.path ≡ true
    → read_row prev (write_row row rest) ≡ ok (row, rest)
unfolding read_row write_row
read_row-write_row prev row rest typed later =
    let n = length row.path in
    let fields =
      row.blob
      ++ words_of row.size row.mtime_ns row.ctime_ns row.ino ((if row.exec then 1 else 0) ∷ rest) in
    let head = length-le_bytes 4 n in
    let long : ltb (length (le_bytes 4 n ++ (row.path ++ fields))) 4 ≡ false =
      le→ltb _ 4 (omega (arith, head, length-append (le_bytes 4 n) (row.path ++ fields))) in
    let plen : from_le (take 4 (le_bytes 4 n ++ (row.path ++ fields))) ≡ n =
      ap from_le (take_exact 4 (le_bytes 4 n) (row.path ++ fields) head)
      ∙ from_le-le_bytes 4 n typed.path_short in
    let enough : ltb (length (row.path ++ fields)) (n + 65) ≡ false =
      le→ltb _ (n + 65)
        (omega (arith, length-append row.path fields, fields_length row rest typed)) in
    let whole : bind
          (refuse_if (ltb (length (le_bytes 4 n ++ (row.path ++ fields))) 4) truncated_length)
          (λ _.
            let plen = from_le (take 4 (le_bytes 4 n ++ (row.path ++ fields))) in
            let rest = drop 4 (le_bytes 4 n ++ (row.path ++ fields)) in
            bind (refuse_if (ltb (length rest) (plen + 65)) truncated_record)
              λ _. bind (read_path prev (take plen rest)) λ path. row_fields path (drop plen rest))
        ≡ ok (row, rest) =
      rw
        (
          long,
          plen,
          drop_exact 4 (le_bytes 4 n) (row.path ++ fields) head,
          enough,
          take-append row.path fields,
          drop-append row.path fields,
          path_read prev row typed later,
        )
        (fields_of row rest typed) in
    unfold words_of in whole
