-- ===== src/Cli/Index.antt =====
-- crates/naatre-cli/src/wc/index.rs: the binary stat index. An `Index`, a `BTreeMap` by path, is the list
-- of its rows in ascending order of path. An `i64` is the `u64` of the same bits, as `encode` casts it.
pub mod Rows
pub mod RoundTrip
pub mod Exact
use naatre.Prelude.{
  ℕ, zero, suc, ◌+◌, ◌%◌, ◌^◌, Bool, true, false, not, Option, none, some, List, [], ◌∷◌, ◌++◌,
  Bytes, Result, ok, err, bind, refuse_if, codes, length, take, drop, get_or, is_empty, any,
  bytes_eq, bytes_lt, ltb, ◌==◌, if◌then◌else◌,
}
use naatre.Core.Words.{le_bytes, from_le}
use naatre.Core.Utf8.{is_utf8}

abbrev pub magic : Bytes
magic = codes "NAIidx"

abbrev pub index_version : ℕ
index_version = 1

pub record Row : Type 0 where
  pub path : Bytes
  pub blob : Bytes
  pub size : ℕ
  pub mtime_ns : ℕ
  pub ctime_ns : ℕ
  pub ino : ℕ
  pub exec : Bool

-- The reasons that `decode` gives for `IndexError::Corrupt`.
pub data Corrupt : Type 0 where
  short_header bad_magic unknown_version truncated_length truncated_record not_utf8 contains_nul
        not_ascending bad_exec trailing_bytes :
      Corrupt

-- `rows.insert(path, row)`
unfoldable pub insert_row : Row → List Row → List Row
insert_row row [] = row ∷ []
insert_row row (r ∷ rows) =
    let rest = insert_row row rows in
    if bytes_lt row.path r.path
    then row ∷ r ∷ rows
    else if bytes_eq row.path r.path
    then row ∷ rows
    else r ∷ rest

abbrev pub read_bool : ℕ → Result Corrupt Bool
read_bool b = if b == 0 then ok false else if b == 1 then ok true else err bad_exec

-- The fields after the path. `read_row` has checked that they are all there.
unfoldable pub row_fields : Bytes → Bytes → Result Corrupt (Row × Bytes)
row_fields path cur =
    let words = drop 32 cur in
    let tail = drop 32 words in
    bind (read_bool (get_or tail 0 0)) λ exec. ok (
      record {
        path = path;
        blob = take 32 cur;
        size = from_le (take 8 words);
        mtime_ns = from_le (take 8 (drop 8 words));
        ctime_ns = from_le (take 8 (drop 16 words));
        ino = from_le (take 8 (drop 24 words));
        exec = exec;
      },
      drop 1 tail,
    )

abbrev pub is_after : Option Bytes → Bytes → Bool
is_after none path = true
is_after (some prev) path = bytes_lt prev path

unfoldable pub read_path : Option Bytes → Bytes → Result Corrupt Bytes
read_path prev path = bind (refuse_if (not (is_utf8 path)) not_utf8) λ _.
    bind (refuse_if (any (λ b. b == 0) path) contains_nul)
      λ _. bind (refuse_if (not (is_after prev path)) not_ascending) λ _. ok path

-- One record of the loop.
unfoldable pub read_row : Option Bytes → Bytes → Result Corrupt (Row × Bytes)
read_row prev cur = bind (refuse_if (ltb (length cur) 4) truncated_length) λ _.
    let plen = from_le (take 4 cur) in
    let rest = drop 4 cur in
    bind (refuse_if (ltb (length rest) (plen + 65)) truncated_record)
      λ _. bind (read_path prev (take plen rest)) λ path. row_fields path (drop plen rest)

unfoldable pub read_rows : ℕ → Option Bytes → Bytes → List Row → Result Corrupt (List Row × Bytes)
read_rows zero prev cur rows = ok (rows, cur)
read_rows (suc n) prev cur rows =
    bind (read_row prev cur) λ r. read_rows n (some r.0.path) r.1 (insert_row r.0 rows)

unfoldable pub decode : Bytes → Result Corrupt (List Row)
decode bytes = bind (refuse_if (ltb (length bytes) 11) short_header) λ _.
    bind (refuse_if (not (bytes_eq (take 6 bytes) magic)) bad_magic) λ _.
      bind (refuse_if (not (get_or bytes 6 0 == index_version)) unknown_version) λ _.
        bind (read_rows (from_le (take 4 (drop 7 bytes))) none (drop 11 bytes) [])
          λ r. bind (refuse_if (not (is_empty r.1)) trailing_bytes) λ _. ok r.0

unfoldable pub write_row : Row → Bytes → Bytes
write_row row rest =
    le_bytes 4 (length row.path)
    ++ (row.path
        ++ (row.blob
            ++ (le_bytes 8 row.size
                ++ (le_bytes 8 row.mtime_ns
                    ++ (le_bytes 8 row.ctime_ns
                        ++ (le_bytes 8 row.ino ++ ((if row.exec then 1 else 0) ∷ rest)))))))

unfoldable pub write_rows : List Row → Bytes
write_rows [] = []
write_rows (row ∷ rows) = write_row row (write_rows rows)

-- A count of rows and a path's length are cast to `u32`, which drops the bits above the low four bytes.
unfoldable pub encode : List Row → Bytes
encode rows = magic ++ (index_version ∷ (le_bytes 4 (length rows) ++ write_rows rows))
