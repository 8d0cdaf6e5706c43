-- ===== src/Cli/Examples.antt =====
-- A small stat index of crates/naatre-cli, encoded.
use naatre.Prelude.{
  none, ◌^◌, ◌-◌, ◌≡◌, refl, true, false, [], ◌∷◌, arith, IsBytes, bytes_of_test, ok, codes,
  replicate,
}
use naatre.Core.Utf8.{scan_step, scan, is_utf8}
use naatre.Core.Words.{le_bytes}
use naatre.Cli.Index.{Row, decode, encode, write_row, write_rows}
use naatre.Cli.Index.Rows.{RowTyped}
use naatre.Cli.Index.Exact.{index_encode-decode}
use naatre.Cli.Index.RoundTrip.{Ascending, index_decode-encode}

abbrev first_row : Row
first_row = record {
  path = codes "a.txt";
  blob = replicate 32 7;
  size = 12;
  mtime_ns = 1000;
  ctime_ns = 2 ^ 64 - 1;
  ino = 42;
  exec = false;
}

abbrev second_row : Row
second_row = record first_row { path = codes "b/c"; exec = true }

first-RowTyped : RowTyped first_row
unfolding is_utf8 scan scan_step
first-RowTyped = record {
  path_utf8 = refl;
  path_no_nul = refl;
  path_short = omega arith;
  blob_length = refl;
  size_u64 = omega arith;
  mtime_u64 = omega arith;
  ctime_u64 = omega arith;
  ino_u64 = omega arith;
}

second-RowTyped : RowTyped second_row
unfolding is_utf8 scan scan_step
second-RowTyped = record {
  path_utf8 = refl;
  path_no_nul = refl;
  path_short = omega arith;
  blob_length = refl;
  size_u64 = omega arith;
  mtime_u64 = omega arith;
  ctime_u64 = omega arith;
  ino_u64 = omega arith;
}

decoded : decode (encode (first_row ∷ second_row ∷ [])) ≡ ok (first_row ∷ second_row ∷ [])
decoded =
    index_decode-encode (first_row ∷ second_row ∷ []) (first-RowTyped, (second-RowTyped, tt))
      (refl, (refl, tt)) (omega arith)

index_decode-encode_example :
    decode (encode (first_row ∷ second_row ∷ [])) ≡ ok (first_row ∷ second_row ∷ [])
index_decode-encode_example =
    index_decode-encode (first_row ∷ second_row ∷ []) (first-RowTyped, (second-RowTyped, tt))
      (refl, (refl, tt)) (omega arith)

encode-IsBytes : IsBytes (encode (first_row ∷ second_row ∷ []))
unfolding encode write_rows write_row le_bytes
encode-IsBytes = bytes_of_test (encode (first_row ∷ second_row ∷ [])) refl

index_encode-decode_example :
    (encode (first_row ∷ second_row ∷ []) ≡ encode (first_row ∷ second_row ∷ []))
    × Ascending none (first_row ∷ second_row ∷ [])
index_encode-decode_example =
    index_encode-decode (encode (first_row ∷ second_row ∷ [])) (first_row ∷ second_row ∷ [])
      encode-IsBytes decoded
