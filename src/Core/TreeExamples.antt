-- ===== src/Core/TreeExamples.antt =====
-- A small listing of crates/naatre-core, run through the tree encoder and decoder.
use naatre.Prelude.{
  ◌↔◌, ◌++◌, ℕ, ◌≡◌, refl, true, false, [], ◌∷◌, arith, Bytes, IsBytes, ok, codes, replicate,
  bytes_of_test,
}
use naatre.Core.Words.{le_bytes}
use naatre.Core.Utf8.{is_utf8}
use naatre.Core.Cursor.{write_str}
use naatre.Core.Tree.{
  Tree, file, dir, write, write_entry, tag, exec_byte, encode, decode, is_sorted,
}
use naatre.Core.Path.{Unicode}
use naatre.Core.Tree.Validate.{validate}
use naatre.Core.Tree.Accepts.{IsValidTree, tree_validate_iff}
use naatre.Core.Tree.RoundTrip.{
  IsEntry, IsTree, tree_decode-encode, tree_decode_exact, tree_encode-decode,
}

abbrev id_of : ℕ → Bytes
id_of n = replicate 32 n

abbrev listing : Tree
listing = record {
  entries =
      record { name = codes "a"; kind = file; object = id_of 4; size = 3; exec = true }
      ∷ record { name = codes "b"; kind = dir; object = id_of 5; size = 0; exec = false }
      ∷ [];
}

-- The functions that the encoder runs.
runs : ℕ
unfolding encode is_sorted write write_entry tag exec_byte write_str le_bytes is_utf8
runs = 0

abbrev listing_bytes : Bytes
listing_bytes =
    codes "naatre-tree"
    ++ (1
        ∷ 2
        ∷ 0
        ∷ 0
        ∷ 0
        ∷ 1
        ∷ (replicate 7 0
            ++ (b'a'
                ∷ 0
                ∷ (id_of 4
                    ++ (3
                        ∷ (replicate 7 0
                            ++ (1
                                ∷ 1
                                ∷ (replicate 7 0 ++ (b'b' ∷ 1 ∷ (id_of 5 ++ replicate 9 0))))))))))

encode-listing : encode listing ≡ ok listing_bytes
unfolding runs
encode-listing = refl

listing_bytes-IsBytes : IsBytes listing_bytes
listing_bytes-IsBytes = bytes_of_test listing_bytes refl

listing-sorted : is_sorted listing.entries ≡ true
unfolding runs
listing-sorted = refl

a-IsEntry :
    IsEntry (record { name = codes "a"; kind = file; object = id_of 4; size = 3; exec = true })
unfolding runs
a-IsEntry = record {
  name_bytes = omega arith;
  name_utf8 = refl;
  object_length = refl;
  object_bytes = omega arith;
  size_fits = omega arith;
  dir_exec = λ h. cc;
}

b-IsEntry :
    IsEntry (record { name = codes "b"; kind = dir; object = id_of 5; size = 0; exec = false })
unfolding runs
b-IsEntry = record {
  name_bytes = omega arith;
  name_utf8 = refl;
  object_length = refl;
  object_bytes = omega arith;
  size_fits = omega arith;
  dir_exec = λ h. refl;
}

listing-IsTree : IsTree listing
listing-IsTree = (a-IsEntry, (b-IsEntry, tt))

tree_decode-encode_example : decode listing_bytes ≡ ok listing
tree_decode-encode_example = tree_decode-encode listing listing_bytes listing-IsTree encode-listing

tree_decode_exact_example : IsTree listing × (listing_bytes ≡ write listing)
tree_decode_exact_example =
    tree_decode_exact listing_bytes listing listing_bytes-IsBytes tree_decode-encode_example

tree_encode-decode_example : encode listing ≡ ok listing_bytes
tree_encode-decode_example =
    tree_encode-decode listing_bytes listing listing_bytes-IsBytes tree_decode-encode_example
      listing-sorted (omega arith)

-- Unicode tables for text in lower case.
abbrev lower : Unicode
lower = record { nfc = λ s. s; to_lowercase = λ s. s }

tree_validate_iff_example : (validate lower listing ≡ ok tt) ↔ IsValidTree lower listing
tree_validate_iff_example = tree_validate_iff lower listing
