-- ===== src/Core/Examples.antt =====
-- Small objects of crates/naatre-core, run through the encoders and decoders.
use naatre.Prelude.{
  length, ◌↔◌, bytes_of_test, IsBytes, ◌++◌, ℕ, ◌+◌, ◌<◌, ◌≤◌, ◌≡◌, refl, true, false, none, some,
  [], ◌∷◌, arith, Bytes, ok, codes, replicate, leb, ◌&&◌, if◌then◌else◌, map,
}
use naatre.Core.Words.{le_bytes}
use naatre.Core.Utf8.{is_utf8, char_indices}
use naatre.Core.Cursor.{write_str}
use naatre.Core.Path
use naatre.Core.Path.{Unicode}
use naatre.Core.Conflict
use naatre.Core.Conflict.Valid
use naatre.Core.Conflict.{ConflictRep}
use naatre.Core.Changeset
use naatre.Core.Changeset.{Changeset, FileChange, add, del}
use naatre.Core.Changeset.Decode
use naatre.Core.Changeset.Typing.{IsId, IsChangeset}
use naatre.Core.Changeset.RoundTrip
use naatre.Core.Changeset.Validate
use naatre.Core.Changeset.Accepts
use naatre.Core.Changeset.Exact.Whole

-- Unicode tables for ASCII text.
abbrev ascii : Unicode
ascii = record {
  nfc = λ s. s;
  to_lowercase = map (λ c. if leb b'A' c && leb c b'Z' then c + 32 else c);
}

abbrev id_of : ℕ → Bytes
id_of n = replicate 32 n

abbrev conflict : ConflictRep
conflict = record {
  path = codes "a/b";
  base = some (id_of 1);
  base_exec = false;
  sides = id_of 2 ∷ id_of 3 ∷ [];
  sides_exec = true ∷ false ∷ [];
  deleted = false;
}

abbrev sample : Changeset
sample = record {
  repo_id = 7;
  parents = id_of 9 ∷ [];
  author = codes "A";
  message = codes "m";
  timestamp_ns = 1;
  changes =
      record { path = codes "a"; op = add; blob = some (id_of 4); size = some 3; exec = some true }
      ∷ record { path = codes "b"; op = del; blob = none; size = none; exec = none }
      ∷ [];
  conflicts = conflict ∷ [];
}

-- The functions that the encoder runs.
runs : ℕ
unfolding Changeset.encode Changeset.write Changeset.encode_changes Changeset.encode_change
    Changeset.encode_payload Changeset.encode_content Changeset.is_del Changeset.is_sorted
    Changeset.write_header Changeset.write_conflicts Changeset.write_conflict write_str le_bytes
    Changeset.tag Changeset.flags_of Changeset.write_base Changeset.write_side Conflict.has_exec
    Conflict.keys Conflict.zip Changeset.is_none Conflict.validate Conflict.is_sorted
    Conflict.validate_reps Conflict.validate_rep Conflict.bad_sides Conflict.exec_without_base
    Conflict.base_among_sides Conflict.side_lt Conflict.side_eq Conflict.bool_eq Path.validate
    Path.starts_with Path.contains Path.check_control Path.find_char Path.is_control Path.is_cc
    Path.is_cf Path.check_components Path.is_dots Path.split Path.check_reserved Path.find_reserved
    char_indices Path.validate_component Path.check_case_fold_duplicates Path.check_case_fold
    Path.find_seen Path.fold_key Path.rsplit_once is_utf8
runs = 0

abbrev zeros : Bytes
zeros = replicate 7 0

abbrev sample_bytes : Bytes
sample_bytes =
    codes "naatre-changeset"
    ++ (2
        ∷ 7
        ∷ (zeros
            ++ (1
                ∷ (id_of 9
                    ++ (1
                        ∷ (zeros
                            ++ (b'A'
                                ∷ 1
                                ∷ (zeros
                                    ++ (b'm'
                                        ∷ 1
                                        ∷ (zeros
                                            ++ (2
                                                ∷ 0
                                                ∷ 0
                                                ∷ 0
                                                ∷ (entry_bytes ++ conflict_bytes))))))))))))
  where
    entry_bytes : Bytes
    entry_bytes =
        1
        ∷ (zeros ++ (b'a' ∷ 0 ∷ (id_of 4 ++ (3 ∷ (zeros ++ (1 ∷ 1 ∷ (zeros ++ (b'b' ∷ 2 ∷ []))))))))

    conflict_bytes : Bytes
    conflict_bytes =
        1
        ∷ 0
        ∷ 0
        ∷ 0
        ∷ 3
        ∷ (zeros
            ++ (codes "a/b"
                ++ (5
                    ∷ (id_of 1 ++ (0 ∷ 2 ∷ 0 ∷ 0 ∷ 0 ∷ (id_of 2 ++ (1 ∷ (id_of 3 ++ (0 ∷ [])))))))))

encode-sample : Changeset.encode ascii sample ≡ ok sample_bytes
unfolding runs
encode-sample = refl

id_of-IsId : (n : ℕ) → n < 256 → IsId (id_of n)
id_of-IsId n h = record { size = refl; bytes = omega arith }

sample-IsChangeset : IsChangeset sample
unfolding runs
sample-IsChangeset = record {
  repo_id = omega arith;
  parents = (id_of-IsId 9 (omega arith), tt);
  author = record { bytes = omega arith; valid = refl };
  message = record { bytes = omega arith; valid = refl };
  timestamp_ns = omega arith;
  changes = (
    record {
      path = record { bytes = omega arith; valid = refl };
      blob = id_of-IsId 4 (omega arith);
      size = omega arith;
    },
    (record { path = record { bytes = omega arith; valid = refl }; blob = tt; size = tt }, tt),
  );
  conflicts = (
    record {
      path = record { bytes = omega arith; valid = refl };
      base = id_of-IsId 1 (omega arith);
      sides = (id_of-IsId 2 (omega arith), (id_of-IsId 3 (omega arith), tt));
    },
    tt,
  );
}

decode-encode_example : Changeset.Decode.decode sample_bytes ≡ ok sample
decode-encode_example =
    Changeset.RoundTrip.decode-encode ascii sample sample_bytes sample-IsChangeset encode-sample

sample_bytes-IsBytes : IsBytes sample_bytes
sample_bytes-IsBytes = bytes_of_test sample_bytes refl

sample-sorted : Changeset.is_sorted sample.changes ≡ true
unfolding runs
sample-sorted = refl

sample-validate : Conflict.validate ascii sample.conflicts ≡ ok tt
unfolding runs
sample-validate = refl

decode_exact_example : IsChangeset sample × (1 ≤ 2) × (Changeset.write sample ≡ ok sample_bytes)
decode_exact_example =
    Changeset.Exact.Whole.decode_exact sample_bytes sample sample_bytes-IsBytes
      decode-encode_example

encode-decode_example : Changeset.encode ascii sample ≡ ok sample_bytes
encode-decode_example =
    Changeset.Exact.Whole.encode-decode ascii sample_bytes sample sample_bytes-IsBytes
      decode-encode_example sample-sorted sample-validate (omega arith)

changeset_validate_iff_example :
    (Validate.validate ascii sample ≡ ok tt) ↔ Accepts.IsValid ascii sample
changeset_validate_iff_example = Accepts.changeset_validate_iff ascii sample

abbrev again : ConflictRep
again = record {
  path = codes "a/b";
  base = none;
  base_exec = false;
  sides = id_of 5 ∷ [];
  sides_exec = false ∷ [];
  deleted = true;
}

again-validate : Conflict.validate ascii (again ∷ []) ≡ ok tt
unfolding runs
again-validate = refl

carried_length : length (Conflict.carry (conflict ∷ []) (again ∷ [])) ≤ 100_000
unfolding Conflict.carry Conflict.insert_all Conflict.insert
carried_length = omega arith

validate-carry_example :
    Conflict.validate ascii (Conflict.carry (conflict ∷ []) (again ∷ [])) ≡ ok tt
validate-carry_example =
    Valid.validate-carry ascii (conflict ∷ []) (again ∷ []) sample-validate again-validate
      carried_length
