-- ===== src/Core/PathExamples.antt =====
-- Paths, ids and conflicts of crates/naatre-core, run through their checks.
use naatre.Prelude.{
  ◌+◌, ◌≡◌, refl, true, false, none, some, [], ◌∷◌, Bytes, IsBytes, ok, codes, replicate, leb, ◌&&◌,
  if◌then◌else◌, map, length, ◌↔◌, List, bytes_of_test,
}
use naatre.Core.Ids.{blob, to_hex, from_hex, format_version}
use naatre.Core.Ids.Hex.{from_hex-to_hex, to_hex-from_hex}
use naatre.Core.Ids.Framing.{framed_injective}
use naatre.Core.Path.{Unicode, validate, check_case_fold_duplicates}
use naatre.Core.Path.Grammar.{IsPath, validate_iff}
use naatre.Core.Path.Folding.{HasDistinctKeys, check_case_fold_duplicates_iff}
use naatre.Core.Conflict.{ConflictRep, carry, is_sorted}
use naatre.Core.Conflict.Carry.{lookup, last_at, lookup-carry, is_sorted-carry}

-- Unicode tables for ASCII text.
abbrev ascii : Unicode
ascii = record {
  nfc = λ s. s;
  to_lowercase = map (λ c. if leb b'A' c && leb c b'Z' then c + 32 else c);
}

abbrev paths : List Bytes
paths = codes "src/Main.rs" ∷ codes "src/lib.rs" ∷ codes "lib.rs" ∷ []

validate_iff_example :
    (validate ascii (codes "src/Main.rs") ≡ ok tt) ↔ IsPath ascii (codes "src/Main.rs")
validate_iff_example = validate_iff ascii (codes "src/Main.rs")

check_case_fold_duplicates_example :
    (check_case_fold_duplicates ascii paths ≡ ok tt) ↔ HasDistinctKeys ascii paths
check_case_fold_duplicates_example = check_case_fold_duplicates_iff ascii paths

abbrev id : Bytes
id = replicate 32 0xa7

from_hex-to_hex_example : from_hex (to_hex id) ≡ some id
from_hex-to_hex_example = from_hex-to_hex id (bytes_of_test id refl) refl

to_hex-from_hex_example : (to_hex id ≡ to_hex id) × IsBytes id × (length id ≡ 32)
to_hex-from_hex_example = to_hex-from_hex (to_hex id) id from_hex-to_hex_example

framed_injective_example : (format_version ≡ format_version) × (blob ≡ blob) × (id ≡ id)
framed_injective_example = framed_injective format_version format_version blob blob id id refl refl

abbrev conflict : Bytes → Bytes → ConflictRep
conflict path side = record {
  path = path;
  base = none;
  base_exec = false;
  sides = side ∷ id ∷ [];
  sides_exec = true ∷ false ∷ [];
  deleted = false;
}

abbrev old : List ConflictRep
old = conflict (codes "b") id ∷ conflict (codes "a") id ∷ []

abbrev fresh : List ConflictRep
fresh = conflict (codes "b") (replicate 32 1) ∷ []

lookup-carry_example :
    lookup (codes "b") (carry old fresh) ≡ last_at (codes "b") (last_at (codes "b") none old) fresh
lookup-carry_example = lookup-carry (codes "b") old fresh

is_sorted-carry_example : is_sorted (carry old fresh) ≡ true
is_sorted-carry_example = is_sorted-carry old fresh
