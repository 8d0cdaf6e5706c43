-- ===== src/Core/Ids.antt =====
-- crates/naatre-core/src/ids.rs: object ids, their hex text, and what is hashed.
-- An `Id` is the list of its 32 bytes. `blake3` stands for the crate of that name.
pub mod Hex
pub mod Framing
use naatre.Prelude.{
  ℕ, ◌+◌, ◌-◌, ◌*◌, ◌/◌, ◌%◌, ◌++◌, Bool, true, false, ◌&&◌, Option, none, some, [], ◌∷◌, Bytes,
  codes, length, get_or, leb, ◌==◌, if◌then◌else◌,
}
use naatre.Core.Words.{le_bytes}

pub data Kind : Type 0 where
  blob tree changeset : Kind

unfoldable pub label : Kind → Bytes
label blob = codes "blob"
label tree = codes "tree"
label changeset = codes "changeset"

abbrev pub hex_digits : Bytes
hex_digits = codes "0123456789abcdef"

-- `b >> 4` is `b / 16`, `b & 0x0f` is `b % 16`.
unfoldable pub to_hex : Bytes → Bytes
to_hex [] = []
to_hex (b ∷ id) = get_or hex_digits (b / 16) 0 ∷ get_or hex_digits (b % 16) 0 ∷ to_hex id

unfoldable pub hex_val : ℕ → Option ℕ
hex_val b =
    if leb b'0' b && leb b b'9'
    then some (b - b'0')
    else if leb b'a' b && leb b b'f'
    then some (b - b'a' + 10)
    else none

-- `(high << 4) | low` of two hex digits
unfoldable pub hex_byte : ℕ → ℕ → Option ℕ
hex_byte high low = elim (hex_val high) [
  | none ↦ none
  | some h ↦ elim (hex_val low) [ none ↦ none | some l ↦ some (h * 16 + l) ]
]

-- The loop over the pairs of digits.
unfoldable pub hex_pairs : Bytes → Option Bytes
hex_pairs [] = some []
hex_pairs (a ∷ []) = none
hex_pairs (a ∷ b ∷ s) = elim (hex_byte a b) [
  | none ↦ none
  | some byte ↦ elim (hex_pairs s) [ none ↦ none | some id ↦ some (byte ∷ id) ]
]

unfoldable pub from_hex : Bytes → Option Bytes
from_hex s = if length s == 64 then hex_pairs s else none

unfoldable pub is_hex_id : Bytes → Bool
is_hex_id s = elim (from_hex s) [ some id ↦ true | none ↦ false ]

abbrev pub format_version : Bytes
format_version = codes "v1"

abbrev pub format_version_v2 : Bytes
format_version_v2 = codes "v2"

-- All bytes that the hasher is fed, in order.
unfoldable pub framed : Bytes → Kind → Bytes → Bytes
framed version kind payload =
    codes "naatre"
    ++ (0 ∷ (version ++ (0 ∷ (label kind ++ (0 ∷ (le_bytes 8 (length payload) ++ (0 ∷ payload)))))))

module _ (blake3 : Bytes → Bytes) where
  unfoldable pub object_id_in : Bytes → Kind → Bytes → Bytes
  object_id_in version kind payload = blake3 (framed version kind payload)

  unfoldable pub object_id : Kind → Bytes → Bytes
  object_id = object_id_in format_version

  unfoldable pub object_id_v2 : Kind → Bytes → Bytes
  object_id_v2 = object_id_in format_version_v2
