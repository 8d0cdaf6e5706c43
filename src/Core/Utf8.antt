-- ===== src/Core/Utf8.antt =====
-- `String::from_utf8` and `str::char_indices` of the standard library, as the decoders of
-- crates/naatre-core use them: well-formed UTF-8 as an automaton over bytes.
pub mod Ascii
use naatre.Prelude.{
  ℕ, zero, suc, ◌+◌, ◌*◌, ◌%◌, Bool, true, false, ◌&&◌, Option, none, some, List, [], ◌∷◌, ◌++◌,
  Bytes, leb, ltb, ◌==◌, if◌then◌else◌,
}

-- Between two characters, or inside one: the range of the next byte and how many follow it.
pub data Scan : Type 0 where
  start : Scan
  expect : ℕ → ℕ → ℕ → Scan

abbrev between : ℕ → ℕ → ℕ → Bool
between lo hi b = leb lo b && leb b hi

after : ℕ → Scan
after zero = start
after (suc more) = expect 0x80 0xbf more

unfoldable pub scan_step : Scan → ℕ → Option Scan
unfolding after
scan_step start b =
    if ltb b 0x80
    then some start
    else if between 0xc2 0xdf b
    then some (expect 0x80 0xbf 0)
    else if b == 0xe0
    then some (expect 0xa0 0xbf 1)
    else if b == 0xed
    then some (expect 0x80 0x9f 1)
    else if between 0xe1 0xef b
    then some (expect 0x80 0xbf 1)
    else if b == 0xf0
    then some (expect 0x90 0xbf 2)
    else if between 0xf1 0xf3 b
    then some (expect 0x80 0xbf 2)
    else if b == 0xf4
    then some (expect 0x80 0x8f 2)
    else none
scan_step (expect lo hi more) b = if between lo hi b then some (after more) else none

-- The state after all bytes, if none was refused.
unfoldable pub scan : Scan → Bytes → Option Scan
unfolding scan_step
scan s [] = some s
scan s (b ∷ bs) = elim (scan_step s b) [ none ↦ none | some s' ↦ scan s' bs ]

unfoldable pub is_utf8 : Bytes → Bool
unfolding scan
is_utf8 bs = elim (scan start bs) [ some start ↦ true | _ ↦ false ]

-- What a first byte says of its character: the bits that it holds, and how many bytes follow.
lead : ℕ → ℕ × ℕ
lead b =
    if ltb b 0x80
    then (0, 0)
    else if ltb b 0xe0
    then (b % 32, 1)
    else if ltb b 0xf0
    then (b % 16, 2)
    else (b % 8, 3)

-- `char_indices` on well-formed text: each character with the index of its first byte. `first`,
-- `value` and `more` describe the character under way.
unfoldable pub chars_from : ℕ → ℕ → ℕ → ℕ → Bytes → List (ℕ × ℕ)
unfolding lead
chars_from pos first value more [] = []
chars_from pos first value zero (b ∷ bs) =
    (if ltb b 0x80 then (pos, b) ∷ [] else []) ++ chars_from (pos + 1) pos (lead b).0 (lead b).1 bs
chars_from pos first value (suc zero) (b ∷ bs) =
    (first, value * 64 + b % 64) ∷ chars_from (pos + 1) first 0 0 bs
chars_from pos first value (suc (suc more)) (b ∷ bs) =
    chars_from (pos + 1) first (value * 64 + b % 64) (suc more) bs

unfoldable pub char_indices : Bytes → List (ℕ × ℕ)
unfolding chars_from
char_indices = chars_from 0 0 0 0
