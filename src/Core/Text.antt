-- ===== src/Core/Text.antt =====
-- What crates/naatre-core and crates/naatre-server use of `str` and `[u8]` of the standard library,
-- on the bytes of a text.
use naatre.Prelude.{
  ℕ, zero, suc, ◌+◌, ◌-◌, ◌*◌, ◌/◌, ◌%◌, Bool, ◌&&◌, Option, none, some, List, [], ◌∷◌, map, Bytes,
  length, take, drop, bytes_eq, leb, ltb, ◌==◌, if◌then◌else◌,
}

-- `strip_prefix`
unfoldable pub strip_prefix : Bytes → Bytes → Option Bytes
strip_prefix path [] = some path
strip_prefix [] (d ∷ prefix) = none
strip_prefix (c ∷ path) (d ∷ prefix) =
    let rest = strip_prefix path prefix in if c == d then rest else none

-- `strip_suffix`
unfoldable pub strip_suffix : Bytes → Bytes → Option Bytes
strip_suffix s suffix =
    let n = length s - length suffix in
    if leb (length suffix) (length s) && bytes_eq (drop n s) suffix then some (take n s) else none

-- `split_once`: at the first occurrence.
unfoldable pub split_once : Bytes → Bytes → Option (Bytes × Bytes)
split_once pattern [] = elim (strip_prefix [] pattern) [ none ↦ none | some rest ↦ some ([], rest) ]
split_once pattern (c ∷ s) = elim (strip_prefix (c ∷ s) pattern) [
  | some rest ↦ some ([], rest)
  | none ↦ elim (split_once pattern s) [ none ↦ none | some (a, b) ↦ some (c ∷ a, b) ]
]

-- `split_inclusive('\n')`
unfoldable pub onto_first : ℕ → List Bytes → List Bytes
onto_first c [] = (c ∷ []) ∷ []
onto_first c (l ∷ ls) = (c ∷ l) ∷ ls

unfoldable pub split_inclusive : Bytes → List Bytes
split_inclusive [] = []
split_inclusive (c ∷ s) =
    let rest = split_inclusive s in if c == 10 then (10 ∷ []) ∷ rest else onto_first c rest

-- A line without its `\n`, and without the `\r` before it.
unfoldable pub strip_line : Bytes → Bytes
strip_line l = elim (strip_suffix l (10 ∷ [])) [
  | none ↦ l
  | some line ↦ elim (strip_suffix line (13 ∷ [])) [ none ↦ line | some text ↦ text ]
]

-- `str::lines`
unfoldable pub lines : Bytes → List Bytes
lines s = map strip_line (split_inclusive s)

-- The decimal digits of a number, before `rest`. `Display` of `usize`.
unfoldable pub decimal_from : ℕ → ℕ → Bytes → Bytes
decimal_from zero n rest = rest
decimal_from (suc fuel) n rest =
    let more = decimal_from fuel (n / 10) ((b'0' + n % 10) ∷ rest) in
    if ltb n 10 then (b'0' + n) ∷ rest else more

unfoldable pub decimal : ℕ → Bytes
decimal n = decimal_from (n + 1) n []

-- `u8::is_ascii_digit`
abbrev pub is_digit : ℕ → Bool
is_digit c = leb b'0' c && leb c b'9'

-- `str::parse::<usize>` of digits, which six of them do not overflow.
unfoldable pub parse_digits : ℕ → Bytes → ℕ
parse_digits n [] = n
parse_digits n (c ∷ s) = parse_digits (n * 10 + (c - b'0')) s
