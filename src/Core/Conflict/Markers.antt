-- ===== src/Core/Conflict/Markers.antt =====
-- crates/naatre-core/src/conflict.rs: `marker_bytes` and the detectors `marker_shaped` and
-- `marker_opener`.
pub mod Prefix
use naatre.Prelude.{
  ℕ, ◌+◌, Bool, true, false, ◌&&◌, ◌||◌, not, Option, none, some, List, [], ◌∷◌, ◌++◌, Bytes,
  Result, ok, err, bind, codes, length, take, is_empty, all, bytes_eq, leb, ltb, ◌==◌,
  if◌then◌else◌,
}
use naatre.Core.Ids.{to_hex}
use naatre.Core.Utf8.{is_utf8}
use naatre.Core.Text.{
  strip_prefix, strip_suffix, split_once, split_inclusive, strip_line, lines, decimal, is_digit,
  parse_digits,
}
use naatre.Core.Conflict.{ConflictRep, max_entries}

abbrev pub exec_token : Bytes
exec_token = codes " +x"

abbrev pub marker_prefix_bytes : ℕ
marker_prefix_bytes = 128

-- `content.ends_with(b"\n")`
unfoldable pub ends_line : Bytes → Bool
ends_line [] = false
ends_line (c ∷ []) = c == 10
ends_line (c ∷ d ∷ s) = ends_line (d ∷ s)

-- What `push_block` pushes.
unfoldable pub push_block : Bytes → Bytes
push_block content =
    if not (is_empty content) && not (ends_line content) then content ++ (10 ∷ []) else content

abbrev pub token : Bool → Bytes
token exec = if exec then exec_token else []

unfoldable pub opener_line : ℕ → Bytes → Bool → Bytes
opener_line n id exec =
    codes "<<<<<<< naatre side 1/"
    ++ (decimal n ++ (codes ": " ++ (to_hex id ++ (token exec ++ (10 ∷ [])))))

unfoldable pub base_line : Bytes → Bool → Bytes
base_line id exec = codes "||||||| naatre base: " ++ (to_hex id ++ (token exec ++ (10 ∷ [])))

unfoldable pub side_line : ℕ → ℕ → Bytes → Bool → Bytes
side_line k n id exec =
    codes "======= naatre side "
    ++ (decimal k
        ++ (b'/' ∷ (decimal n ++ (codes ": " ++ (to_hex id ++ (token exec ++ (10 ∷ [])))))))

unfoldable pub deleted_line : ℕ → Bytes
deleted_line n =
    codes "======= naatre side "
    ++ (decimal n ++ (b'/' ∷ (decimal n ++ (codes ": deleted" ++ (10 ∷ [])))))

unfoldable pub closer_line : Bytes → Bytes
closer_line path = codes ">>>>>>> naatre conflict: " ++ (path ++ (10 ∷ []))

-- `sides_exec.get(i).copied().unwrap_or(false)` for the sides from the first of `execs` on.
abbrev pub head_exec : List Bool → Bool
head_exec [] = false
head_exec (e ∷ es) = e

abbrev pub tail_exec : List Bool → List Bool
tail_exec [] = []
tail_exec (e ∷ es) = es

-- `fetch` gives the content of a blob, or fails. The order of the calls is that of the source; a
-- failure ends them.
module _ {E : Type 0} (fetch : Bytes → Result E Bytes) where
  unfoldable pub base_section : Option Bytes → Bool → Result E Bytes
  base_section none exec = ok []
  base_section (some base) exec =
      bind (fetch base) λ content. ok (base_line base exec ++ push_block content)

  -- The sides from side `i + 1` of `n` on.
  unfoldable pub side_sections : ConflictRep → ℕ → ℕ → List Bytes → List Bool → Result E Bytes
  side_sections rep n i [] es = ok []
  side_sections rep n i (side ∷ sides) es =
      bind (if i == 1 then base_section rep.base rep.base_exec else ok []) λ base.
        bind (fetch side) λ content. bind (side_sections rep n (i + 1) sides (tail_exec es)) λ rest.
          ok (
            base
            ++ ((if i == 0
                  then opener_line n side (head_exec es)
                  else side_line (i + 1) n side (head_exec es))
                ++ (push_block content ++ rest)))

  unfoldable pub deleted_section : ConflictRep → ℕ → Result E Bytes
  deleted_section rep n =
      if rep.deleted
      then (bind (if length rep.sides == 1 then base_section rep.base rep.base_exec else ok [])
          λ base. ok (base ++ deleted_line n))
      else ok []

  abbrev pub side_count : ConflictRep → ℕ
  side_count rep = length rep.sides + (if rep.deleted then 1 else 0)

  unfoldable pub marker_bytes : ConflictRep → Result E Bytes
  marker_bytes rep = bind (side_sections rep (side_count rep) 0 rep.sides rep.sides_exec) λ sides.
      bind (deleted_section rep (side_count rep))
        λ deleted. ok (sides ++ (deleted ++ closer_line rep.path))

unfoldable pub parse_canonical_decimal : Bytes → Option ℕ
parse_canonical_decimal s =
    if is_empty s || (ltb 6 (length s) || not (all is_digit s))
    then none
    else if ltb 1 (length s) && bytes_eq (take 1 s) (codes "0")
    then none
    else some (parse_digits 0 s)

-- `is_ascii_hexdigit() && !is_ascii_uppercase()`
abbrev pub is_lower_hex : ℕ → Bool
is_lower_hex c = is_digit c || (leb b'a' c && leb c b'f')

unfoldable pub is_blob_hex : Bytes → Bool
is_blob_hex id = length id == 64 && all is_lower_hex id

unfoldable pub is_side_ref : Bytes → Bool
is_side_ref field = elim (strip_suffix field exec_token) [
  | none ↦ is_blob_hex field
  | some id ↦ is_blob_hex id
]

abbrev in_range : ℕ → Bytes → Option (ℕ × Bytes)
in_range n id = if leb 2 n && leb n max_entries then some (n, id) else none

-- The rest of `parse_opener`, after the fixed prefix.
unfoldable pub parse_opener_rest : Bytes → Option (ℕ × Bytes)
parse_opener_rest rest = elim (split_once (codes ": ") rest) [
  | none ↦ none
  | some (count, id) ↦ elim (parse_canonical_decimal count) [ none ↦ none | some n ↦ in_range n id ]
]

unfoldable pub parse_opener : Bytes → Option (ℕ × Bytes)
parse_opener line = elim (strip_prefix line (codes "<<<<<<< naatre side 1/")) [
  | none ↦ none
  | some rest ↦ parse_opener_rest rest
]

unfoldable pub parse_counts : Bytes → Bytes → Option (ℕ × ℕ × Bytes)
parse_counts kn id = elim (split_once (b'/' ∷ []) kn) [
  | none ↦ none
  | some (k, n) ↦ elim (parse_canonical_decimal k) [
    | none ↦ none
    | some k' ↦ elim (parse_canonical_decimal n) [ none ↦ none | some n' ↦ some (k', n', id) ]
  ]
]

unfoldable pub parse_side_divider : Bytes → Option (ℕ × ℕ × Bytes)
parse_side_divider line = elim (strip_prefix line (codes "======= naatre side ")) [
  | none ↦ none
  | some rest ↦ elim (split_once (codes ": ") rest) [
    | none ↦ none
    | some (kn, id) ↦ parse_counts kn id
  ]
]

-- The variables of the loop of `marker_shaped`.
pub record Seen : Type 0 where
  pub expected_side : ℕ
  pub base_line_seen : Bool
  pub deleted_seen : Bool

-- A line of the loop: `none` is `return false`.
unfoldable pub divider_step : ℕ → Seen → ℕ → ℕ → Bytes → Option Seen
divider_step n s k n_line id =
    if not (k == s.expected_side) || not (n_line == n)
    then none
    else if bytes_eq id (codes "deleted")
    then if k == n
      then some (record s { expected_side = s.expected_side + 1; deleted_seen = true })
      else none
    else if is_side_ref id
    then some (record s { expected_side = s.expected_side + 1 })
    else none

unfoldable pub base_step : Seen → Bytes → Option Seen
base_step s id =
    if s.base_line_seen || (not (s.expected_side == 2) || not (is_side_ref id))
    then none
    else some (record s { base_line_seen = true })

unfoldable pub line_step : ℕ → Seen → Bytes → Option Seen
line_step n s line = if s.deleted_seen then none else elim (parse_side_divider line) [
  | some (k, n_line, id) ↦ divider_step n s k n_line id
  | none ↦ elim (strip_prefix line (codes "||||||| naatre base: ")) [
    | some id ↦ base_step s id
    | none ↦ some s
  ]
]

unfoldable pub lines_loop : ℕ → Seen → List Bytes → Bool
lines_loop n s [] = s.expected_side == n + 1
lines_loop n s (line ∷ rest) = elim (line_step n s line) [
  | none ↦ false
  | some s' ↦ lines_loop n s' rest
]

-- `middle.pop()`: the last line, and those before it.
unfoldable pub pop : List Bytes → Option (List Bytes × Bytes)
pop [] = none
pop (l ∷ ls) = elim (pop ls) [ none ↦ some ([], l) | some (before, last) ↦ some (l ∷ before, last) ]

unfoldable pub is_closer : Bytes → Bool
is_closer last = elim (strip_prefix last (codes ">>>>>>> naatre conflict: ")) [
  | none ↦ false
  | some path ↦ not (is_empty path)
]

unfoldable pub shaped_rest : ℕ → List Bytes → Bool
shaped_rest n rest = elim (pop rest) [
  | none ↦ false
  | some (middle, last) ↦
      is_closer last
      && lines_loop n (record { expected_side = 2; base_line_seen = false; deleted_seen = false })
          middle
]

-- The lines, from the opener on.
unfoldable pub shaped_lines : List Bytes → Bool
shaped_lines [] = false
shaped_lines (first ∷ rest) = elim (parse_opener first) [
  | none ↦ false
  | some (n, id) ↦ is_side_ref id && shaped_rest n rest
]

unfoldable pub marker_shaped : Bytes → Bool
marker_shaped bytes = is_utf8 bytes && shaped_lines (lines bytes)

abbrev pub cons_to : ℕ → Option Bytes → Option Bytes
cons_to c none = none
cons_to c (some l) = some (c ∷ l)

-- The bytes before the first `\n`, if there is one.
unfoldable pub first_line : Bytes → Option Bytes
first_line [] = none
first_line (c ∷ s) = let rest = cons_to c (first_line s) in if c == 10 then some [] else rest

unfoldable pub is_opener : Bytes → Bool
is_opener line = elim (parse_opener line) [ none ↦ false | some (n, id) ↦ is_side_ref id ]

-- The screen, on a line without its `\n`.
unfoldable pub opener_screen : Bytes → Bool
opener_screen line = elim (strip_suffix line (13 ∷ [])) [
  | none ↦ is_utf8 line && is_opener line
  | some text ↦ is_utf8 text && is_opener text
]

unfoldable pub marker_opener : Bytes → Bool
marker_opener prefix = elim (first_line prefix) [ none ↦ false | some line ↦ opener_screen line ]
