-- ===== src/Core/Path.antt =====
-- crates/naatre-core/src/path.rs: the path grammar. A path is the bytes of its UTF-8 text.
-- `Unicode` stands for what the source takes from the Unicode tables: `nfc` is
-- `UnicodeNormalization::nfc` of the crate unicode_normalization, and `to_lowercase` is that of `str`.
pub mod Grammar
pub mod Folding
use naatre.Prelude.{
  ℕ, ◌+◌, Bool, false, ◌&&◌, ◌||◌, not, Option, none, some, List, [], ◌∷◌, Bytes, Result, ok, err,
  bind, refuse_if, codes, length, is_empty, any, bytes_eq, leb, ltb, ◌==◌, if◌then◌else◌,
}
use naatre.Core.Error.{
  PathError, empty, absolute, backslash, nul_byte, not_normalized, component_slash, control_char,
  component_invalid, component_too_long, empty_component, too_many_components, too_long, reserved,
  case_fold_duplicate,
}
use naatre.Core.Utf8.{char_indices}

pub record Unicode : Type 0 where
  pub nfc : Bytes → Bytes
  pub to_lowercase : Bytes → Bytes

abbrev pub max_component_len : ℕ
max_component_len = 255

abbrev pub max_path_len : ℕ
max_path_len = 4096

abbrev pub max_path_components : ℕ
max_path_components = 256

abbrev pub reserved_prefixes : List Bytes
reserved_prefixes = codes ".naatre" ∷ codes ".git" ∷ []

-- The general category Cc.
unfoldable pub is_cc : ℕ → Bool
is_cc c = ltb c 0x20 || (leb 0x7f c && leb c 0x9f)

-- The general category Cf: ranges, both ends included.
abbrev pub cf_ranges : List (ℕ × ℕ)
cf_ranges =
    (0x00ad, 0x00ad)
    ∷ (0x0600, 0x0605)
    ∷ (0x061c, 0x061c)
    ∷ (0x06dd, 0x06dd)
    ∷ (0x070f, 0x070f)
    ∷ (0x0890, 0x0891)
    ∷ (0x08e2, 0x08e2)
    ∷ (0x180e, 0x180e)
    ∷ (0x200b, 0x200f)
    ∷ (0x202a, 0x202e)
    ∷ (0x2060, 0x2064)
    ∷ (0x2066, 0x206f)
    ∷ (0xfeff, 0xfeff)
    ∷ (0xfff9, 0xfffb)
    ∷ (0x110bd, 0x110bd)
    ∷ (0x110cd, 0x110cd)
    ∷ (0x13430, 0x1343f)
    ∷ (0x1bca0, 0x1bca3)
    ∷ (0x1d173, 0x1d17a)
    ∷ (0xe0001, 0xe0001)
    ∷ (0xe0020, 0xe007f)
    ∷ []

unfoldable pub is_cf : ℕ → Bool
is_cf c = any (λ r. leb r.0 c && leb c r.1) cf_ranges

unfoldable pub is_control : ℕ → Bool
is_control c = is_cc c || is_cf c

-- The index of the first character with a property.
unfoldable pub find_char : (ℕ → Bool) → List (ℕ × ℕ) → Option ℕ
find_char p [] = none
find_char p ((index, c) ∷ cs) = if p c then some index else find_char p cs

unfoldable pub contains : Bytes → ℕ → Bool
contains s b = any (λ c. c == b) s

unfoldable pub starts_with : Bytes → ℕ → Bool
starts_with [] b = false
starts_with (c ∷ s) b = c == b

unfoldable pub push_front : ℕ → List Bytes → List Bytes
push_front b [] = (b ∷ []) ∷ []
push_front b (s ∷ ss) = (b ∷ s) ∷ ss

-- `s.split(b)`
unfoldable pub split : Bytes → ℕ → List Bytes
unfolding push_front
split [] b = [] ∷ []
split (c ∷ s) b = let rest = split s b in if c == b then [] ∷ rest else push_front c rest

abbrev pub slash : ℕ
slash = b'/'

unfoldable pub is_dots : Bytes → Bool
is_dots s = bytes_eq s (codes ".") || bytes_eq s (codes "..")

-- The loop over the components, from `index` on.
unfoldable pub check_components : ℕ → List Bytes → Result PathError (Unit {0})
check_components index [] = ok tt
check_components index (s ∷ ss) = bind (refuse_if (is_dots s) (component_invalid index)) λ _.
    bind (refuse_if (ltb max_component_len (length s)) (component_too_long index (length s))) λ _.
      bind (refuse_if (is_empty s) (empty_component index)) λ _. check_components (index + 1) ss

unfoldable pub check_control : Bytes → Result PathError (Unit {0})
check_control s = elim (find_char is_control (char_indices s)) [
  | some index ↦ err (control_char index)
  | none ↦ ok tt
]

-- The reserved name that `first` is, if it is one.
unfoldable pub find_reserved : Bytes → List Bytes → Option Bytes
find_reserved first [] = none
find_reserved first (r ∷ rs) = if bytes_eq r first then some r else find_reserved first rs

unfoldable pub check_reserved : List Bytes → Result PathError (Unit {0})
check_reserved [] = ok tt
check_reserved (first ∷ _) = elim (find_reserved first reserved_prefixes) [
  | some r ↦ err (reserved r)
  | none ↦ ok tt
]

-- `path.rsplit_once(b)`
unfoldable pub rsplit_once : Bytes → ℕ → Option (Bytes × Bytes)
rsplit_once [] b = none
rsplit_once (c ∷ s) b = elim (rsplit_once s b) [
  | some (d, n) ↦ some (c ∷ d, n)
  | none ↦ if c == b then some ([], s) else none
]

module _ (u : Unicode) where
  unfoldable pub validate : Bytes → Result PathError (Unit {0})
  validate path = bind (refuse_if (is_empty path) empty) λ _.
      bind (refuse_if (starts_with path slash) absolute) λ _.
        bind (refuse_if (contains path b'\\') backslash) λ _.
          bind (refuse_if (contains path 0) nul_byte) λ _. bind (check_control path) λ _.
            bind (refuse_if (not (bytes_eq (u.nfc path) path)) not_normalized) λ _.
              bind (check_components 0 (split path slash)) λ _.
                bind
                  (refuse_if (ltb max_path_components (length (split path slash)))
                    (too_many_components (length (split path slash))))
                  λ _.
                    bind (refuse_if (ltb max_path_len (length path)) (too_long (length path)))
                      λ _. check_reserved (split path slash)

  unfoldable pub validate_component : Bytes → Result PathError (Unit {0})
  validate_component name = bind (refuse_if (is_empty name) empty) λ _.
      bind (refuse_if (contains name slash) component_slash) λ _.
        bind (refuse_if (contains name b'\\') backslash) λ _.
          bind (refuse_if (contains name 0) nul_byte) λ _. bind (check_control name) λ _.
            bind (refuse_if (not (bytes_eq (u.nfc name) name)) not_normalized) λ _.
              bind (refuse_if (is_dots name) (component_invalid 0)) λ _.
                refuse_if (ltb max_component_len (length name)) (component_too_long 0 (length name))

  -- The directory of a path and the lower case of its last name.
  unfoldable pub fold_key : Bytes → Bytes × Bytes
  fold_key path = elim (rsplit_once path slash) [
    | some (d, n) ↦ (d, u.to_lowercase n)
    | none ↦ ([], u.to_lowercase path)
  ]

  abbrev key_eq : Bytes × Bytes → Bytes × Bytes → Bool
  key_eq a b = bytes_eq a.0 b.0 && bytes_eq a.1 b.1

  -- The path that `seen` maps a key to.
  unfoldable pub find_seen : Bytes × Bytes → List Bytes → Option Bytes
  find_seen key [] = none
  find_seen key (p ∷ seen) = if key_eq (fold_key p) key then some p else find_seen key seen

  -- The loop over the paths. `seen` holds those before; no key is in it twice.
  unfoldable pub check_case_fold : List Bytes → List Bytes → Result PathError (Unit {0})
  check_case_fold seen [] = ok tt
  check_case_fold seen (p ∷ ps) =
      let rest = check_case_fold (p ∷ seen) ps in
      elim (find_seen (fold_key p) seen) [
        | some prev ↦ err (case_fold_duplicate prev p)
        | none ↦ rest
      ]

  unfoldable pub check_case_fold_duplicates : List Bytes → Result PathError (Unit {0})
  check_case_fold_duplicates = check_case_fold []
