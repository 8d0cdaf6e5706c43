-- ===== src/Core/Path/Grammar.antt =====
-- crates/naatre-core/src/path.rs: which paths and which component names are valid.
use naatre.Prelude.{
  ℕ, ◌+◌, ◌≤◌, ◌≡◌, refl, sym, ap, arith, true, false, not, none, some, List, [], ◌∷◌, Bytes, ok,
  bind-eq-ok, refuse_if, refuse_if-eq-ok, length, is_empty, subst, bytes_eq, bytes_eq→eq,
  bytes_eq_refl, ltb, le→ltb, ltb-false→le, ◌↔◌, ◌≢◌, Bool-cases, All, Option-cases, inl, inr,
}
use naatre.Core.Error.{
  empty, absolute, backslash, nul_byte, not_normalized, component_invalid, component_too_long,
  empty_component, component_slash,
}
use naatre.Core.Utf8.{char_indices}
use naatre.Core.Path.{
  Unicode, find_char, is_control, check_control, contains, starts_with, split, slash, is_dots,
  check_components, check_reserved, find_reserved, reserved_prefixes, max_component_len,
  max_path_len, max_path_components, validate, validate_component,
}

-- A component that the grammar allows.
pub record IsComponent (s : Bytes) : Type 0 where
  pub plain : is_dots s ≡ false
  pub short : length s ≤ max_component_len
  pub some_bytes : is_empty s ≡ false

-- No character of a text has one of the control categories.
abbrev pub HasNoControl : Bytes → Type 0
HasNoControl s = find_char is_control (char_indices s) ≡ none

-- The first component is not a reserved name.
abbrev pub IsFree : List Bytes → Type 0
IsFree [] = Unit
IsFree (first ∷ rest) = All (λ r. r ≢ first) reserved_prefixes

-- The path grammar, a condition at a time.
pub record IsPath (u : Unicode) (path : Bytes) : Type 0 where
  pub some_bytes : is_empty path ≡ false
  pub relative : starts_with path slash ≡ false
  pub no_backslash : contains path b'\\' ≡ false
  pub no_nul : contains path 0 ≡ false
  pub no_control : HasNoControl path
  pub normal : u.nfc path ≡ path
  pub components : All IsComponent (split path slash)
  pub few : length (split path slash) ≤ max_path_components
  pub short : length path ≤ max_path_len
  pub free : IsFree (split path slash)

check_components→All :
    (index : ℕ) (ss : List Bytes) → check_components index ss ≡ ok tt → All IsComponent ss
unfolding check_components
check_components→All index [] h = tt
check_components→All index (s ∷ ss) h =
    let (_, plain, h₁) = bind-eq-ok (refuse_if (is_dots s) (component_invalid index)) _ h in
    let (_, short, h₂) =
      bind-eq-ok
        (refuse_if (ltb max_component_len (length s)) (component_too_long index (length s))) _ h₁ in
    let (_, some_bytes, h₃) = bind-eq-ok (refuse_if (is_empty s) (empty_component index)) _ h₂ in
    (
      record {
        plain = refuse_if-eq-ok _ _ plain;
        short = ltb-false→le _ _ (refuse_if-eq-ok _ _ short);
        some_bytes = refuse_if-eq-ok _ _ some_bytes;
      },
      check_components→All (index + 1) ss h₃,
    )

All→check_components :
    (index : ℕ) (ss : List Bytes) → All IsComponent ss → check_components index ss ≡ ok tt
unfolding check_components
All→check_components index [] h = refl
All→check_components index (s ∷ ss) (c, cs) =
    rw (c.plain, le→ltb max_component_len (length s) c.short, c.some_bytes)
      (All→check_components (index + 1) ss cs)

check_control_iff : (s : Bytes) → (check_control s ≡ ok tt) ↔ HasNoControl s
unfolding check_control
check_control_iff s = elim (Option-cases (find_char is_control (char_indices s))) [
  | inl clear ↦ (λ h. clear, λ h. cc)
  | inr (index, found) ↦ (λ h. absurd cc, λ h. absurd cc)
]

find_reserved→All :
    (first : Bytes) (rs : List Bytes) → find_reserved first rs ≡ none → All (λ r. r ≢ first) rs
unfolding find_reserved
find_reserved→All first [] h = tt
find_reserved→All first (r ∷ rs) h = elim (Bool-cases (bytes_eq r first)) [
  | inl same ↦ absurd cc
  | inr other ↦ (λ e. absurd (false_of r first other e), find_reserved→All first rs cc)
]
  where
    false_of : (a b : Bytes) → bytes_eq a b ≡ false → a ≢ b
    false_of a b h e = absurd (cc (h, ap (λ x. bytes_eq x b) e, bytes_eq_refl b))

All→find_reserved :
    (first : Bytes) (rs : List Bytes) → All (λ r. r ≢ first) rs → find_reserved first rs ≡ none
unfolding find_reserved
All→find_reserved first [] h = refl
All→find_reserved first (r ∷ rs) (other, h) = elim (Bool-cases (bytes_eq r first)) [
  | inl same ↦ absurd (other (bytes_eq→eq r first same))
  | inr differs ↦ rw differs (All→find_reserved first rs h)
]

check_reserved_iff : (ss : List Bytes) → (check_reserved ss ≡ ok tt) ↔ IsFree ss
unfolding check_reserved
check_reserved_iff [] = (λ h. tt, λ h. refl)
check_reserved_iff (s ∷ ss) = elim (Option-cases (find_reserved s reserved_prefixes)) [
  | inl clear ↦ (λ h. find_reserved→All s reserved_prefixes clear, λ h. cc)
  | inr (r, found) ↦ (λ h. absurd cc, λ h. absurd (taken s r found h))
]
  where
    taken :
        (s r : Bytes)
        → find_reserved s reserved_prefixes ≡ some r
        → All (λ r. r ≢ s) reserved_prefixes
        → ⊥
    taken s r found h = let clear = All→find_reserved s reserved_prefixes h in absurd cc

module _ (u : Unicode) where
  normal_of : (s : Bytes) → not (bytes_eq (u.nfc s) s) ≡ false → u.nfc s ≡ s
  normal_of s h = bytes_eq→eq (u.nfc s) s (ground arith)

  normal_test : (s : Bytes) → u.nfc s ≡ s → bytes_eq (u.nfc s) s ≡ true
  normal_test s h = subst (λ t. bytes_eq t s ≡ true) (sym h) (bytes_eq_refl s)

  validate-IsPath : (path : Bytes) → validate u path ≡ ok tt → IsPath u path
  unfolding validate
  validate-IsPath path h₀ =
      let (_, c₀, h₁) = bind-eq-ok (refuse_if (is_empty path) empty) _ h₀ in
      let (_, c₁, h₂) = bind-eq-ok (refuse_if (starts_with path slash) absolute) _ h₁ in
      let (_, c₂, h₃) = bind-eq-ok (refuse_if (contains path b'\\') backslash) _ h₂ in
      let (_, c₃, h₄) = bind-eq-ok (refuse_if (contains path 0) nul_byte) _ h₃ in
      let (_, c₄, h₅) = bind-eq-ok (check_control path) _ h₄ in
      let (_, c₅, h₆) =
        bind-eq-ok (refuse_if (not (bytes_eq (u.nfc path) path)) not_normalized) _ h₅ in
      let (_, c₆, h₇) = bind-eq-ok (check_components 0 (split path slash)) _ h₆ in
      let (_, c₇, h₈) =
        bind-eq-ok (refuse_if (ltb max_path_components (length (split path slash))) _) _ h₇ in
      let (_, c₈, c₉) = bind-eq-ok (refuse_if (ltb max_path_len (length path)) _) _ h₈ in
      record {
        some_bytes = refuse_if-eq-ok _ _ c₀;
        relative = refuse_if-eq-ok _ _ c₁;
        no_backslash = refuse_if-eq-ok _ _ c₂;
        no_nul = refuse_if-eq-ok _ _ c₃;
        no_control = (check_control_iff path).0 c₄;
        normal = normal_of path (refuse_if-eq-ok _ _ c₅);
        components = check_components→All 0 (split path slash) c₆;
        few = ltb-false→le _ _ (refuse_if-eq-ok _ _ c₇);
        short = ltb-false→le _ _ (refuse_if-eq-ok _ _ c₈);
        free = (check_reserved_iff (split path slash)).0 c₉;
      }

  IsPath-validate : (path : Bytes) → IsPath u path → validate u path ≡ ok tt
  unfolding validate
  IsPath-validate path p =
      rw
        (
          p.some_bytes,
          p.relative,
          p.no_backslash,
          p.no_nul,
          (check_control_iff path).1 p.no_control,
          normal_test path p.normal,
          All→check_components 0 (split path slash) p.components,
          le→ltb max_path_components (length (split path slash)) p.few,
          le→ltb max_path_len (length path) p.short,
        )
        ((check_reserved_iff (split path slash)).1 p.free)

  -- `validate` accepts a path exactly where every condition of the path grammar holds: it is not
  -- empty and not absolute, has no backslash, NUL or control character, is in NFC, its components
  -- are not empty, not `.` or `..` and at most 255 bytes long, they are at most 256 and the path
  -- has at most 4096 bytes, and the first is not a reserved name.
  pub validate_iff : (path : Bytes) → (validate u path ≡ ok tt) ↔ IsPath u path
  validate_iff path = (validate-IsPath path, IsPath-validate path)

-- A component name that the grammar allows.
pub record IsName (u : Unicode) (name : Bytes) : Type 0 where
  pub some_bytes : is_empty name ≡ false
  pub no_slash : contains name slash ≡ false
  pub no_backslash : contains name b'\\' ≡ false
  pub no_nul : contains name 0 ≡ false
  pub no_control : HasNoControl name
  pub normal : u.nfc name ≡ name
  pub plain : is_dots name ≡ false
  pub short : length name ≤ max_component_len

module _ (u : Unicode) where
  component→IsName : (name : Bytes) → validate_component u name ≡ ok tt → IsName u name
  unfolding validate_component
  component→IsName name h₀ =
      let (_, c₀, h₁) = bind-eq-ok (refuse_if (is_empty name) empty) _ h₀ in
      let (_, c₁, h₂) = bind-eq-ok (refuse_if (contains name slash) component_slash) _ h₁ in
      let (_, c₂, h₃) = bind-eq-ok (refuse_if (contains name b'\\') backslash) _ h₂ in
      let (_, c₃, h₄) = bind-eq-ok (refuse_if (contains name 0) nul_byte) _ h₃ in
      let (_, c₄, h₅) = bind-eq-ok (check_control name) _ h₄ in
      let (_, c₅, h₆) =
        bind-eq-ok (refuse_if (not (bytes_eq (u.nfc name) name)) not_normalized) _ h₅ in
      let (_, c₆, c₇) = bind-eq-ok (refuse_if (is_dots name) (component_invalid 0)) _ h₆ in
      record {
        some_bytes = refuse_if-eq-ok _ _ c₀;
        no_slash = refuse_if-eq-ok _ _ c₁;
        no_backslash = refuse_if-eq-ok _ _ c₂;
        no_nul = refuse_if-eq-ok _ _ c₃;
        no_control = (check_control_iff name).0 c₄;
        normal = normal_of u name (refuse_if-eq-ok _ _ c₅);
        plain = refuse_if-eq-ok _ _ c₆;
        short = ltb-false→le _ _ (refuse_if-eq-ok _ _ c₇);
      }

  IsName→component : (name : Bytes) → IsName u name → validate_component u name ≡ ok tt
  unfolding validate_component
  IsName→component name p =
      rw
        (
          p.some_bytes,
          p.no_slash,
          p.no_backslash,
          p.no_nul,
          (check_control_iff name).1 p.no_control,
          normal_test u name p.normal,
          p.plain,
          le→ltb max_component_len (length name) p.short,
        )
        refl

  -- `validate_component` accepts a name exactly where it is not empty, has no slash, backslash, NUL
  -- or control character, is in NFC, is not `.` or `..` and has at most 255 bytes.
  pub validate_component_iff : (name : Bytes) → (validate_component u name ≡ ok tt) ↔ IsName u name
  validate_component_iff name = (component→IsName name, IsName→component name)
