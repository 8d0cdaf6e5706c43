-- ===== src/Server/Authz/Segments.antt =====
-- crates/naatre-server/src/authz.rs: path scopes, segment by segment.
use naatre.Prelude.{
  ℕ, ◌≡◌, refl, sym, ap, ◌∙◌, arith, Bool, true, false, ◌||◌, ◌&&◌, some, List, [], ◌∷◌, Bytes,
  bytes_eq, ◌==◌, Bool-cases, inl, inr,
}
use naatre.Core.Path.{starts_with, slash, split, push_front}
use naatre.Core.Text.{strip_prefix}
use naatre.Server.Authz.{goes_on, scope_allows}

-- Whether the segments of a list begin those of another.
unfoldable pub begins : List Bytes → List Bytes → Bool
begins [] ts = true
begins (s ∷ ss) [] = false
begins (s ∷ ss) (t ∷ ts) = bytes_eq t s && begins ss ts

pub split_cons :
    (s : Bytes) → (first : Bytes) × (rest : List Bytes) × (split s slash ≡ first ∷ rest)
unfolding split push_front
split_cons [] = ([], [], refl)
split_cons (c ∷ s) =
    let (first, rest, e) = split_cons s in
    elim (Bool-cases (c == slash)) [
      | inl here ↦ ([], split s slash, rw here refl)
      | inr other ↦ (c ∷ first, rest, rw (other, e) refl)
    ]

split-slash : (c : ℕ) (s : Bytes) → (c == slash) ≡ true → split (c ∷ s) slash ≡ [] ∷ split s slash
unfolding split
split-slash c s h = rw h refl

split_past :
    (c : ℕ) (s first : Bytes) (rest : List Bytes)
    → (c == slash) ≡ false
    → split s slash ≡ first ∷ rest
    → split (c ∷ s) slash ≡ (c ∷ first) ∷ rest
unfolding split push_front
split_past c s first rest h e = rw (h, e) refl

-- The matcher, a byte of both texts at a time.
allows : Bytes → Bytes → Bool
allows prefix path = bytes_eq path prefix || goes_on (strip_prefix path prefix)

allows_cons :
    (d c : ℕ) (prefix path : Bytes)
    → allows (d ∷ prefix) (c ∷ path) ≡ ((c == d) && allows prefix path)
unfolding allows strip_prefix goes_on
allows_cons d c prefix path = elim (Bool-cases (c == d)) [
  | inl same ↦ rw same refl
  | inr other ↦ rw other refl
]

begins_cons :
    (d c : ℕ) (prefix path : Bytes)
    → begins (split (d ∷ prefix) slash) (split (c ∷ path) slash)
      ≡ ((c == d) && begins (split prefix slash) (split path slash))
unfolding begins
begins_cons d c prefix path =
    let (f, r, e) = split_cons prefix in
    let (g, q, e₁) = split_cons path in
    elim (Bool-cases (d == slash)) [
      | inl here ↦ elim (Bool-cases (c == slash)) [
        | inl here₁ ↦
            rw (split-slash d prefix here, split-slash c path here₁, both_slash d c here here₁) refl
        | inr other₁ ↦
            rw
              (
                split-slash d prefix here,
                split_past c path g q other₁ e₁,
                one_slash d c here other₁,
              )
              refl
      ]
      | inr other ↦ elim (Bool-cases (c == slash)) [
        | inl here₁ ↦
            rw
              (split_past d prefix f r other e, split-slash c path here₁, slash_one d c other here₁)
              refl
        | inr other₁ ↦
            rw (split_past d prefix f r other e, split_past c path g q other₁ e₁, e, e₁)
              (and_assoc (c == d) (bytes_eq g f) (begins r q))
      ]
    ]
  where
    both_slash : (d c : ℕ) → (d == slash) ≡ true → (c == slash) ≡ true → (c == d) ≡ true
    both_slash d c h k = ground arith

    one_slash : (d c : ℕ) → (d == slash) ≡ true → (c == slash) ≡ false → (c == d) ≡ false
    one_slash d c h k = ground arith

    slash_one : (d c : ℕ) → (d == slash) ≡ false → (c == slash) ≡ true → (c == d) ≡ false
    slash_one d c h k = ground arith

    and_assoc : (a b c : Bool) → ((a && b) && c) ≡ (a && (b && c))
    and_assoc a b c = ground arith

allows_none : (path : Bytes) → allows [] path ≡ begins (split [] slash) (split path slash)
unfolding allows strip_prefix goes_on starts_with begins split
allows_none [] = refl
allows_none (c ∷ path) = elim (Bool-cases (c == slash)) [
  | inl here ↦ rw (split-slash c path here, here) refl
  | inr other ↦ let (g, q, e) = split_cons path in rw (split_past c path g q other e, other) refl
]

begins_longer :
    (d : ℕ) (prefix : Bytes) → begins (split (d ∷ prefix) slash) (split [] slash) ≡ false
unfolding begins
begins_longer d prefix =
    let (f, r, e) = split_cons prefix in
    elim (Bool-cases (d == slash)) [
      | inl here ↦ rw (split-slash d prefix here, e) (unfold split in refl)
      | inr other ↦ rw (split_past d prefix f r other e) (unfold split in refl)
    ]

allows_longer : (d : ℕ) (prefix : Bytes) → allows (d ∷ prefix) [] ≡ false
unfolding allows strip_prefix goes_on
allows_longer d prefix = refl

allows-begins :
    (prefix path : Bytes) → allows prefix path ≡ begins (split prefix slash) (split path slash)
allows-begins [] path = allows_none path
allows-begins (d ∷ prefix) [] = allows_longer d prefix ∙ sym (begins_longer d prefix)
allows-begins (d ∷ prefix) (c ∷ path) =
    allows_cons d c prefix path
    ∙ ap (λ b. (c == d) && b) (allows-begins prefix path)
    ∙ sym (begins_cons d c prefix path)

-- A scope allows a path exactly where the `/`-separated segments of the scope are the first segments
-- of the path: the matcher is aligned to segments, for any two texts.
pub scope_allows-begins :
    (prefix path : Bytes)
    → scope_allows (some prefix) path ≡ begins (split prefix slash) (split path slash)
unfolding scope_allows
scope_allows-begins prefix path = unfold allows in allows-begins prefix path
