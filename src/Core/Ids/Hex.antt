-- ===== src/Core/Ids/Hex.antt =====
-- crates/naatre-core/src/ids.rs: hexadecimal text of an object id.
use naatre.Prelude.{
  ℕ, ◌+◌, ◌*◌, ◌/◌, ◌%◌, zero, suc, ◌&&◌, and_true, ◌≢◌, ◌∙◌, subst, ltb, ◌<◌, ◌≡◌, refl, ap, arith,
  Bool, true, some, [], ◌∷◌, Bytes, IsBytes, length, get_or, ◌==◌, ==_iff, if◌then◌else◌, ◌⊎◌, inl,
  inr, Option-cases, Bool-cases,
}
use naatre.Core.Ids.{to_hex, hex_digits, hex_val, hex_byte, hex_pairs, from_hex}

abbrev digit : ℕ → ℕ
digit n = get_or hex_digits n 0

-- A test that holds of all numbers below a bound.
abbrev holds_below : (ℕ → Bool) → ℕ → Bool
holds_below p zero = true
holds_below p (suc k) = p k && holds_below p k

holds_below_lem : (p : ℕ → Bool) (k n : ℕ) → holds_below p k ≡ true → n < k → p n ≡ true
holds_below_lem p zero n h below = absurd (omega arith)
holds_below_lem p (suc k) n h below =
    let (last, rest) = and_true (p k) (holds_below p k) h in
    elim (dec_eq n k) [
      | inl same ↦ rw same last
      | inr other ↦ holds_below_lem p k n rest (omega arith)
    ]
  where
    dec_eq : (a b : ℕ) → (a ≡ b) ⊎ (a ≢ b)
    dec_eq a b = omega arith

digit_code : (n : ℕ) → n < 16 → digit n ≡ (if ltb n 10 then n + 48 else n + 87)
digit_code n h =
    (==_iff (digit n) (if ltb n 10 then n + 48 else n + 87)).0
      (holds_below_lem (λ k. digit k == (if ltb k 10 then k + 48 else k + 87)) 16 n refl h)

hex_val-digit : (n : ℕ) → n < 16 → hex_val (digit n) ≡ some n
unfolding hex_val
hex_val-digit n h = rw (digit_code n h) (ground arith)

digit-hex_val : (b n : ℕ) → hex_val b ≡ some n → (n < 16) × (digit n ≡ b)
unfolding hex_val
digit-hex_val b n h = let (small, coded) = hex_val_code b n h in (small, digit_code n small ∙ coded)
  where
    hex_val_code :
        (b n : ℕ) → hex_val b ≡ some n → (n < 16) × ((if ltb n 10 then n + 48 else n + 87) ≡ b)
    hex_val_code b n h = ground arith

hex_byte_of :
    (high low m n : ℕ)
    → hex_val high ≡ some m
    → hex_val low ≡ some n
    → hex_byte high low ≡ some (m * 16 + n)
unfolding hex_byte
hex_byte_of high low m n h k = cc

hex_byte-digits : (b : ℕ) → b < 256 → hex_byte (digit (b / 16)) (digit (b % 16)) ≡ some b
hex_byte-digits b h =
    hex_byte_of _ _ _ _ (hex_val-digit (b / 16) (omega arith))
      (hex_val-digit (b % 16) (omega arith))
    ∙ ap some (omega arith)

-- The two digits of a byte are read back in order.
digits-hex_byte :
    (high low b : ℕ)
    → hex_byte high low ≡ some b
    → (b < 256) × (digit (b / 16) ≡ high) × (digit (b % 16) ≡ low)
unfolding hex_byte
digits-hex_byte high low b h = elim (Option-cases (hex_val high)) [
  | inl missing ↦ absurd (cc)
  | inr (m, read) ↦ elim (Option-cases (hex_val low)) [
    | inl missing ↦ absurd (cc)
    | inr (n, read₁) ↦
        let (small, back) = digit-hex_val high m read in
        let (small₁, back₁) = digit-hex_val low n read₁ in
        let made : m * 16 + n ≡ b = cc in
        let top : b / 16 ≡ m = omega arith in
        let bottom : b % 16 ≡ n = omega arith in (omega arith, rw top back, rw bottom back₁)
  ]
]

hex_pairs_cons :
    (a b byte : ℕ) (s id : Bytes)
    → hex_byte a b ≡ some byte
    → hex_pairs s ≡ some id
    → hex_pairs (a ∷ b ∷ s) ≡ some (byte ∷ id)
unfolding hex_pairs
hex_pairs_cons a b byte s id h k = cc

hex_pairs-to_hex : (id : Bytes) → IsBytes id → hex_pairs (to_hex id) ≡ some id
unfolding to_hex
hex_pairs-to_hex [] h = unfold hex_pairs in refl
hex_pairs-to_hex (b ∷ id) (h, hs) =
    hex_pairs_cons _ _ b (to_hex id) id (hex_byte-digits b h) (hex_pairs-to_hex id hs)

length-to_hex : (id : Bytes) → length (to_hex id) ≡ 2 * length id
unfolding to_hex
length-to_hex [] = refl
length-to_hex (b ∷ id) = omega (arith, length-to_hex id)

to_hex_cons :
    (a b byte : ℕ) (id s : Bytes)
    → digit (byte / 16) ≡ a
    → digit (byte % 16) ≡ b
    → to_hex id ≡ s
    → to_hex (byte ∷ id) ≡ a ∷ b ∷ s
unfolding to_hex
to_hex_cons a b byte id s top bottom written = rw (top, bottom, written) refl

-- `hex_pairs` reads only what `to_hex` writes.
to_hex-hex_pairs :
    (s id : Bytes)
    → hex_pairs s ≡ some id
    → (to_hex id ≡ s) × IsBytes id × (length s ≡ 2 * length id)
unfolding hex_pairs
to_hex-hex_pairs [] id h =
    let made : [] ≡ id = cc in
    subst (λ i. (to_hex i ≡ []) × IsBytes i × (0 ≡ 2 * length i)) made
      (unfold to_hex in refl, tt, omega arith)
to_hex-hex_pairs (a ∷ []) id h = absurd cc
to_hex-hex_pairs (a ∷ b ∷ s) id h = elim (Option-cases (hex_byte a b)) [
  | inl missing ↦ absurd cc
  | inr (byte, read) ↦ elim (Option-cases (hex_pairs s)) [
    | inl missing ↦ absurd cc
    | inr (rest, read₁) ↦
        let (below, top, bottom) = digits-hex_byte a b byte read in
        let (written, good, size) = to_hex-hex_pairs s rest read₁ in
        let made : byte ∷ rest ≡ id = cc in
        subst (λ i. (to_hex i ≡ a ∷ b ∷ s) × IsBytes i × (length (a ∷ b ∷ s) ≡ 2 * length i)) made
          (to_hex_cons a b byte rest s top bottom written, (below, good), omega (arith, size))
  ]
]

-- The hex text of 32 bytes is read back as those bytes.
pub from_hex-to_hex : (id : Bytes) → IsBytes id → length id ≡ 32 → from_hex (to_hex id) ≡ some id
unfolding from_hex
from_hex-to_hex id good size = rw (length-to_hex id, size) (hex_pairs-to_hex id good)

-- Text that `from_hex` accepts is exactly the text that `to_hex` writes for the id that it returns,
-- which has 32 bytes: an id has one spelling, in lower case.
pub to_hex-from_hex :
    (s id : Bytes) → from_hex s ≡ some id → (to_hex id ≡ s) × IsBytes id × (length id ≡ 32)
unfolding from_hex
to_hex-from_hex s id h = elim (Bool-cases (length s == 64)) [
  | inl full ↦
      let (written, good, size) = to_hex-hex_pairs s id cc in
      let count = (==_iff (length s) 64).0 full in (written, good, omega arith)
  | inr short ↦ absurd cc
]
