-- ===== src/Core/Words.antt =====
-- Little-endian integers, `to_le_bytes` and `from_le_bytes`, as crates/naatre-core/src/changeset.rs
-- and tree.rs use them. A `u64` is a number below `2 ^ 64`.
use native.Mathlib.Nat.{pow-suc}
use naatre.Prelude.{
  ℕ, zero, suc, ◌+◌, ◌*◌, ◌/◌, ◌%◌, ◌^◌, ◌<◌, ◌≡◌, refl, ap, [], ◌∷◌, arith, Bytes, IsBytes, length,
}

-- The low `n` bytes of `v`, least significant first.
unfoldable pub le_bytes : ℕ → ℕ → Bytes
le_bytes zero v = []
le_bytes (suc n) v = (v % 256) ∷ le_bytes n (v / 256)

unfoldable pub from_le : Bytes → ℕ
from_le [] = 0
from_le (b ∷ bs) = b + 256 * from_le bs

pub length-le_bytes : (n v : ℕ) → length (le_bytes n v) ≡ n
unfolding le_bytes
length-le_bytes zero v = refl
length-le_bytes (suc n) v = ap suc (length-le_bytes n (v / 256))

pub le_bytes-IsBytes : (n v : ℕ) → IsBytes (le_bytes n v)
unfolding le_bytes
le_bytes-IsBytes zero v = tt
le_bytes-IsBytes (suc n) v = (omega arith, le_bytes-IsBytes n (v / 256))

-- A word that fits reads back.
pub from_le-le_bytes : (n v : ℕ) → v < 256 ^ n → from_le (le_bytes n v) ≡ v
unfolding le_bytes from_le
from_le-le_bytes zero v h = omega arith
from_le-le_bytes (suc n) v h =
    let fits : v < 256 ^ n * 256 = rw pow-suc at h in
    omega (arith, from_le-le_bytes n (v / 256) (omega arith))

-- Bytes that were read write back.
pub le_bytes-from_le : (bs : Bytes) → IsBytes bs → le_bytes (length bs) (from_le bs) ≡ bs
unfolding le_bytes from_le
le_bytes-from_le [] h = refl
le_bytes-from_le (b ∷ bs) h =
    let quotient : (b + 256 * from_le bs) / 256 ≡ from_le bs = omega (arith, h.0) in
    let remainder : (b + 256 * from_le bs) % 256 ≡ b = omega (arith, h.0) in
    rw (quotient, remainder, le_bytes-from_le bs h.1)

pub from_le-lt : (bs : Bytes) → IsBytes bs → from_le bs < 256 ^ length bs
unfolding from_le
from_le-lt [] h = omega arith
from_le-lt (b ∷ bs) h = rw pow-suc (omega (arith, h.0, from_le-lt bs h.1))
