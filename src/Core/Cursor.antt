-- ===== src/Core/Cursor.antt =====
-- `Cursor` and `write_str` of crates/naatre-core/src/changeset.rs. A cursor over `data` at `pos` is
-- the input not yet read, `data[pos..]`: no method looks behind `pos`.
pub mod Reads
pub mod Consumes
use naatre.Prelude.{
  not, ◌==◌, min, ◌-◌, ◌^◌, ℕ, zero, suc, List, [], ◌∷◌, ◌*◌, ◌+◌, ◌^◌, ◌++◌, Bytes, Result, ok,
  err, bind, length, take, drop, get_or, ltb, refuse_if, if◌then◌else◌,
}
use naatre.Core.Error.{
  CoreError, decode_trailing_bytes, decode_unexpected_eof, decode_length_overflow, decode_too_large,
  decode_invalid_utf8,
}
use naatre.Core.Words.{le_bytes, from_le}
use naatre.Core.Utf8.{is_utf8}

abbrev pub max_object_bytes : ℕ
max_object_bytes = 16 * 1024 * 1024

-- A method that moves the cursor.
abbrev pub Parser {ℓ} : Type ℓ → Type ℓ
Parser A = Bytes → Result CoreError (A × Bytes)

module _ {ℓ} {A : Type ℓ} where
  abbrev pub pure : A → Parser A
  pure a rest = ok (a, rest)

  -- `?` on a result that the cursor has no part in
  abbrev pub lift : Result CoreError A → Parser A
  lift r rest = bind r (λ a. ok (a, rest))

module _ {ℓ κ} {A : Type ℓ} {B : Type κ} where
  infixl 1 ◌>>=◌ ◌>>◌
  abbrev pub ◌>>=◌ : Parser A → (A → Parser B) → Parser B
  ◌>>=◌ p f bs = bind (p bs) (λ r. f r.0 r.1)

  abbrev pub ◌>>◌ : Parser A → Parser B → Parser B
  ◌>>◌ p q bs = bind (p bs) (λ r. q r.1)

-- `for _ in 0..n { out.push(p) }`
unfoldable pub repeat {ℓ} : {A : Type ℓ} → ℕ → Parser A → Parser (List A)
repeat zero p = pure []
repeat (suc n) p = do a ← p; as' ← repeat n p; pure (a ∷ as')

unfoldable pub remaining : Parser ℕ
remaining rest = ok (length rest, rest)

unfoldable pub take_bytes : ℕ → Parser Bytes
take_bytes n rest =
    if ltb (length rest) n then err decode_unexpected_eof else ok (take n rest, drop n rest)

unfoldable pub take32 : Parser Bytes
take32 = take_bytes 32

-- `take(1)?[0]`: the one byte taken, so the index is in range.
unfoldable pub read_u8 : Parser ℕ
read_u8 = do b ← take_bytes 1; pure (get_or b 0 0)

unfoldable pub u32_le : Parser ℕ
u32_le = do b ← take_bytes 4; pure (from_le b)

unfoldable pub u64_le : Parser ℕ
u64_le = do b ← take_bytes 8; pure (from_le b)

-- `for a in list { out.extend_from_slice(print(a)) }`
abbrev pub write_all {ℓ} : {A : Type ℓ} → (A → Bytes) → List A → Bytes
write_all print [] = []
write_all print (a ∷ as') = print a ++ write_all print as'

-- `usize::saturating_mul`
abbrev pub saturating_mul : ℕ → ℕ → ℕ
saturating_mul a b = min (a * b) (2 ^ 64 - 1)

-- `if need > r.remaining() { return Err(DecodeTooLarge) }`
unfoldable pub ensure_left : ℕ → Parser (Unit {0})
ensure_left need = do left ← remaining; lift (refuse_if (ltb left need) decode_too_large)

-- `if r.remaining() != 0 { return Err(DecodeTrailingBytes) }; Ok(a)`
unfoldable pub finish {ℓ} : {A : Type ℓ} → A → Parser A
finish a = do left ← remaining; lift (refuse_if (not (left == 0)) decode_trailing_bytes); pure a

-- `String::from_utf8`
unfoldable pub as_utf8 : Bytes → Parser Bytes
as_utf8 bytes = if is_utf8 bytes then pure bytes else lift (err decode_invalid_utf8)

unfoldable pub str_field : Parser Bytes
str_field = do
  len ← u64_le
  lift (refuse_if (ltb max_object_bytes len) decode_length_overflow)
  ensure_left len
  bytes ← take_bytes len
  as_utf8 bytes

unfoldable pub write_str : Bytes → Bytes
write_str s = le_bytes 8 (length s) ++ s
