-- ===== src/Core/Changeset/Exact/Change.antt =====
-- crates/naatre-core/src/changeset.rs: the bytes from which a file change was decoded.
use naatre.Prelude.{
  ℕ, zero, suc, ◌≡◌, refl, ap, Bool, false, none, [], ◌∷◌, arith, Bytes, ok, ok_or, append-nil, All,
  length, Bool-cases, inl, inr,
}
use naatre.Core.Error.{decode_invalid_tag}
use naatre.Core.Cursor.{repeat}
use naatre.Core.Cursor.Consumes.{
  Consumes, Consumes-pure, Consumes-lift, Consumes-bind, Consumes-map, Consumes-take32, Consumes-u8,
  Consumes-u64, Consumes-string, IsStr,
}
use naatre.Core.Changeset.{
  Op, tag, from_tag, is_del, FileChange, bit, encode_content, encode_payload, is_none,
  encode_change, encode_changes,
}
use naatre.Core.Changeset.Decode.{bit_of, decode_content, decode_payload, decode_change}
use naatre.Core.Changeset.Typing.{IsText, IsChange}

pub IsStr→IsText : {s : Bytes} → IsStr s → IsText s
IsStr→IsText h = record { bytes = h.bytes; valid = h.valid }

op_of_tag : (t : ℕ) (op : Op) → ok_or (from_tag t) (decode_invalid_tag t) ≡ ok op → t ≡ tag op
unfolding from_tag tag
op_of_tag t op h = ground arith

pub bit_of_byte : (b : ℕ) (e : Bool) → bit_of b ≡ ok e → b ≡ bit e
unfolding bit_of
bit_of_byte b e h = ground arith

-- A decoded change has values of the Rust types and encodes to the bytes taken.
abbrev pub Decoded : FileChange → Bytes → Type 0
Decoded c u = IsChange c × (encode_change c ≡ ok u)

-- The same of the part behind the tag.
abbrev Payload : Bytes → Op → FileChange → Bytes → Type 0
Payload path op c u =
    (c.path ≡ path) × (c.op ≡ op) × (IsText path → IsChange c) × (encode_payload c ≡ ok u)

content_Consumes :
    (path : Bytes) (op : Op)
    → is_del op ≡ false
    → Consumes (Payload path op) (decode_content path op)
unfolding decode_content
content_Consumes path op kept = Consumes-bind Consumes-take32 λ blob u₁ (eq₁, len, good).
    Consumes-bind Consumes-u64 λ size u₂ (fits, eq₂). Consumes-bind Consumes-u8 λ b u₃ (_, eq₃).
      Consumes-bind
        (Consumes-lift {P = λ e u. (u ≡ []) × (b ≡ bit e)} _ (λ e h. (refl, bit_of_byte b e h)))
        λ exec u₄ (eq₄, coded). Consumes-pure _ (
          refl,
          refl,
          λ text. record { path = text; blob = record { size = len; bytes = good }; size = fits },
          unfold encode_payload encode_content in rw (kept, eq₁, eq₂, eq₃, eq₄, coded),
        )

Payload-Consumes : (path : Bytes) (op : Op) → Consumes (Payload path op) (decode_payload path op)
unfolding decode_payload encode_payload is_none
Payload-Consumes path op = elim (Bool-cases (is_del op)) [
  | inl gone ↦ rw gone (
      Consumes-pure (record { path = path; op = op; blob = none; size = none; exec = none })
        (refl, refl, λ text. record { path = text; blob = tt; size = tt }, rw gone))
  | inr kept ↦ rw kept (content_Consumes path op kept)
]

pub decode_change-Consumes : Consumes Decoded decode_change
unfolding decode_change
decode_change-Consumes = Consumes-bind Consumes-string λ path u₁ (text, eq₁).
    Consumes-bind Consumes-u8 λ t u₂ (_, eq₂).
      Consumes-bind
        (Consumes-lift {P = λ op u. (u ≡ []) × (t ≡ tag op)} _ (λ op h. (refl, op_of_tag t op h)))
        λ op u₃ (eq₃, tagged).
          Consumes-map (Payload-Consumes path op) λ c u (same_path, same_op, typed, encoded). (
            typed (IsStr→IsText text),
            unfold encode_change in rw (encoded, same_path, same_op, eq₁, eq₂, eq₃, tagged),
          )

-- The loop over the changes.
pub decode_changes-Consumes :
    (n : ℕ)
    → Consumes
        (λ cs u. All IsChange cs × (length cs ≡ n) × (encode_changes cs ≡ ok u))
        (repeat n decode_change)
unfolding repeat encode_changes
decode_changes-Consumes zero = Consumes-pure [] (tt, refl, refl)
decode_changes-Consumes (suc n) = Consumes-bind decode_change-Consumes λ c u (typed, eq).
    Consumes-bind (decode_changes-Consumes n) λ cs v (all, len, eqs).
      Consumes-pure (c ∷ cs) ((typed, all), ap suc len, rw (append-nil v, eq, eqs))
