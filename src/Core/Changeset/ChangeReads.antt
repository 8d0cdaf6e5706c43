-- ===== src/Core/Changeset/ChangeReads.antt =====
-- crates/naatre-core/src/changeset.rs: the decoder on an encoded file change.
use naatre.Prelude.{
  ℕ, ◌+◌, ◌*◌, ◌^◌, ◌≤◌, ◌<◌, ◌≡◌, refl, ◌∙◌, sym, subst, ap, inl, inr, ◌++◌, Bool, true, false,
  Option, none, some, List, [], ◌∷◌, arith, Bytes, ok, ok_or, ok_or-eq-ok, bind-eq-ok, length,
  length-append, append-nil, All, Bool-cases,
}
use naatre.Core.Error.{decode_invalid_tag, encode_missing_blob}
use naatre.Core.Words.{le_bytes}
use naatre.Core.Cursor.{max_object_bytes, write_str, repeat, pure}
use naatre.Core.Cursor.Reads.{
  Reads, Reads-pure, Reads-lift, Reads-cast, Reads-bind, Reads-take32, Reads-u8, Reads-u64,
  Reads-str, length-write_str,
}
use naatre.Core.Changeset.{
  Op, add, mod', del, tag, from_tag, is_del, FileChange, bit, encode_content, is_none,
  encode_payload, encode_change, encode_changes,
}
use naatre.Core.Changeset.Decode.{bit_of, decode_content, decode_payload, decode_change}
use naatre.Core.Changeset.Typing.{Each, IsId, IsChange}

pub from_tag-tag : (op : Op) → ok_or (from_tag (tag op)) (decode_invalid_tag (tag op)) ≡ ok op
unfolding tag from_tag
from_tag-tag add = refl
from_tag-tag mod' = refl
from_tag-tag del = refl

pub bit_of-bit : (e : Bool) → bit_of (bit e) ≡ ok e
unfolding bit_of
bit_of-bit true = refl
bit_of-bit false = refl

-- The fields of a change that `encode` accepts, with what it pushes for them.
pub data Encoded (c : FileChange) (out : Bytes) : Type 0 where
  content :
      (blob : Bytes) (size : ℕ) (exec : Bool)
      → is_del c.op ≡ false
      → c.blob ≡ some blob
      → c.size ≡ some size
      → c.exec ≡ some exec
      → out ≡ blob ++ (le_bytes 8 size ++ (bit exec ∷ []))
      → Encoded c out
  deletion :
      is_del c.op ≡ true → c.blob ≡ none → c.size ≡ none → c.exec ≡ none → out ≡ [] → Encoded c out

content_cases :
    (c : FileChange) (out : Bytes) → is_del c.op ≡ false → encode_content c ≡ ok out → Encoded c out
unfolding encode_content
content_cases c out kept e =
    let (blob, e₁, f₁) = bind-eq-ok (ok_or c.blob encode_missing_blob) _ e in
    let (size, e₂, f₂) = bind-eq-ok (ok_or c.size encode_missing_blob) _ f₁ in
    let (exec, e₃, f₃) = bind-eq-ok (ok_or c.exec encode_missing_blob) _ f₂ in
    content blob size exec kept (ok_or-eq-ok c.blob _ e₁) (ok_or-eq-ok c.size _ e₂)
      (ok_or-eq-ok c.exec _ e₃) (cc f₃)

pub encode_payload_cases :
    (c : FileChange) (out : Bytes) → encode_payload c ≡ ok out → Encoded c out
unfolding encode_payload is_none
encode_payload_cases c out e = elim (Bool-cases (is_del c.op)) [
  | inl gone ↦ deletion gone (ground arith) (ground arith) (ground arith) (ground arith)
  | inr kept ↦ content_cases c out kept (rw kept at e)
]

-- A change whose fields are known.
change_eq :
    (c : FileChange) {b : Option Bytes} {s : Option ℕ} {x : Option Bool}
    → c.blob ≡ b
    → c.size ≡ s
    → c.exec ≡ x
    → record { path = c.path; op = c.op; blob = b; size = s; exec = x } ≡ c
change_eq c b s x = λ i. record c { blob = sym b i; size = sym s i; exec = sym x i }

decode_content-Reads :
    (path : Bytes) (op : Op) (blob : Bytes) (size : ℕ) (exec : Bool)
    → IsId blob
    → size < 2 ^ 64
    → Reads
        (decode_content path op)
        (blob ++ (le_bytes 8 size ++ (bit exec ∷ [])))
        (record { path = path; op = op; blob = some blob; size = some size; exec = some exec })
unfolding decode_content
decode_content-Reads path op blob size exec id fits = Reads-bind _ (Reads-take32 blob id.size) (
    Reads-bind _ (Reads-u64 size fits) (
      Reads-bind _ (Reads-u8 (bit exec))
        (Reads-bind _ (Reads-lift _ (bit_of-bit exec)) (Reads-pure _))))

decode_payload-Reads :
    (c : FileChange) (out : Bytes)
    → IsChange c
    → Encoded c out
    → Reads (decode_payload c.path c.op) out c
unfolding decode_payload
decode_payload-Reads c out h (content blob size exec kept b s x o) =
    rw (kept, o)
      (subst
        (λ d. Reads (decode_content c.path c.op) (blob ++ (le_bytes 8 size ++ (bit exec ∷ []))) d)
        (change_eq c b s x)
        (decode_content-Reads c.path c.op blob size exec (subst (Each IsId) b h.blob)
          (subst (Each (λ n. n < 2 ^ 64)) s h.size)))
decode_payload-Reads c out h (deletion gone b s x o) =
    rw (gone, o)
      (subst
        (λ d.
          Reads (pure (record { path = c.path; op = c.op; blob = none; size = none; exec = none }))
            [] d)
        (change_eq c b s x) (Reads-pure _))

-- An encoded change is longer than its path, and 9 bytes long at least.
encode_change_parts :
    (c : FileChange) (out : Bytes)
    → encode_change c ≡ ok out
    → (payload : Bytes) × (encode_payload c ≡ ok payload)
      × (out ≡ write_str c.path ++ (tag c.op ∷ payload))
unfolding encode_change
encode_change_parts c out e =
    let (payload, e₁, f₁) = bind-eq-ok (encode_payload c) _ e in (payload, e₁, cc f₁)

pub length-encode_change :
    (c : FileChange) (out : Bytes) → encode_change c ≡ ok out → 9 + length c.path ≤ length out
length-encode_change c out e =
    let (payload, _, whole) = encode_change_parts c out e in
    omega (
      arith,
      ap length whole,
      length-append (write_str c.path) (tag c.op ∷ payload),
      length-write_str c.path,
    )

decode_change-Reads :
    (c : FileChange) (out : Bytes)
    → IsChange c
    → length out ≤ max_object_bytes
    → encode_change c ≡ ok out
    → Reads decode_change out c
unfolding decode_change
decode_change-Reads c out h fits e =
    let (payload, e₁, whole) = encode_change_parts c out e in
    let long = length-encode_change c out e in
    rw whole (
      Reads-bind _ (Reads-str c.path (omega (arith, fits, long)) h.path.valid) (
        Reads-bind _ (Reads-u8 (tag c.op)) (
          Reads-bind _ (Reads-lift _ (from_tag-tag c.op))
            (decode_payload-Reads c payload h (encode_payload_cases c payload e₁)))))

encode_changes_parts :
    (c : FileChange) (cs : List FileChange) (out : Bytes)
    → encode_changes (c ∷ cs) ≡ ok out
    → (first : Bytes) × (rest : Bytes) × (encode_change c ≡ ok first)
      × (encode_changes cs ≡ ok rest)
      × (out ≡ first ++ rest)
unfolding encode_changes
encode_changes_parts c cs out e =
    let (first, e₁, f₁) = bind-eq-ok (encode_change c) _ e in
    let (rest, e₂, f₂) = bind-eq-ok (encode_changes cs) _ f₁ in (first, rest, e₁, e₂, cc f₂)

pub length-encode_changes :
    (cs : List FileChange) (out : Bytes) → encode_changes cs ≡ ok out → length cs * 9 ≤ length out
length-encode_changes [] out e = omega arith
length-encode_changes (c ∷ cs) out e =
    let (first, rest, e₁, e₂, whole) = encode_changes_parts c cs out e in
    omega (
      arith,
      ap length whole,
      length-append first rest,
      length-encode_change c first e₁,
      length-encode_changes cs rest e₂,
    )

-- The decoder's loop over the changes reads what the encoder's loop wrote.
pub decode_changes-Reads :
    (cs : List FileChange) (out : Bytes)
    → All IsChange cs
    → length out ≤ max_object_bytes
    → encode_changes cs ≡ ok out
    → Reads (repeat (length cs) decode_change) out cs
unfolding repeat encode_changes
decode_changes-Reads [] out h fits e = Reads-cast (cc e) (Reads-pure [])
decode_changes-Reads (c ∷ cs) out h fits e =
    let (first, rest, e₁, e₂, whole) = encode_changes_parts c cs out e in
    let size = ap length whole ∙ length-append first rest in
    rw whole (
      Reads-bind _ (decode_change-Reads c first h.0 (omega (arith, size, fits)) e₁) (
        Reads-cast (append-nil _) (
          Reads-bind _ (decode_changes-Reads cs rest h.1 (omega (arith, size, fits)) e₂)
            (Reads-pure _))))
