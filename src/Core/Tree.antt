-- ===== src/Core/Tree.antt =====
-- crates/naatre-core/src/tree.rs: directory listings, their canonical encoding and strict decoder.
pub mod RoundTrip
pub mod Validate
pub mod Accepts
use naatre.Prelude.{
  ℕ, String, ◌++◌, Bool, true, false, not, Option, none, some, List, [], ◌∷◌, Bytes, Result, ok,
  err, ok_or, bind, refuse_if, codes, length, all_windows, bytes_eq, bytes_lt, ltb, ◌==◌,
  if◌then◌else◌,
}
use naatre.Core.Error.{
  CoreError, encode_unsorted, encode_too_large, decode_bad_magic, decode_invalid_tag,
}
use naatre.Core.Words.{le_bytes}
use naatre.Core.Cursor.{
  Parser, pure, lift, ◌>>=◌, ◌>>◌, repeat, write_all, saturating_mul, finish, ensure_left,
  take_bytes, take32, read_u8, u32_le, u64_le, str_field, write_str, max_object_bytes,
}

abbrev pub magic : Bytes
magic = codes "naatre-tree" ++ (1 ∷ [])

pub data EntryKind : Type 0 where
  file dir : EntryKind

unfoldable pub tag : EntryKind → ℕ
tag file = 0
tag dir = 1

unfoldable pub from_tag : ℕ → Option EntryKind
from_tag t = if t == 0 then some file else if t == 1 then some dir else none

pub record TreeEntry : Type 0 where
  pub name : Bytes
  pub kind : EntryKind
  pub object : Bytes
  pub size : ℕ
  pub exec : Bool

pub record Tree : Type 0 where
  pub entries : List TreeEntry

-- `u8::from(bool)`
abbrev pub bit : Bool → ℕ
bit true = 1
bit false = 0

-- The exec byte of an entry: a directory always writes 0.
unfoldable pub exec_byte : EntryKind → Bool → ℕ
exec_byte file e = bit e
exec_byte dir e = 0

unfoldable pub write_entry : TreeEntry → Bytes
write_entry e =
    write_str e.name
    ++ (tag e.kind ∷ (e.object ++ (le_bytes 8 e.size ++ (exec_byte e.kind e.exec ∷ []))))

-- What `encode` pushes to `out`.
unfoldable pub write : Tree → Bytes
write t = magic ++ (le_bytes 4 (length t.entries) ++ write_all write_entry t.entries)

unfoldable pub is_sorted : List TreeEntry → Bool
is_sorted = all_windows (λ a b. bytes_lt a.name b.name)

unfoldable pub encode : Tree → Result CoreError Bytes
encode t = bind (refuse_if (not (is_sorted t.entries)) encode_unsorted) λ _.
    bind (refuse_if (ltb max_object_bytes (length (write t))) encode_too_large) λ _. ok (write t)

-- The exec bit that an exec byte stands for.
unfoldable pub read_exec : EntryKind → ℕ → Result CoreError Bool
read_exec kind b =
    if b == 0
    then ok false
    else if b == 1
    then elim kind [ dir ↦ err (decode_invalid_tag 1) | file ↦ ok true ]
    else err (decode_invalid_tag b)

unfoldable pub decode_entry : Parser TreeEntry
decode_entry = do
  name ← str_field
  t ← read_u8
  kind ← lift (ok_or (from_tag t) (decode_invalid_tag t))
  object ← take32
  size ← u64_le
  b ← read_u8
  exec ← lift (read_exec kind b)
  pure (record { name = name; kind = kind; object = object; size = size; exec = exec })

unfoldable pub decode_tree : Parser Tree
decode_tree = do
  m ← take_bytes (length magic)
  lift (refuse_if (not (bytes_eq m magic)) decode_bad_magic)
  entry_count ← u32_le
  ensure_left (saturating_mul entry_count 50)
  entries ← repeat entry_count decode_entry
  finish (record { entries = entries })

unfoldable pub decode : Bytes → Result CoreError Tree
decode bytes = bind (decode_tree bytes) (λ r. ok r.0)
