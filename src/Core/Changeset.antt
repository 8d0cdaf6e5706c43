-- ===== src/Core/Changeset.antt =====
-- crates/naatre-core/src/changeset.rs: changesets and their canonical encoding.
pub mod Decode
pub mod Typing
pub mod Validate
pub mod ChangeReads
pub mod ConflictReads
pub mod RoundTrip
pub mod Exact
pub mod Accepts
use naatre.Prelude.{
  ℕ, zero, suc, map, ◌+◌, ◌*◌, ◌/◌, ◌%◌, ◌≡◌, String, ◌++◌, Bool, true, false, ◌&&◌, ◌||◌, not,
  Option, none, some, List, [], ◌∷◌, Bytes, Result, ok, err, ok_or, bind, map_err, refuse_if, codes,
  length, is_empty, all_windows, bytes_eq, bytes_lt, leb, ltb, ◌==◌, if◌then◌else◌,
}
use naatre.Core.Error
use naatre.Core.Error.{
  CoreError, encode_too_many_parents, encode_unsorted, encode_missing_blob, encode_too_large,
  encode_empty_changeset, encode_too_many_entries, decode_bad_magic, decode_too_large,
  decode_invalid_tag, decode_empty_conflict_section, decode_conflict_sides, author_char,
  message_char,
}
use naatre.Core.Words.{le_bytes}
use naatre.Core.Utf8.{char_indices}
use naatre.Core.Path
use naatre.Core.Path.{Unicode}
use naatre.Core.Conflict
use naatre.Core.Conflict.{ConflictRep, Side, has_exec, keys, least_sides, max_entries}
use naatre.Core.Cursor.{
  Parser, pure, lift, ◌>>=◌, ◌>>◌, repeat, write_all, saturating_mul, ensure_left, finish,
  take_bytes, take32, read_u8, u32_le, u64_le, str_field, write_str, max_object_bytes,
}

abbrev pub max_parents : ℕ
max_parents = 2

abbrev pub magic_v1 : Bytes
magic_v1 = codes "naatre-changeset" ++ (1 ∷ [])

abbrev pub magic_v2 : Bytes
magic_v2 = codes "naatre-changeset" ++ (2 ∷ [])

pub data Op : Type 0 where
  add mod' del : Op

unfoldable pub tag : Op → ℕ
tag add = 0
tag mod' = 1
tag del = 2

unfoldable pub from_tag : ℕ → Option Op
from_tag t =
    if t == 0 then some add else if t == 1 then some mod' else if t == 2 then some del else none

unfoldable pub is_del : Op → Bool
is_del del = true
is_del add = false
is_del mod' = false

pub record FileChange : Type 0 where
  pub path : Bytes
  pub op : Op
  pub blob : Option Bytes
  pub size : Option ℕ
  pub exec : Option Bool

pub record Changeset : Type 0 where
  pub repo_id : ℕ
  pub parents : List Bytes
  pub author : Bytes
  pub message : Bytes
  pub timestamp_ns : ℕ
  pub changes : List FileChange
  pub conflicts : List ConflictRep

-- `u8::from(bool)`
abbrev pub bit : Bool → ℕ
bit true = 1
bit false = 0

unfoldable pub is_none {ℓ} : {A : Type ℓ} → Option A → Bool
is_none none = true
is_none (some a) = false

-- What an added or modified file pushes after its tag.
unfoldable pub encode_content : FileChange → Result CoreError Bytes
encode_content c = bind (ok_or c.blob encode_missing_blob) λ blob.
    bind (ok_or c.size encode_missing_blob) λ size.
      bind (ok_or c.exec encode_missing_blob)
        λ exec. ok (blob ++ (le_bytes 8 size ++ (bit exec ∷ [])))

unfoldable pub encode_payload : FileChange → Result CoreError Bytes
encode_payload c =
    if not (is_del c.op)
    then encode_content c
    else if not (is_none c.blob) || (not (is_none c.size) || not (is_none c.exec))
    then err encode_missing_blob
    else ok []

unfoldable pub encode_change : FileChange → Result CoreError Bytes
encode_change c = bind (encode_payload c) λ payload. ok (write_str c.path ++ (tag c.op ∷ payload))

unfoldable pub encode_changes : List FileChange → Result CoreError Bytes
encode_changes [] = ok []
encode_changes (c ∷ cs) =
    bind (encode_change c) λ out. bind (encode_changes cs) λ rest. ok (out ++ rest)

-- An id, then its exec byte where the conflict has exec bytes.
unfoldable pub write_side : Bool → Side → Bytes
write_side exec s = s.0 ++ (if exec then bit s.1 ∷ [] else [])

-- `u8::from(base) | (u8::from(deleted) << 1) | (u8::from(exec) << 2)`: the bits are disjoint.
unfoldable pub flags_of : Bool → Bool → Bool → ℕ
flags_of base deleted exec = bit base + 2 * bit deleted + 4 * bit exec

unfoldable pub write_base : Bool → Option Bytes → Bool → Bytes
write_base exec none base_exec = []
write_base exec (some b) base_exec = write_side exec (b, base_exec)

unfoldable pub write_conflict : ConflictRep → Bytes
write_conflict rep =
    let exec = has_exec rep in
    write_str rep.path
    ++ (flags_of (not (is_none rep.base)) rep.deleted exec
        ∷ (write_base exec rep.base rep.base_exec
            ++ (le_bytes 4 (length rep.sides) ++ write_all (write_side exec) (keys rep))))

unfoldable pub write_conflicts : List ConflictRep → Bytes
write_conflicts [] = []
write_conflicts (r ∷ rs) = le_bytes 4 (length (r ∷ rs)) ++ write_all write_conflict (r ∷ rs)

-- What `encode` pushes before the entries, with all that it pushes after, `entries`.
unfoldable pub write_header : Changeset → Bytes → Bytes
write_header cs entries =
    (if is_empty cs.conflicts then magic_v1 else magic_v2)
    ++ (le_bytes 8 cs.repo_id
        ++ ((length cs.parents % 256)
            ∷ (write_all (λ p. p) cs.parents
                ++ (write_str cs.author
                    ++ (write_str cs.message
                        ++ (le_bytes 8 cs.timestamp_ns
                            ++ (le_bytes 4 (length cs.changes) ++ entries)))))))

unfoldable pub is_sorted : List FileChange → Bool
is_sorted = all_windows (λ a b. bytes_lt a.path b.path)

-- What `encode` pushes to `out`, if no change is refused.
unfoldable pub write : Changeset → Result CoreError Bytes
write cs =
    bind (encode_changes cs.changes)
      λ entries. ok (write_header cs (entries ++ write_conflicts cs.conflicts))

module _ (u : Unicode) where
  unfoldable pub encode : Changeset → Result CoreError Bytes
  encode cs = bind (refuse_if (ltb max_parents (length cs.parents)) encode_too_many_parents) λ _.
      bind (refuse_if (not (is_sorted cs.changes)) encode_unsorted) λ _.
        bind (Conflict.validate u cs.conflicts) λ _.
          bind (write cs)
            λ out. bind (refuse_if (ltb max_object_bytes (length out)) encode_too_large) λ _. ok out
