-- ===== src/Core/Changeset/Decode.antt =====
-- crates/naatre-core/src/changeset.rs: the strict decoder `decode`.
use naatre.Prelude.{
  ℕ, zero, suc, map, ◌/◌, ◌%◌, Bool, true, false, ◌&&◌, ◌||◌, not, Option, none, some, List, [],
  ◌∷◌, Bytes, Result, ok, err, ok_or, bind, refuse_if, length, bytes_eq, ltb, ◌==◌, if◌then◌else◌,
}
use naatre.Core.Error.{
  CoreError, decode_bad_magic, decode_too_large, decode_invalid_tag, decode_empty_conflict_section,
  decode_conflict_sides,
}
use naatre.Core.Conflict.{ConflictRep, Side, least_sides}
use naatre.Core.Cursor.{
  Parser, pure, lift, ◌>>=◌, ◌>>◌, repeat, saturating_mul, ensure_left, finish, take_bytes, take32,
  read_u8, u32_le, u64_le, str_field,
}
use naatre.Core.Changeset.{
  Op, from_tag, is_del, FileChange, Changeset, max_parents, magic_v1, magic_v2,
}

-- The bit of an exec byte.
unfoldable pub bit_of : ℕ → Result CoreError Bool
bit_of b = if b == 0 then ok false else if b == 1 then ok true else err (decode_invalid_tag b)

-- What follows the tag of an added or modified file.
unfoldable pub decode_content : Bytes → Op → Parser FileChange
decode_content path op = do
  blob ← take32
  size ← u64_le
  b ← read_u8
  exec ← lift (bit_of b)
  pure (record { path = path; op = op; blob = some blob; size = some size; exec = some exec })

unfoldable pub decode_payload : Bytes → Op → Parser FileChange
decode_payload path op =
    if is_del op
    then pure (record { path = path; op = op; blob = none; size = none; exec = none })
    else decode_content path op

unfoldable pub decode_change : Parser FileChange
decode_change = do
  path ← str_field
  t ← read_u8
  op ← lift (ok_or (from_tag t) (decode_invalid_tag t))
  decode_payload path op

-- `flags & (1 << k) == 1 << k`
unfoldable pub has_flag : ℕ → ℕ → Bool
has_flag flags bit_value = flags / bit_value % 2 == 1

-- The closure `read_exec`. It takes and returns `any_exec`, which it sets at a byte 1.
unfoldable pub read_exec : Bool → Bool → Parser (Bool × Bool)
read_exec false any_exec = pure (false, any_exec)
read_exec true any_exec = do b ← read_u8; e ← lift (bit_of b); pure (e, any_exec || e)

unfoldable pub read_side : Bool → Bool → Parser (Side × Bool)
read_side exec any_exec = do id ← take32; e ← read_exec exec any_exec; pure ((id, e.0), e.1)

-- The base with its exec bit, if the flags say that there is one.
unfoldable pub read_base : Bool → Bool → Parser (Option Side × Bool)
read_base false exec = pure (none, false)
read_base true exec = do s ← read_side exec false; pure (some s.0, s.1)

unfoldable pub read_sides : ℕ → Bool → Bool → Parser (List Side × Bool)
read_sides zero exec any_exec = pure ([], any_exec)
read_sides (suc n) exec any_exec = do
  s ← read_side exec any_exec
  r ← read_sides n exec s.1
  pure (s.0 ∷ r.0, r.1)

-- The fields `base` and `base_exec` of a base read.
abbrev pub base_id : Option Side → Option Bytes
base_id none = none
base_id (some s) = some s.0

abbrev pub base_bit : Option Side → Bool
base_bit none = false
base_bit (some s) = s.1

unfoldable pub rep_of : Bytes → Option Side → List Side → Bool → ConflictRep
rep_of path base sides deleted = record {
  path = path;
  base = base_id base;
  base_exec = base_bit base;
  sides = map (λ s. s.0) sides;
  sides_exec = map (λ s. s.1) sides;
  deleted = deleted;
}

-- What follows the flags byte, whose bits are `based`, `deleted` and `exec`.
unfoldable pub decode_sides : Bytes → ℕ → Bool → Bool → Bool → Parser ConflictRep
decode_sides path flags based deleted exec = do
  base ← read_base based exec
  side_count ← u32_le
  lift (refuse_if (ltb side_count (least_sides deleted)) decode_conflict_sides)
  sides ← read_sides side_count exec base.1
  lift (refuse_if (exec && not sides.1) (decode_invalid_tag flags))
  pure (rep_of path base.0 sides.0 deleted)

unfoldable pub decode_conflict : Parser ConflictRep
decode_conflict = do
  path ← str_field
  flags ← read_u8
  lift (refuse_if (ltb 7 flags) (decode_invalid_tag flags))
  decode_sides path flags (has_flag flags 1) (has_flag flags 2) (has_flag flags 4)

unfoldable pub decode_conflicts : Bool → Parser (List ConflictRep)
decode_conflicts false = pure []
decode_conflicts true = do
  conflict_count ← u32_le
  lift (refuse_if (conflict_count == 0) decode_empty_conflict_section)
  ensure_left (saturating_mul conflict_count 45)
  repeat conflict_count decode_conflict

-- Whether the frame is version 2.
unfoldable pub version_of : Bytes → Result CoreError Bool
version_of m =
    if bytes_eq m magic_v1
    then ok false
    else if bytes_eq m magic_v2
    then ok true
    else err decode_bad_magic

unfoldable pub decode_changeset : Parser Changeset
decode_changeset = do
  m ← take_bytes (length magic_v1)
  is_v2 ← lift (version_of m)
  repo_id ← u64_le
  parent_count ← read_u8
  lift (refuse_if (ltb max_parents parent_count) decode_too_large)
  parents ← repeat parent_count take32
  author ← str_field
  message ← str_field
  timestamp_ns ← u64_le
  entry_count ← u32_le
  ensure_left (saturating_mul entry_count 9)
  changes ← repeat entry_count decode_change
  conflicts ← decode_conflicts is_v2
  finish (record {
    repo_id = repo_id;
    parents = parents;
    author = author;
    message = message;
    timestamp_ns = timestamp_ns;
    changes = changes;
    conflicts = conflicts;
  })

unfoldable pub decode : Bytes → Result CoreError Changeset
decode bytes = bind (decode_changeset bytes) (λ r. ok r.0)
