-- ===== src/Server/Merge/PathConflict.antt =====
-- crates/naatre-server/src/merge.rs: a conflict at a path, its representation, and the exec bit of a
-- merged file.
pub mod Recordable
use naatre.Prelude.{
  Bool, true, false, ◌&&◌, not, Option, none, some, List, [], ◌∷◌, ◌++◌, map, Bytes, Result, ok,
  err, length, ltb, if◌then◌else◌,
}
use naatre.Core.Error.{CoreError}
use naatre.Core.Path.{Unicode}
use naatre.Core.Conflict
use naatre.Core.Conflict.{ConflictRep, Side, side_lt, bool_eq}

-- The `reason`, which no decision reads, is left out.
pub record PathConflict : Type 0 where
  pub path : Bytes
  pub base_blob : Option Bytes
  pub base_exec : Bool
  pub ours_blob : Option Bytes
  pub ours_exec : Bool
  pub theirs_blob : Option Bytes
  pub theirs_exec : Bool

-- The side of a blob, if it is there.
unfoldable pub side_of : Option Bytes → Bool → List Side
side_of none exec = []
side_of (some id) exec = (id, exec) ∷ []

unfoldable pub insert_side : Side → List Side → List Side
insert_side s [] = s ∷ []
insert_side s (t ∷ ts) = let rest = insert_side s ts in if side_lt t s then t ∷ rest else s ∷ t ∷ ts

-- `sides.sort_by_key(|(id, exec)| (id.0, *exec))`
unfoldable pub sort_sides : List Side → List Side
sort_sides [] = []
sort_sides (s ∷ ss) = insert_side s (sort_sides ss)

abbrev pub is_some : Option Bytes → Bool
is_some none = false
is_some (some b) = true

-- The sides of `content_rep`, sorted.
unfoldable pub sides_of : PathConflict → List Side
sides_of c = sort_sides (side_of c.ours_blob c.ours_exec ++ side_of c.theirs_blob c.theirs_exec)

-- The representation that `content_rep` builds.
unfoldable pub rep_of : PathConflict → List Side → ConflictRep
rep_of c sides = record {
  path = c.path;
  base = c.base_blob;
  base_exec = is_some c.base_blob && c.base_exec;
  sides = map (λ s. s.0) sides;
  sides_exec = map (λ s. s.1) sides;
  deleted = ltb (length sides) 2;
}

-- `.ok()?; Some(rep)`
abbrev if_ok : Result CoreError (Unit {0}) → ConflictRep → Option ConflictRep
if_ok (ok u) rep = some rep
if_ok (err e) rep = none

unfoldable pub content_rep : Unicode → PathConflict → Option ConflictRep
content_rep u c = let rep = rep_of c (sides_of c) in if_ok (Conflict.validate u (rep ∷ [])) rep

abbrev option_is : Option Bool → Bool → Bool
option_is none e = false
option_is (some b) e = bool_eq b e

unfoldable pub resolve_exec : Option Bool → Option Bool → Option Bool → Bool
resolve_exec b (some oe) (some te) = if bool_eq oe te then oe else if option_is b oe then te else oe
resolve_exec b (some e) none = e
resolve_exec b none (some e) = e
resolve_exec b none none = false
