-- ===== src/Core/Conflict.antt =====
-- crates/naatre-core/src/conflict.rs: first-class conflict representations.
pub mod Carry
pub mod Valid
pub mod Markers
use naatre.Prelude.{
  ℕ, Bool, true, false, ◌&&◌, ◌||◌, not, Option, none, some, List, [], ◌∷◌, Bytes, Result, ok, bind,
  map_err, refuse_if, length, any, all_windows, bytes_eq, bytes_lt, ltb, ◌==◌, if◌then◌else◌,
}
use naatre.Core.Error
use naatre.Core.Error.{
  CoreError, encode_too_many_entries, encode_unsorted_conflicts, encode_conflict_sides,
}
use naatre.Core.Path
use naatre.Core.Path.{Unicode}

abbrev pub max_entries : ℕ
max_entries = 100_000

pub record ConflictRep : Type 0 where
  pub path : Bytes
  pub base : Option Bytes
  pub base_exec : Bool
  pub sides : List Bytes
  pub sides_exec : List Bool
  pub deleted : Bool

unfoldable pub has_exec : ConflictRep → Bool
has_exec rep = rep.base_exec || any (λ e. e) rep.sides_exec

unfoldable pub conflict_format : List ConflictRep → ℕ
conflict_format [] = 0
conflict_format (r ∷ rs) = if any (λ rep. rep.deleted || has_exec rep) (r ∷ rs) then 2 else 1

-- A competing version: a blob id with its exec bit.
abbrev pub Side : Type 0
Side = Bytes × Bool

-- `false < true`, and pairs compare by the id first.
unfoldable pub side_lt : Side → Side → Bool
side_lt a b = bytes_lt a.0 b.0 || (bytes_eq a.0 b.0 && (not a.1 && b.1))

unfoldable pub bool_eq : Bool → Bool → Bool
bool_eq true b = b
bool_eq false b = not b

unfoldable pub side_eq : Side → Side → Bool
side_eq a b = bytes_eq a.0 b.0 && bool_eq a.1 b.1

-- `sides.iter().zip(sides_exec)`: as long as the shorter list.
unfoldable pub zip : List Bytes → List Bool → List Side
zip [] es = []
zip (s ∷ ss) [] = []
zip (s ∷ ss) (e ∷ es) = (s, e) ∷ zip ss es

unfoldable pub keys : ConflictRep → List Side
keys rep = zip rep.sides rep.sides_exec

-- `rep.base.is_none() && rep.base_exec`
unfoldable pub exec_without_base : Option Bytes → Bool → Bool
exec_without_base none base_exec = base_exec
exec_without_base (some b) base_exec = false

unfoldable pub base_among_sides : ConflictRep → Bool
base_among_sides rep = elim rep.base [
  | none ↦ false
  | some b ↦ any (λ s. side_eq s (b, rep.base_exec)) (keys rep)
]

abbrev pub least_sides : Bool → ℕ
least_sides deleted = if deleted then 1 else 2

unfoldable pub bad_sides : ConflictRep → Bool
bad_sides rep =
    ltb (length rep.sides) (least_sides rep.deleted)
    || (not (length rep.sides_exec == length rep.sides)
        || (exec_without_base rep.base rep.base_exec
            || (not (all_windows side_lt (keys rep)) || base_among_sides rep)))

unfoldable pub is_sorted : List ConflictRep → Bool
is_sorted = all_windows (λ a b. bytes_lt a.path b.path)

module _ (u : Unicode) where
  unfoldable pub validate_rep : ConflictRep → Result CoreError (Unit {0})
  validate_rep rep = bind (map_err Error.path (Path.validate u rep.path)) λ _.
      bind (refuse_if (ltb max_entries (length rep.sides)) encode_too_many_entries)
        λ _. refuse_if (bad_sides rep) encode_conflict_sides

  unfoldable pub validate_reps : List ConflictRep → Result CoreError (Unit {0})
  validate_reps [] = ok tt
  validate_reps (rep ∷ reps) = bind (validate_rep rep) λ _. validate_reps reps

  unfoldable pub validate : List ConflictRep → Result CoreError (Unit {0})
  validate reps =
      bind (refuse_if (ltb max_entries (length reps)) encode_too_many_entries) λ _.
        bind (refuse_if (not (is_sorted reps)) encode_unsorted_conflicts) λ _. validate_reps reps

-- A `BTreeMap` by path as the list of its values in ascending order of path: an insertion replaces
-- the value at an equal path.
unfoldable pub insert : ConflictRep → List ConflictRep → List ConflictRep
insert rep [] = rep ∷ []
insert rep (r ∷ rs) =
    let rest = insert rep rs in
    if bytes_lt rep.path r.path
    then rep ∷ r ∷ rs
    else if bytes_eq rep.path r.path
    then rep ∷ rs
    else r ∷ rest

unfoldable pub insert_all : List ConflictRep → List ConflictRep → List ConflictRep
insert_all [] map = map
insert_all (rep ∷ reps) map = insert_all reps (insert rep map)

unfoldable pub carry : List ConflictRep → List ConflictRep → List ConflictRep
unfolding insert_all
carry existing reconflicted = insert_all reconflicted (insert_all existing [])
