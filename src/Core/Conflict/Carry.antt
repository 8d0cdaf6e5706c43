-- ===== src/Core/Conflict/Carry.antt =====
-- crates/naatre-core/src/conflict.rs: which conflicts a merge result records.
use naatre.Prelude.{
  bytes_eq_join, bytes_eq_same, ◌≡◌, refl, sym, ap, ◌∙◌, subst, arith, true, Option, none, some,
  List, [], ◌∷◌, Bytes, bytes_eq, bytes_eq→eq, bytes_lt, bytes_lt_total, if◌then◌else◌, Bool-cases,
  inl, inr,
}
use naatre.Core.Conflict.{ConflictRep, insert, insert_all, carry, is_sorted}

-- The conflict recorded at a path.
unfoldable pub lookup : Bytes → List ConflictRep → Option ConflictRep
lookup path [] = none
lookup path (r ∷ rs) = if bytes_eq path r.path then some r else lookup path rs

-- The last conflict of a list that has a path, or `old` if none has.
unfoldable pub last_at : Bytes → Option ConflictRep → List ConflictRep → Option ConflictRep
last_at path old [] = old
last_at path old (r ∷ rs) = last_at path (if bytes_eq path r.path then some r else old) rs

lookup-insert :
    (path : Bytes) (rep : ConflictRep) (rs : List ConflictRep)
    → lookup path (insert rep rs) ≡ (if bytes_eq path rep.path then some rep else lookup path rs)
unfolding lookup insert
lookup-insert path rep [] = refl
lookup-insert path rep (r ∷ rs) = ground (
  arith,
  lookup-insert path rep rs,
  bytes_eq_join path rep.path r.path,
  bytes_eq_same path rep.path r.path,
)

lookup-insert_all :
    (path : Bytes) (reps map : List ConflictRep)
    → lookup path (insert_all reps map) ≡ last_at path (lookup path map) reps
unfolding insert_all last_at
lookup-insert_all path [] map = refl
lookup-insert_all path (rep ∷ reps) map =
    lookup-insert_all path reps (insert rep map)
    ∙ ap (λ old. last_at path old reps) (lookup-insert path rep map)

-- The conflict that `carry` records at a path is the last one that `reconflicted` has at it, or else
-- the last one that `existing` has at it, or else none.
pub lookup-carry :
    (path : Bytes) (existing reconflicted : List ConflictRep)
    → lookup path (carry existing reconflicted)
      ≡ last_at path (last_at path none existing) reconflicted
unfolding carry
lookup-carry path existing reconflicted =
    lookup-insert_all path reconflicted (insert_all existing [])
    ∙ ap (λ old. last_at path old reconflicted)
        (unfold lookup in lookup-insert_all path existing [])

-- The conflicts that follow a path and ascend from it.
abbrev Ascends : Bytes → List ConflictRep → Type 0
Ascends p [] = Unit
Ascends p (r ∷ rs) = (bytes_lt p r.path ≡ true) × Ascends r.path rs

insert-Ascends :
    (p : Bytes) (rep : ConflictRep) (rs : List ConflictRep)
    → bytes_lt p rep.path ≡ true
    → Ascends p rs
    → Ascends p (insert rep rs)
unfolding insert
insert-Ascends p rep [] h asc = (h, tt)
insert-Ascends p rep (r ∷ rs) h (lt, asc) = elim (Bool-cases (bytes_lt rep.path r.path)) [
  | inl before ↦ rw before (h, (before, asc))
  | inr late ↦ elim (Bool-cases (bytes_eq rep.path r.path)) [
    | inl same ↦
        rw (late, same) (h, subst (λ q. Ascends q rs) (sym (bytes_eq→eq rep.path r.path same)) asc)
    | inr other ↦
        rw (late, other)
          (lt, insert-Ascends r.path rep rs (bytes_lt_total rep.path r.path late other) asc)
  ]
]

abbrev Sorted : List ConflictRep → Type 0
Sorted [] = Unit
Sorted (r ∷ rs) = Ascends r.path rs

is_sorted_of : (rs : List ConflictRep) → Sorted rs → is_sorted rs ≡ true
unfolding is_sorted
is_sorted_of [] h = refl
is_sorted_of (r ∷ []) h = refl
is_sorted_of (r ∷ s ∷ rs) (lt, h) = rw (lt, is_sorted_of (s ∷ rs) h) refl

insert-Sorted : (rep : ConflictRep) (rs : List ConflictRep) → Sorted rs → Sorted (insert rep rs)
unfolding insert
insert-Sorted rep [] h = tt
insert-Sorted rep (r ∷ rs) asc = elim (Bool-cases (bytes_lt rep.path r.path)) [
  | inl before ↦ rw before (before, asc)
  | inr late ↦ elim (Bool-cases (bytes_eq rep.path r.path)) [
    | inl same ↦
        rw (late, same) (subst (λ q. Ascends q rs) (sym (bytes_eq→eq rep.path r.path same)) asc)
    | inr other ↦
        rw (late, other)
          (insert-Ascends r.path rep rs (bytes_lt_total rep.path r.path late other) asc)
  ]
]

insert_all-Sorted : (reps map : List ConflictRep) → Sorted map → Sorted (insert_all reps map)
unfolding insert_all
insert_all-Sorted [] map h = h
insert_all-Sorted (rep ∷ reps) map h =
    insert_all-Sorted reps (insert rep map) (insert-Sorted rep map h)

-- What `carry` returns passes the order check of the encoder, whatever the two lists are.
pub is_sorted-carry :
    (existing reconflicted : List ConflictRep) → is_sorted (carry existing reconflicted) ≡ true
unfolding carry
is_sorted-carry existing reconflicted =
    is_sorted_of _ (insert_all-Sorted reconflicted _ (insert_all-Sorted existing [] tt))
