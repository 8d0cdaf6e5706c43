-- ===== src/Server/Merge/Delta/Paths.antt =====
-- crates/naatre-server/src/merge.rs: the union of the paths of two trees, in ascending order.
use naatre.Prelude.{
  ◌≡◌, refl, sym, ap, ◌∙◌, subst, arith, Bool, true, false, ◌||◌, none, List, [], ◌∷◌, ◌++◌, Bytes,
  any, bytes_eq, bytes_eq→eq, bytes_lt, bytes_lt_total, Bool-cases, inl, inr,
}
use naatre.Server.Merge.Delta.{Files, get, insert_path, collect, keys}

-- The paths that follow a path and ascend from it.
abbrev pub Ascends : Bytes → List Bytes → Type 0
Ascends p [] = Unit
Ascends p (q ∷ qs) = (bytes_lt p q ≡ true) × Ascends q qs

abbrev pub Sorted : List Bytes → Type 0
Sorted [] = Unit
Sorted (q ∷ qs) = Ascends q qs

insert-Ascends :
    (p q : Bytes) (qs : List Bytes)
    → bytes_lt p q ≡ true
    → Ascends p qs
    → Ascends p (insert_path q qs)
unfolding insert_path
insert-Ascends p q [] h asc = (h, tt)
insert-Ascends p q (r ∷ rs) h (lt, asc) = elim (Bool-cases (bytes_lt q r)) [
  | inl before ↦ rw before (h, (before, asc))
  | inr late ↦ elim (Bool-cases (bytes_eq q r)) [
    | inl same ↦ rw (late, same) (h, subst (λ s. Ascends s rs) (sym (bytes_eq→eq q r same)) asc)
    | inr other ↦ rw (late, other) (lt, insert-Ascends r q rs (bytes_lt_total q r late other) asc)
  ]
]

-- What is inserted in a set that ascends leaves one that does.
pub insert-Sorted : (q : Bytes) (qs : List Bytes) → Sorted qs → Sorted (insert_path q qs)
unfolding insert_path
insert-Sorted q [] h = tt
insert-Sorted q (r ∷ rs) asc = elim (Bool-cases (bytes_lt q r)) [
  | inl before ↦ rw before (before, asc)
  | inr late ↦ elim (Bool-cases (bytes_eq q r)) [
    | inl same ↦ rw (late, same) (subst (λ s. Ascends s rs) (sym (bytes_eq→eq q r same)) asc)
    | inr other ↦ rw (late, other) (insert-Ascends r q rs (bytes_lt_total q r late other) asc)
  ]
]

-- What is collected in a set ascends.
pub collect-Sorted : (ps : List Bytes) → Sorted (collect ps)
unfolding collect
collect-Sorted [] = tt
collect-Sorted (p ∷ ps) = insert-Sorted p (collect ps) (collect-Sorted ps)

abbrev pub has : Bytes → List Bytes → Bool
has path ps = any (bytes_eq path) ps

same_has : (path q r : Bytes) → bytes_eq q r ≡ true → bytes_eq path q ≡ bytes_eq path r
same_has path q r h = ap (bytes_eq path) (bytes_eq→eq q r h)

has-insert_path :
    (path q : Bytes) (qs : List Bytes)
    → has path (insert_path q qs) ≡ (bytes_eq path q || has path qs)
unfolding insert_path
has-insert_path path q [] = refl
has-insert_path path q (r ∷ rs) = ground (arith, has-insert_path path q rs, same_has path q r)

pub has-collect : (path : Bytes) (ps : List Bytes) → has path (collect ps) ≡ has path ps
unfolding collect
has-collect path [] = refl
has-collect path (p ∷ ps) =
    has-insert_path path p (collect ps) ∙ ap (λ b. bytes_eq path p || b) (has-collect path ps)

pub has-append :
    (path : Bytes) (ps qs : List Bytes) → has path (ps ++ qs) ≡ (has path ps || has path qs)
has-append path [] qs = refl
has-append path (p ∷ ps) qs = ground (arith, has-append path ps qs)

pub get_absent :
    (path : Bytes) (files : Files) → has path (keys files) ≡ false → get path files ≡ none
unfolding keys get
get_absent path [] h = refl
get_absent path ((p, m) ∷ files) h = ground (arith, get_absent path files)

-- A path outside the union of the paths of two maps is in neither.
pub get_outside :
    (path : Bytes) (a c : Files)
    → has path (collect (keys a ++ keys c)) ≡ false
    → (get path a ≡ none) × (get path c ≡ none)
get_outside path a c h =
    let split = has-collect path (keys a ++ keys c) ∙ has-append path (keys a) (keys c) in
    let either : (has path (keys a) || has path (keys c)) ≡ false = sym split ∙ h in
    (get_absent path a (ground arith), get_absent path c (ground arith))
