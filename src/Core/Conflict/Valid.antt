-- ===== src/Core/Conflict/Valid.antt =====
-- crates/naatre-core/src/conflict.rs: the validity of carried conflicts.
use naatre.Prelude.{
  ◌≤◌, ◌≡◌, refl, not, List, [], ◌∷◌, ok, bind-eq-ok, refuse_if, length, ltb, le→ltb, All,
  Bool-cases, inl, inr, bytes_lt, bytes_eq,
}
use naatre.Core.Error.{encode_too_many_entries, encode_unsorted_conflicts}
use naatre.Core.Path.{Unicode}
use naatre.Core.Conflict.{
  ConflictRep, max_entries, is_sorted, validate_rep, validate_reps, validate, insert, insert_all,
  carry,
}
use naatre.Core.Conflict.Carry.{is_sorted-carry}

module _ (u : Unicode) where
  -- Each representation passes its own checks.
  abbrev Valid : List ConflictRep → Type 0
  Valid reps = All (λ r. validate_rep u r ≡ ok tt) reps

  validate_reps→Valid : (reps : List ConflictRep) → validate_reps u reps ≡ ok tt → Valid reps
  unfolding validate_reps
  validate_reps→Valid [] h = tt
  validate_reps→Valid (r ∷ rs) h =
      let (_, first, rest) = bind-eq-ok (validate_rep u r) _ h in
      (first, validate_reps→Valid rs rest)

  Valid→validate_reps : (reps : List ConflictRep) → Valid reps → validate_reps u reps ≡ ok tt
  unfolding validate_reps
  Valid→validate_reps [] h = refl
  Valid→validate_reps (r ∷ rs) (first, rest) = rw first (Valid→validate_reps rs rest)

  insert-Valid :
      (rep : ConflictRep) (rs : List ConflictRep)
      → validate_rep u rep ≡ ok tt
      → Valid rs
      → Valid (insert rep rs)
  unfolding insert
  insert-Valid rep [] h hs = (h, tt)
  insert-Valid rep (r ∷ rs) h (k, hs) = elim (Bool-cases (bytes_lt rep.path r.path)) [
    | inl before ↦ rw before (h, (k, hs))
    | inr late ↦ elim (Bool-cases (bytes_eq rep.path r.path)) [
      | inl same ↦ rw (late, same) (h, hs)
      | inr other ↦ rw (late, other) (k, insert-Valid rep rs h hs)
    ]
  ]

  insert_all-Valid :
      (reps map : List ConflictRep) → Valid reps → Valid map → Valid (insert_all reps map)
  unfolding insert_all
  insert_all-Valid [] map h k = k
  insert_all-Valid (r ∷ rs) map (h, hs) k =
      insert_all-Valid rs (insert r map) hs (insert-Valid r map h k)

  validate→Valid : (reps : List ConflictRep) → validate u reps ≡ ok tt → Valid reps
  unfolding validate
  validate→Valid reps h₀ =
      let (_, _, h₁) =
        bind-eq-ok (refuse_if (ltb max_entries (length reps)) encode_too_many_entries) _ h₀ in
      let (_, _, h₂) =
        bind-eq-ok (refuse_if (not (is_sorted reps)) encode_unsorted_conflicts) _ h₁ in
      validate_reps→Valid reps h₂

  -- Two lists of conflicts that pass `validate` are carried to a list that passes it, if that is not
  -- longer than the entry cap.
  pub validate-carry :
      (existing reconflicted : List ConflictRep)
      → validate u existing ≡ ok tt
      → validate u reconflicted ≡ ok tt
      → length (carry existing reconflicted) ≤ max_entries
      → validate u (carry existing reconflicted) ≡ ok tt
  unfolding validate
  validate-carry existing reconflicted h k few =
      rw
        (
          le→ltb max_entries (length (carry existing reconflicted)) few,
          is_sorted-carry existing reconflicted,
        )
        (Valid→validate_reps (carry existing reconflicted) (unfold carry in carried))
    where
      carried : Valid (insert_all reconflicted (insert_all existing []))
      carried =
          insert_all-Valid reconflicted (insert_all existing []) (validate→Valid reconflicted k)
            (insert_all-Valid existing [] (validate→Valid existing h) tt)
