-- ===== src/Core/Path/Folding.antt =====
-- crates/naatre-core/src/path.rs: the fold keys of paths.
use naatre.Prelude.{
  ◌≡◌, refl, sym, ap, true, false, none, List, [], ◌∷◌, Bytes, ok, All, and_true, bytes_eq,
  bytes_eq_refl, bytes_eq→eq, ◌↔◌, ◌≢◌, Option-cases, Bool-cases, inl, inr,
}
use naatre.Core.Path.{
  Unicode, fold_key, key_eq, find_seen, check_case_fold, check_case_fold_duplicates,
}

module _ (u : Unicode) where
  -- No path of `qs` has the fold key of `p`.
  abbrev pub Fresh : Bytes → List Bytes → Type 0
  Fresh p qs = All (λ q. fold_key u q ≢ fold_key u p) qs

  -- Fold keys are pairwise different.
  abbrev pub HasDistinctKeys : List Bytes → Type 0
  HasDistinctKeys [] = Unit
  HasDistinctKeys (p ∷ ps) = Fresh p ps × HasDistinctKeys ps

  key_eq→eq : (a b : Bytes × Bytes) → key_eq u a b ≡ true → a ≡ b
  key_eq→eq (d, n) (e, m) h =
      let (h₀, h₁) = and_true (bytes_eq d e) (bytes_eq n m) h in
      let dirs = bytes_eq→eq d e h₀ in let names = bytes_eq→eq n m h₁ in cc

  key_eq_refl : (a : Bytes × Bytes) → key_eq u a a ≡ true
  key_eq_refl (d, n) = rw (bytes_eq_refl d, bytes_eq_refl n) refl

  find_seen→Fresh :
      (p : Bytes) (seen : List Bytes) → find_seen u (fold_key u p) seen ≡ none → Fresh p seen
  unfolding find_seen
  find_seen→Fresh p [] h = tt
  find_seen→Fresh p (q ∷ seen) h = elim (Bool-cases (key_eq u (fold_key u q) (fold_key u p))) [
    | inl same ↦ absurd cc
    | inr other ↦ (λ e. absurd (apart q e other), find_seen→Fresh p seen cc)
  ]
    where
      apart :
          (q : Bytes) → fold_key u q ≡ fold_key u p → key_eq u (fold_key u q) (fold_key u p) ≢ false
      apart q e other =
          absurd (cc (other, ap (λ k. key_eq u k (fold_key u p)) e, key_eq_refl (fold_key u p)))

  Fresh→find_seen :
      (p : Bytes) (seen : List Bytes) → Fresh p seen → find_seen u (fold_key u p) seen ≡ none
  unfolding find_seen
  Fresh→find_seen p [] h = refl
  Fresh→find_seen p (q ∷ seen) (other, h) =
      elim (Bool-cases (key_eq u (fold_key u q) (fold_key u p))) [
        | inl same ↦ absurd (other (key_eq→eq _ _ same))
        | inr differs ↦ rw differs (Fresh→find_seen p seen h)
      ]

  -- Each path of `ps` has a key of its own, among those of `seen` too.
  abbrev Chain : List Bytes → List Bytes → Type 0
  Chain seen [] = Unit
  Chain seen (p ∷ ps) = Fresh p seen × Chain (p ∷ seen) ps

  check_case_fold→Chain : (seen ps : List Bytes) → check_case_fold u seen ps ≡ ok tt → Chain seen ps
  unfolding check_case_fold
  check_case_fold→Chain seen [] h = tt
  check_case_fold→Chain seen (p ∷ ps) h = elim (Option-cases (find_seen u (fold_key u p) seen)) [
    | inl clear ↦ (find_seen→Fresh p seen clear, check_case_fold→Chain (p ∷ seen) ps cc)
    | inr (q, found) ↦ absurd cc
  ]

  Chain→check_case_fold : (seen ps : List Bytes) → Chain seen ps → check_case_fold u seen ps ≡ ok tt
  unfolding check_case_fold
  Chain→check_case_fold seen [] h = refl
  Chain→check_case_fold seen (p ∷ ps) (fresh, h) =
      let clear = Fresh→find_seen p seen fresh in
      let rest = Chain→check_case_fold (p ∷ seen) ps h in cc

  AllFresh : List Bytes → List Bytes → Type 0
  AllFresh seen ps = All (λ p. Fresh p seen) ps

  AllFresh-cons :
      (q : Bytes) (seen ps : List Bytes) → AllFresh (q ∷ seen) ps ↔ (Fresh q ps × AllFresh seen ps)
  unfolding AllFresh
  AllFresh-cons q seen [] = (λ h. (tt, tt), λ h. tt)
  AllFresh-cons q seen (p ∷ ps) =
      let (to, from) = AllFresh-cons q seen ps in
      (
        λ h. ((λ e. h.0.0 (sym e), (to h.1).0), (h.0.1, (to h.1).1)),
        λ h. ((λ e. h.0.0 (sym e), h.1.0), from (h.0.1, h.1.1)),
      )

  Chain→keys : (seen ps : List Bytes) → Chain seen ps → AllFresh seen ps × HasDistinctKeys ps
  unfolding AllFresh
  Chain→keys seen [] h = (tt, tt)
  Chain→keys seen (p ∷ ps) (fresh, h) =
      let (later, distinct) = Chain→keys (p ∷ seen) ps h in
      let (own, others) = (AllFresh-cons p seen ps).0 later in ((fresh, others), (own, distinct))

  keys→Chain : (seen ps : List Bytes) → AllFresh seen ps → HasDistinctKeys ps → Chain seen ps
  unfolding AllFresh
  keys→Chain seen [] h k = tt
  keys→Chain seen (p ∷ ps) (fresh, others) (own, distinct) =
      (fresh, keys→Chain (p ∷ seen) ps ((AllFresh-cons p seen ps).1 (own, others)) distinct)

  AllFresh-none : (ps : List Bytes) → AllFresh [] ps
  unfolding AllFresh
  AllFresh-none [] = tt
  AllFresh-none (p ∷ ps) = (tt, AllFresh-none ps)

  -- `check_case_fold_duplicates` accepts a list of paths exactly where the pairs of a directory and
  -- a last name in lower case are pairwise different.
  pub check_case_fold_duplicates_iff :
      (ps : List Bytes) → (check_case_fold_duplicates u ps ≡ ok tt) ↔ HasDistinctKeys ps
  unfolding check_case_fold_duplicates
  check_case_fold_duplicates_iff ps = (
    λ h. (Chain→keys [] ps (check_case_fold→Chain [] ps h)).1,
    λ h. Chain→check_case_fold [] ps (keys→Chain [] ps (AllFresh-none ps) h),
  )
