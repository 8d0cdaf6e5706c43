-- ===== src/Server/Land/Ancestry.antt =====
-- crates/naatre-server/src/land.rs: the changesets that are reachable from `main`, by breadth.
use naatre.Prelude.{
  ℕ, zero, suc, ◌+◌, ◌≤◌, ◌≡◌, ◌↔◌, inl, inr, refl, sym, ◌∙◌, subst, arith, true, false, ◌||◌, none,
  some, List, [], ◌∷◌, ◌++◌, Bytes, Result, ok, err, any, length, bytes_eq, bytes_eq_refl,
  bytes_eq→eq, Bool-cases, Option-cases, if◌then◌else◌, length-append,
}
use naatre.Server.Land.{
  ChangesetRow, ChangesetRows, LandError, internal, out_of_steps, find, contains,
}

-- `seen` is the set `in_main`.
unfoldable pub ancestry :
    ℕ → ChangesetRows → (queue seen : List Bytes) → Result LandError (List Bytes)
ancestry fuel rows [] seen = ok seen
ancestry zero rows (id ∷ queue) seen = err out_of_steps
ancestry (suc fuel) rows (id ∷ queue) seen = elim (contains id seen) [
  | true ↦ ancestry fuel rows queue seen
  | false ↦ elim (find id rows) [
    | none ↦ err internal
    | some row ↦ ancestry fuel rows (queue ++ row.parents) (id ∷ seen)
  ]
]

-- The parents that the loop can still push.
unfoldable pub unseen : ChangesetRows → List Bytes → ℕ
unseen [] seen = 0
unseen ((id, row) ∷ rows) seen =
    let rest = unseen rows seen in if contains id seen then rest else length row.parents + rest

unfoldable pub in_main : ChangesetRows → Bytes → Result LandError (List Bytes)
in_main rows main = ancestry (suc (unseen rows [])) rows (main ∷ []) []

-- Reachability through the parents of the rows.
pub data Reaches (rows : ChangesetRows) (main : Bytes) : Bytes → Type 0 where
  here : Reaches rows main main
  up :
      {id parent : Bytes} (row : ChangesetRow)
      → Reaches rows main id
      → find id rows ≡ some row
      → contains parent row.parents ≡ true
      → Reaches rows main parent

-- What the loop answers: every changeset that `main` reaches, or an ancestor that has no row.
pub data Explored (rows : ChangesetRows) (main : Bytes)
    : Result LandError (List Bytes) → Type 0 where
  all_reached :
      (seen : List Bytes)
      → ((id : Bytes) → (contains id seen ≡ true) ↔ Reaches rows main id)
      → Explored rows main (ok seen)
  broken :
      (id : Bytes) → Reaches rows main id → find id rows ≡ none → Explored rows main (err internal)

unseen_more :
    (rows : ChangesetRows) (id : Bytes) (seen : List Bytes)
    → unseen rows (id ∷ seen) ≤ unseen rows seen
unfolding unseen contains
unseen_more [] id seen = omega arith
unseen_more ((i, row) ∷ rows) id seen = ground (arith, unseen_more rows id seen)

unseen-find :
    (rows : ChangesetRows) (id : Bytes) (row : ChangesetRow) (seen : List Bytes)
    → contains id seen ≡ false
    → find id rows ≡ some row
    → unseen rows (id ∷ seen) + length row.parents ≤ unseen rows seen
unfolding unseen contains find
unseen-find [] id row seen new h = absurd cc
unseen-find ((i, r) ∷ rows) id row seen new h = elim (Bool-cases (bytes_eq id i)) [
  | inl same ↦
      let at = bytes_eq→eq id i same in
      let mine : some r ≡ some row = (rw same refl) ∙ h in
      let back : bytes_eq i id ≡ true = subst (λ x. bytes_eq x id ≡ true) at (bytes_eq_refl id) in
      let fresh : any (bytes_eq i) seen ≡ false =
        subst (λ x. any (bytes_eq x) seen ≡ false) at new in
      let len : length r.parents ≡ length row.parents = cc in
      ground (arith, unseen_more rows id seen)
  | inr apart ↦
      let later : find id rows ≡ some row = (rw apart refl) ∙ h in
      ground (arith, unseen-find rows id row seen new later)
]

contains-append :
    (id : Bytes) (xs ys : List Bytes) → contains id (xs ++ ys) ≡ (contains id xs || contains id ys)
unfolding contains
contains-append id [] ys = refl
contains-append id (x ∷ xs) ys = ground (arith, contains-append id xs ys)

contains_cons :
    (id x : Bytes) (xs : List Bytes) → contains id (x ∷ xs) ≡ (bytes_eq id x || contains id xs)
unfolding contains
contains_cons id x xs = refl

head_there :
    (x : Bytes) (queue seen : List Bytes) → (contains x (x ∷ queue) || contains x seen) ≡ true
unfolding contains
head_there x queue seen = ground (arith, bytes_eq_refl x)

module _ (rows : ChangesetRows) where
  step_seen :
      (fuel : ℕ) (id : Bytes) (queue seen : List Bytes)
      → contains id seen ≡ true
      → ancestry (suc fuel) rows (id ∷ queue) seen ≡ ancestry fuel rows queue seen
  unfolding ancestry
  step_seen fuel id queue seen h = cc

  step_missing :
      (fuel : ℕ) (id : Bytes) (queue seen : List Bytes)
      → contains id seen ≡ false
      → find id rows ≡ none
      → ancestry (suc fuel) rows (id ∷ queue) seen ≡ err internal
  unfolding ancestry
  step_missing fuel id queue seen h e = cc

  step_new :
      (fuel : ℕ) (id : Bytes) (queue seen : List Bytes) (row : ChangesetRow)
      → contains id seen ≡ false
      → find id rows ≡ some row
      → ancestry (suc fuel) rows (id ∷ queue) seen
        ≡ ancestry fuel rows (queue ++ row.parents) (id ∷ seen)
  unfolding ancestry
  step_new fuel id queue seen row h e = cc

  module _ (main : Bytes) where
    -- The loop's invariant.
    record Exploring (queue seen : List Bytes) : Type 0 where
      pub sound :
          (id : Bytes) → (contains id queue || contains id seen) ≡ true → Reaches rows main id
      pub closed :
          (id : Bytes)
          → contains id seen ≡ true
          → (row : ChangesetRow) × (find id rows ≡ some row)
            × ((p : Bytes)
                → contains p row.parents ≡ true
                → (contains p queue || contains p seen) ≡ true)
      pub rooted : (contains main queue || contains main seen) ≡ true

    in_closed :
        (seen : List Bytes) (id : Bytes)
        → Exploring [] seen
        → Reaches rows main id
        → contains id seen ≡ true
    unfolding contains
    in_closed seen id inv here = inv.rooted
    in_closed seen id inv (up {id = i} row r e p) =
        let (found, e₁, kept) = inv.closed i (in_closed seen i inv r) in
        let same : row ≡ found = cc in kept id (subst (λ x. contains id x.parents ≡ true) same p)

    skip_seen :
        (id : Bytes) (queue seen : List Bytes)
        → contains id seen ≡ true
        → Exploring (id ∷ queue) seen
        → Exploring queue seen
    unfolding contains
    skip_seen id queue seen h inv = record {
      sound = λ x k. inv.sound x (ground arith);
      closed =
          λ x k. let (row, e, kept) = inv.closed x k in (row, e, λ p m. drop_head p (kept p m));
      rooted = drop_head main inv.rooted;
    }
      where
        drop_head :
            (x : Bytes)
            → (contains x (id ∷ queue) || contains x seen) ≡ true
            → (contains x queue || contains x seen) ≡ true
        drop_head x k = elim (Bool-cases (bytes_eq x id)) [
          | inl same ↦
              let there : contains x seen ≡ true =
                subst (λ y. contains y seen ≡ true) (sym (bytes_eq→eq x id same)) h in
              ground arith
          | inr apart ↦ ground arith
        ]

    take_new :
        (id : Bytes) (queue seen : List Bytes) (row : ChangesetRow)
        → find id rows ≡ some row
        → Exploring (id ∷ queue) seen
        → Exploring (queue ++ row.parents) (id ∷ seen)
    unfolding contains
    take_new id queue seen row e inv = record {
      sound = λ x k. elim (Bool-cases (contains x row.parents)) [
        | inl parent ↦ up row (inv.sound id (ground (arith, bytes_eq_refl id))) e parent
        | inr other ↦ inv.sound x (ground (arith, contains-append x queue row.parents))
      ];
      closed = λ x k. elim (Bool-cases (bytes_eq x id)) [
        | inl same ↦
            let here_row : find x rows ≡ some row =
              subst (λ y. find y rows ≡ some row) (sym (bytes_eq→eq x id same)) e in
            (row, here_row, λ p m. ground (arith, contains-append p queue row.parents))
        | inr apart ↦
            let (r, found, kept) = inv.closed x (ground arith) in
            (r, found, λ p m. moved p (kept p m))
      ];
      rooted = moved main inv.rooted;
    }
      where
        moved :
            (x : Bytes)
            → (contains x (id ∷ queue) || contains x seen) ≡ true
            → (contains x (queue ++ row.parents) || contains x (id ∷ seen)) ≡ true
        moved x k = ground (arith, contains-append x queue row.parents)

    ancestry-Explored :
        (fuel : ℕ) (queue seen : List Bytes)
        → length queue + unseen rows seen ≤ fuel
        → Exploring queue seen
        → Explored rows main (ancestry fuel rows queue seen)
    unfolding ancestry contains
    ancestry-Explored fuel [] seen h inv =
        all_reached seen (λ id. (λ k. inv.sound id k, λ r. in_closed seen id inv r))
    ancestry-Explored zero (id ∷ queue) seen h inv = absurd (omega arith)
    ancestry-Explored (suc fuel) (id ∷ queue) seen h inv = elim (Bool-cases (contains id seen)) [
      | inl old ↦
          subst (Explored rows main) (sym (step_seen fuel id queue seen old))
            (ancestry-Explored fuel queue seen (omega arith) (skip_seen id queue seen old inv))
      | inr new ↦ elim (Option-cases (find id rows)) [
        | inl gone ↦
            subst (Explored rows main) (sym (step_missing fuel id queue seen new gone))
              (broken id (inv.sound id (head_there id queue seen)) gone)
        | inr (row, e) ↦ subst (Explored rows main) (sym (step_new fuel id queue seen row new e)) (
            ancestry-Explored fuel (queue ++ row.parents) (id ∷ seen)
              (omega (arith, length-append queue row.parents, unseen-find rows id row seen new e))
              (take_new id queue seen row e inv))
      ]
    ]

    -- The containment set is exactly what `main` reaches through parents, and its fuel is enough: the
    -- loop answers that set, or an internal error where an ancestor of `main` has no row.
    pub in_main-Explored : Explored rows main (in_main rows main)
    unfolding in_main contains
    in_main-Explored =
        ancestry-Explored (suc (unseen rows [])) (main ∷ []) [] (omega arith) (record {
          sound = λ id k. subst (Reaches rows main) (sym (bytes_eq→eq id main (ground arith))) here;
          closed = λ id k. absurd cc;
          rooted = ground (arith, bytes_eq_refl main);
        })
