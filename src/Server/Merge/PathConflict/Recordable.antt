-- ===== src/Server/Merge/PathConflict/Recordable.antt =====
-- crates/naatre-server/src/merge.rs: which conflicts `content_rep` represents.
use naatre.Prelude.{
  suc, ◌≤◌, ◌≡◌, ◌≢◌, refl, sym, ap, subst, ◌∙◌, arith, Bool, true, false, Option, none, some, List,
  [], ◌∷◌, map, Bytes, ok, length, bytes_eq, bytes_eq→eq, bytes_lt_total, le→ltb, Bool-cases, inl,
  inr,
}
use naatre.Core.Path
use naatre.Core.Path.{Unicode}
use naatre.Core.Conflict
use naatre.Core.Conflict.{
  ConflictRep, Side, side_lt, side_eq, bool_eq, bad_sides, keys, zip, exec_without_base,
  base_among_sides, least_sides, validate_rep, validate_reps, max_entries,
}
use naatre.Server.Merge.PathConflict.{
  PathConflict, side_of, insert_side, sort_sides, sides_of, rep_of, content_rep,
}

-- What a side or the base holds at a path.
abbrev Entry : Type 0
Entry = Option Side

abbrev blob_of : Entry → Option Bytes
blob_of none = none
blob_of (some s) = some s.0

abbrev exec_of : Entry → Bool
exec_of none = false
exec_of (some s) = s.1

-- The conflict that the merge raises for what base, ours and theirs hold at a path.
abbrev pub raised : Bytes → Entry → Entry → Entry → PathConflict
raised path b o t = record {
  path = path;
  base_blob = blob_of b;
  base_exec = exec_of b;
  ours_blob = blob_of o;
  ours_exec = exec_of o;
  theirs_blob = blob_of t;
  theirs_exec = exec_of t;
}

side_eq→eq : (s t : Side) → side_eq s t ≡ true → s ≡ t
unfolding side_eq bool_eq
side_eq→eq (a, true) (b, true) h = let same = bytes_eq→eq a b (ground arith) in cc
side_eq→eq (a, true) (b, false) h = absurd (ground arith)
side_eq→eq (a, false) (b, true) h = absurd (ground arith)
side_eq→eq (a, false) (b, false) h = let same = bytes_eq→eq a b (ground arith) in cc

side_apart : (s t : Side) → s ≢ t → side_eq s t ≡ false
side_apart s t h = elim (Bool-cases (side_eq s t)) [
  | inl same ↦ absurd (h (side_eq→eq s t same))
  | inr other ↦ other
]

bytes_eq_sym : (a b : Bytes) → bytes_eq a b ≡ bytes_eq b a
bytes_eq_sym [] [] = refl
bytes_eq_sym [] (y ∷ ys) = refl
bytes_eq_sym (x ∷ xs) [] = refl
bytes_eq_sym (x ∷ xs) (y ∷ ys) = ground (arith, bytes_eq_sym xs ys)

side_lt_total : (s t : Side) → side_eq s t ≡ false → side_lt s t ≡ false → side_lt t s ≡ true
unfolding side_eq side_lt bool_eq
side_lt_total (a, true) (b, true) h k = ground (arith, bytes_lt_total a b, bytes_eq_sym a b)
side_lt_total (a, true) (b, false) h k = ground (arith, bytes_lt_total a b, bytes_eq_sym a b)
side_lt_total (a, false) (b, true) h k = ground (arith, bytes_lt_total a b, bytes_eq_sym a b)
side_lt_total (a, false) (b, false) h k = ground (arith, bytes_lt_total a b, bytes_eq_sym a b)

-- The base is not among the sides.
abbrev Outside : Entry → Side → Type 0
Outside b s = some s ≢ b

outside_test : (b s : Side) → some s ≢ some b → side_eq s b ≡ false
outside_test b s h = side_apart s b λ e. h (ap some e)

two_sides_ok :
    (path : Bytes) (b o t : Entry) (s₀ s₁ : Side)
    → side_lt s₀ s₁ ≡ true
    → Outside b s₀
    → Outside b s₁
    → bad_sides (rep_of (raised path b o t) (s₀ ∷ s₁ ∷ [])) ≡ false
unfolding bad_sides rep_of keys zip exec_without_base base_among_sides
two_sides_ok path none o t s₀ s₁ lt out₀ out₁ = rw lt refl
two_sides_ok path (some b) o t s₀ s₁ lt out₀ out₁ =
    rw (lt, outside_test b s₀ out₀, outside_test b s₁ out₁) refl

one_side_ok :
    (path : Bytes) (b : Side) (o t : Entry) (s : Side)
    → Outside (some b) s
    → bad_sides (rep_of (raised path (some b) o t) (s ∷ [])) ≡ false
unfolding bad_sides rep_of keys zip exec_without_base base_among_sides
one_side_ok path b o t s out = rw (outside_test b s out) refl

valid_rep :
    (u : Unicode) (rep : ConflictRep)
    → Path.validate u rep.path ≡ ok tt
    → length rep.sides ≤ 2
    → bad_sides rep ≡ false
    → Conflict.validate u (rep ∷ []) ≡ ok tt
unfolding Conflict.validate Conflict.is_sorted validate_reps validate_rep
valid_rep u rep path few good =
    rw (path, le→ltb max_entries (length rep.sides) (omega arith), good) refl

length-map {ℓ κ} :
    {A : Type ℓ} {B : Type κ} (f : A → B) (xs : List A) → length (map f xs) ≡ length xs
length-map f [] = refl
length-map f (x ∷ xs) = ap suc (length-map f xs)

rep_valid :
    (u : Unicode) (c : PathConflict) (sides : List Side)
    → Path.validate u c.path ≡ ok tt
    → sides_of c ≡ sides
    → length sides ≤ 2
    → bad_sides (rep_of c sides) ≡ false
    → content_rep u c ≡ some (rep_of c (sides_of c))
unfolding content_rep rep_of
rep_valid u c sides good same few fine =
    let valid =
      valid_rep u (rep_of c (sides_of c)) good
        (subst (λ n. n ≤ 2) (sym (length-map (λ s. s.0) (sides_of c) ∙ ap length same)) few)
        (ap (λ ss. bad_sides (rep_of c ss)) same ∙ fine) in
    rw valid refl

both_sides :
    (u : Unicode) (path : Bytes) (b : Entry) (s t : Side)
    → Path.validate u path ≡ ok tt
    → s ≢ t
    → Outside b s
    → Outside b t
    → content_rep u (raised path b (some s) (some t))
      ≡ some (rep_of (raised path b (some s) (some t)) (sides_of (raised path b (some s) (some t))))
both_sides u path b s t good other out_s out_t = elim (Bool-cases (side_lt t s)) [
  | inl lt ↦
      rep_valid u (raised path b (some s) (some t)) (t ∷ s ∷ []) good (sorted_late s t lt)
        (omega arith) (two_sides_ok path b (some s) (some t) t s lt out_t out_s)
  | inr ge ↦
      let lt = side_lt_total t s (side_apart t s λ e. other (sym e)) ge in
      rep_valid u (raised path b (some s) (some t)) (s ∷ t ∷ []) good (sorted_early s t ge)
        (omega arith) (two_sides_ok path b (some s) (some t) s t lt out_s out_t)
]
  where
    sorted_late :
        (s t : Side) → side_lt t s ≡ true → sides_of (raised path b (some s) (some t)) ≡ t ∷ s ∷ []
    sorted_late s t lt = unfold sides_of sort_sides insert_side side_of in rw lt refl

    sorted_early :
        (s t : Side) → side_lt t s ≡ false → sides_of (raised path b (some s) (some t)) ≡ s ∷ t ∷ []
    sorted_early s t lt = unfold sides_of sort_sides insert_side side_of in rw lt refl

-- Where base, ours and theirs hold three different things, each a blob with its exec bit or nothing,
-- at a valid path, `content_rep` returns the representation that it built: its guard refuses none.
pub content_rep-raised :
    (u : Unicode) (path : Bytes) (b o t : Entry)
    → Path.validate u path ≡ ok tt
    → o ≢ t
    → o ≢ b
    → t ≢ b
    → content_rep u (raised path b o t)
      ≡ some (rep_of (raised path b o t) (sides_of (raised path b o t)))
unfolding sides_of sort_sides insert_side side_of
content_rep-raised u path b none none good h k l = absurd (h refl)
content_rep-raised u path none (some s) none good h k l = absurd (l refl)
content_rep-raised u path none none (some t) good h k l = absurd (k refl)
content_rep-raised u path (some b) (some s) none good h k l =
    rep_valid u (raised path (some b) (some s) none) (s ∷ []) good refl (omega arith)
      (one_side_ok path b (some s) none s k)
content_rep-raised u path (some b) none (some t) good h k l =
    rep_valid u (raised path (some b) none (some t)) (t ∷ []) good refl (omega arith)
      (one_side_ok path b none (some t) t l)
content_rep-raised u path b (some s) (some t) good h k l =
    both_sides u path b s t good (λ e. h (ap some e)) k l
