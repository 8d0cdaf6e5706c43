-- ===== src/Server/Land/Replays.antt =====
-- crates/naatre-server/src/land.rs: a settled key, landed again.
use naatre.Prelude.{
  ◌≡◌, refl, sym, subst, true, false, Option, none, some, List, [], ◌∷◌, Bytes, IsBytes, length, ok,
  bind, bytes_eq_refl, ◌==◌, inl, inr, ℕ, split_if, Option-cases, bind-eq-ok, ok-injective, arith,
}
use naatre.Core.Path.{Unicode}
use naatre.Core.Ids.{to_hex, object_id, object_id_v2, object_id_in}
use naatre.Core.Ids.Hex.{from_hex-to_hex}
use naatre.Core.Changeset.Validate.{id_for_encoded}
use naatre.Server.Merge.Lines.{TextDiff}
use naatre.Server.Land.{
  LandDone, LandCommand, LandRow, LandState, done, conflicted, Tables, id_of, and_then_id,
  land_settle, put_land,
}
use naatre.Server.Land.Execute.{replay, recorded, settle, land_in_txn, settled_row}
use naatre.Server.Land.Grown.{TipId, chain-TipId}
use naatre.Server.Land.History.{and_then_id-eq}
use naatre.Server.Land.Landing.{
  Landing, contained, rebased, pending_in, started, land_in_txn-Settling,
}

-- The bytes of a Rust `Id`.
abbrev pub IsId : Bytes → Type 0
IsId id = IsBytes id × (length id ≡ 32)

replay-to_hex :
    (landed : Bytes) (n : ℕ) (said : Option Bytes) (conflicts : List Bytes)
    → IsId landed
    → replay
        (some (record { landed = to_hex landed; rebased = n; note = said; conflicts = conflicts }))
      ≡ ok (record {
        landed = landed;
        main = landed;
        rebased = n;
        note = said;
        conflicts = conflicts;
      })
unfolding replay
replay-to_hex landed n said conflicts (good, size) = rw (from_hex-to_hex landed good size) refl

option_same : {o : Option Bytes} {a b : Bytes} → o ≡ some a → o ≡ some b → a ≡ b
option_same h k = cc

id_of-IsId : (id : Bytes) → length id ≡ 32 → id_of id ≡ some id
unfolding id_of
id_of-IsId id size = rw size refl

id_of-length : (b id : Bytes) → id_of b ≡ some id → length id ≡ 32
unfolding id_of
id_of-length b id h = elim (split_if (length b == 32) _ _ h) [
  | inl (e, h₁) ↦ ground arith
  | inr (e, h₁) ↦ absurd cc
]

target-length : (target : Option Bytes) (id : Bytes) → and_then_id target ≡ some id → length id ≡ 32
target-length none id h = absurd cc
target-length (some b) id h = id_of-length b id h

-- The row of a settlement.
abbrev settled_as :
    LandCommand → LandState → (base landed : Bytes) → ℕ → Option Bytes → List Bytes → LandRow
settled_as cmd state base landed n said conflicts = record {
  state = state;
  head = some cmd.head;
  base = some base;
  result_json =
      some (record { landed = to_hex landed; rebased = n; note = said; conflicts = conflicts });
}

settled_row-ok :
    (cmd : LandCommand) (state : LandState) (base landed : Bytes) (n : ℕ) (said : Option Bytes)
    (conflicts : List Bytes)
    → length cmd.head ≡ 32
    → IsId landed
    → settled_row cmd (settled_as cmd state base landed n said conflicts)
      ≡ ok (record {
        landed = landed;
        main = landed;
        rebased = n;
        note = said;
        conflicts = conflicts;
      })
settled_row-ok cmd state base landed n said conflicts size good =
    rw (id_of-IsId cmd.head size, bytes_eq_refl cmd.head)
      (replay-to_hex landed n said conflicts good)

module _ (u : Unicode) (blake3 : Bytes → Bytes) (from_lines : Bytes → Bytes → TextDiff)
    (cmd : LandCommand) where
  answer_of_row :
      (t : Tables) (row : LandRow) (d : LandDone)
      → t.lands cmd.principal cmd.key ≡ some row
      → recorded cmd row ≡ ok d
      → land_in_txn u blake3 from_lines cmd t ≡ ok (d, t)
  unfolding land_in_txn
  answer_of_row t row d h e = cc

  -- The settlement of a land answers its key.
  settle-answers :
      (base landed : Bytes) (n : ℕ) (said : Option Bytes) (conflicts : List Bytes) (t : Tables)
      → length cmd.head ≡ 32
      → IsId landed
      → land_in_txn u blake3 from_lines cmd (settle cmd base landed n said conflicts t).1
        ≡ ok (settle cmd base landed n said conflicts t)
  unfolding settle land_settle put_land recorded
  settle-answers base landed n said [] t size good =
      answer_of_row (settle cmd base landed n said [] t).1
        (settled_as cmd done base landed n said []) (settle cmd base landed n said [] t).0
        (rw (bytes_eq_refl cmd.principal, bytes_eq_refl cmd.key) refl)
        (settled_row-ok cmd done base landed n said [] size good)
  settle-answers base landed n said (c ∷ cs) t size good =
      answer_of_row (settle cmd base landed n said (c ∷ cs) t).1
        (settled_as cmd conflicted base landed n said (c ∷ cs))
        (settle cmd base landed n said (c ∷ cs) t).0
        (rw (bytes_eq_refl cmd.principal, bytes_eq_refl cmd.key) refl)
        (settled_row-ok cmd conflicted base landed n said (c ∷ cs) size good)

  tip-IsId :
      (old_main tip : Bytes)
      → ((bytes : Bytes) → IsId (blake3 bytes))
      → IsId old_main
      → TipId u blake3 old_main tip
      → IsId tip
  unfolding id_for_encoded object_id object_id_v2 object_id_in
  tip-IsId old_main tip hash good (inl e) = subst IsId (sym e) good
  tip-IsId old_main tip hash good (inr (canonical, true, e)) = subst IsId (sym e) (hash _)
  tip-IsId old_main tip hash good (inr (canonical, false, e)) = subst IsId (sym e) (hash _)

  answers_again :
      (t : Tables) (old_main : Bytes) (r : LandDone × Tables)
      → ((bytes : Bytes) → IsId (blake3 bytes))
      → length cmd.head ≡ 32
      → IsId old_main
      → Landing u blake3 from_lines cmd t old_main r
      → land_in_txn u blake3 from_lines cmd r.1 ≡ ok r
  answers_again t old_main r hash size good (contained seen reps reached inside e) =
      subst (λ (x : LandDone × Tables). land_in_txn u blake3 from_lines cmd x.1 ≡ ok x) e
        (settle-answers old_main old_main 0 none reps t size good)
  answers_again t old_main r hash size good
        (rebased seen walked generation tip_tree root st moved said reps reached outside w s l c m
          e) =
      let tip =
        chain-TipId u blake3 from_lines cmd t.changesets old_main walked.0
          (started old_main generation tip_tree t) st c (inl refl) in
      subst (λ (x : LandDone × Tables). land_in_txn u blake3 from_lines cmd x.1 ≡ ok x) e
        (settle-answers old_main st.tip_id st.rebased said reps moved size
          (tip-IsId old_main st.tip_id hash good tip))

  -- A land is idempotent by its key: once it has settled, landing the same head with the same key answers
  -- the same, conflicts included, and changes nothing. The hash gives 32 bytes.
  pub land_in_txn-again :
      (t : Tables) (r : LandDone × Tables) (old_main : Bytes)
      → ((bytes : Bytes) → IsId (blake3 bytes))
      → length cmd.head ≡ 32
      → t.main ≡ some (some old_main)
      → IsBytes old_main
      → land_in_txn u blake3 from_lines cmd t ≡ ok r
      → land_in_txn u blake3 from_lines cmd r.1 ≡ ok r
  unfolding land_in_txn
  land_in_txn-again t r old_main hash size at_main good h =
      elim (Option-cases (t.lands cmd.principal cmd.key)) [
        | inl fresh ↦
            let s = land_in_txn-Settling u blake3 from_lines cmd t r fresh h in
            let target : s.target ≡ some old_main = cc in
            let same : s.old_main ≡ old_main =
              option_same (and_then_id-eq s.target s.old_main s.is_id) target in
            answers_again (pending_in cmd t) s.old_main r hash size
              (subst IsBytes (sym same) good, target-length s.target s.old_main s.is_id) s.landing
        | inr (row, e) ↦
            let there : bind (recorded cmd row) (λ d. ok (d, t)) ≡ ok r = cc in
            let (d, answer, e₁) = bind-eq-ok (recorded cmd row) _ there in
            subst (λ (x : LandDone × Tables). land_in_txn u blake3 from_lines cmd x.1 ≡ ok x)
              (ok-injective e₁) (answer_of_row t row d e answer)
      ]
