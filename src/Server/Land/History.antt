-- ===== src/Server/Land/History.antt =====
-- crates/naatre-server/src/land.rs: what a land leaves of the history of `main`.
use naatre.Prelude.{
  suc, ◌≡◌, sym, ap, ◌∙◌, subst, Option, none, some, [], Bytes, Result, ok, length, ◌==◌, bytes_eq,
  Bool-cases, Option-cases, split_if, inl, inr, ok-injective,
}
use naatre.Core.Path.{Unicode}
use naatre.Server.Merge.Lines.{TextDiff}
use naatre.Server.Land.{
  LandError, LandDone, LandCommand, Tables, id_of, and_then_id, find, main_cas_move, land_settle,
  land_insert_pending, put_land,
}
use naatre.Server.Land.Execute.{settle, land_in_txn}
use naatre.Server.Land.Walked.{done, chain_of-Linked}
use naatre.Server.Land.Grown.{Extends, Above, Addressed, Linked-HasRow, chain-Grown}
use naatre.Server.Land.Landing.{
  Landing, contained, rebased, pending_in, started, land_in_txn-Settling,
}

-- `main` has moved up along first parents, and no changeset is gone.
pub record HistoryKept (t : Tables) (r : LandDone × Tables) : Type 0 where
  pub old_main : Bytes
  pub was : t.main ≡ some (some old_main)
  pub now : r.1.main ≡ some (some r.0.landed)
  pub above : Above r.1.changesets r.0.landed old_main
  pub extends : Extends t.changesets r.1.changesets

id_of-eq : (b id : Bytes) → id_of b ≡ some id → b ≡ id
unfolding id_of
id_of-eq b id h = elim (split_if (length b == 32) _ _ h) [
  | inl (e, h₁) ↦ cc
  | inr (e, h₁) ↦ absurd cc
]

pub and_then_id-eq :
    (target : Option Bytes) (id : Bytes) → and_then_id target ≡ some id → target ≡ some id
and_then_id-eq none id h = absurd cc
and_then_id-eq (some b) id h = ap some (id_of-eq b id h)

pub cas_move-eq :
    (old new : Bytes) (t t' : Tables)
    → main_cas_move old new t ≡ ok t'
    → (t'.main ≡ some (some new)) × ((t'.changesets ≡ t.changesets) × (t'.lands ≡ t.lands))
unfolding main_cas_move
cas_move-eq old new t t' h = elim (Option-cases t.main) [
  | inl e ↦ absurd cc
  | inr (target, e) ↦ elim (Option-cases target) [
    | inl e₁ ↦ absurd cc
    | inr (b, e₁) ↦ elim (Bool-cases (bytes_eq b old)) [
      | inl same ↦
          let done_move : Result LandError Tables =
            ok (record t { main = some (some new); main_version = suc t.main_version }) in
          let made : done_move ≡ ok t' = cc in
          let m = ok-injective made in
          (
            sym (ap (λ (x : Tables). x.main) m),
            (sym (ap (λ (x : Tables). x.changesets) m), sym (ap (λ (x : Tables). x.lands) m)),
          )
      | inr apart ↦ absurd cc
    ]
  ]
]

module _ (u : Unicode) (blake3 : Bytes → Bytes) (from_lines : Bytes → Bytes → TextDiff)
    (cmd : LandCommand) where
  kept_history :
      (t : Tables) (old_main : Bytes) (r : LandDone × Tables)
      → Addressed u blake3 t.changesets
      → t.main ≡ some (some old_main)
      → Landing u blake3 from_lines cmd (pending_in cmd t) old_main r
      → HistoryKept t r
  unfolding settle land_settle put_land land_insert_pending
  kept_history t old_main r addressed was (contained seen reps reached inside e) =
      subst (HistoryKept t) e (record {
        old_main = old_main;
        was = was;
        now = was;
        above = ([], done);
        extends = λ id row h. h;
      })
  kept_history t old_main r addressed was
        (rebased seen walked generation tip_tree root st moved said reps reached outside w s l c m
          e) =
      let (at, (clear, (linked, out))) =
        chain_of-Linked (pending_in cmd t) seen cmd.head walked w in
      let grown =
        chain-Grown u blake3 from_lines cmd t.changesets old_main walked.0
          (started old_main generation tip_tree (pending_in cmd t)) st addressed
          (Linked-HasRow t.changesets cmd.head walked.1 walked.0 linked) c
          (record { extends = λ id row h. h; above = ([], done) }) in
      let (now, (rows, lands)) = cas_move-eq old_main st.tip_id st.tables moved m in
      subst (HistoryKept t) e (record {
        old_main = old_main;
        was = was;
        now = now;
        above = subst (λ x. Above x st.tip_id old_main) (sym rows) grown.above;
        extends = λ id row h. subst (λ x. find id x ≡ some row) (sym rows) (grown.extends id row h);
      })

  -- A land that settles a new key keeps history, where changesets with one id have the same parents:
  -- first parents lead from the new target of `main` down to the old one, and every changeset that had
  -- a row still has it, unchanged.
  pub land_in_txn-HistoryKept :
      (t : Tables) (r : LandDone × Tables)
      → Addressed u blake3 t.changesets
      → t.lands cmd.principal cmd.key ≡ none
      → land_in_txn u blake3 from_lines cmd t ≡ ok r
      → HistoryKept t r
  land_in_txn-HistoryKept t r addressed fresh h =
      let s = land_in_txn-Settling u blake3 from_lines cmd t r fresh h in
      kept_history t s.old_main r addressed
        (s.at_main ∙ ap some (and_then_id-eq s.target s.old_main s.is_id)) s.landing
