-- ===== src/Server/Land/Gates.antt =====
-- crates/naatre-server/src/land.rs: what a land checks before it moves `main`.
use naatre.Prelude.{
  ◌≡◌, sym, ap, ◌∙◌, subst, true, false, none, some, List, [], ◌∷◌, Bytes, Result, ok, All,
  bytes_eq, bytes_eq→eq, Bool-cases, inl, inr, ◌↔◌, arith,
}
use naatre.Core.Path.{Unicode}
use naatre.Server.Merge.Lines.{TextDiff}
use naatre.Server.Land.{
  ChangesetRows, LandDone, LandCommand, LandError, Tables, redaction_active, contains,
  file_changes_list, land_insert_pending, put_land,
}
use naatre.Server.Land.Ancestry.{
  in_main, Reaches, here, Explored, all_reached, broken, in_main-Explored,
}
use naatre.Server.Land.Execute.{land_in_txn}
use naatre.Server.Land.Walked.{Linked, Outside, InScope, chain_of-Linked, check_scope-InScope}
use naatre.Server.Land.History.{and_then_id-eq}
use naatre.Server.Land.Landing.{Landing, contained, rebased, pending_in, land_in_txn-Settling}

-- A changeset of the chain that a land rebases.
pub record Rebasable (t : Tables) (cmd : LandCommand) (old_main cs : Bytes) : Type 0 where
  pub outside : ¬ Reaches t.changesets old_main cs
  pub clear : redaction_active t cs ≡ false
  pub in_scope : All (InScope cmd.scope) (file_changes_list t.changesets cs)

-- The head is in `main`'s ancestry, or the chain from that ancestry up to it is rebasable.
pub data Checked (t : Tables) (cmd : LandCommand) (old_main : Bytes) : Type 0 where
  is_in_main : Reaches t.changesets old_main cmd.head → Checked t cmd old_main
  by_chain :
      (base : Bytes) (chain : List Bytes)
      → Linked t.changesets cmd.head base chain
      → Reaches t.changesets old_main base
      → redaction_active t base ≡ false
      → All (Rebasable t cmd old_main) chain
      → Checked t cmd old_main

iff_found :
    (rows : ChangesetRows) (main : Bytes) (r : Result LandError (List Bytes)) (seen : List Bytes)
    → Explored rows main r
    → r ≡ ok seen
    → (id : Bytes) → (contains id seen ≡ true) ↔ Reaches rows main id
iff_found rows main r seen (all_reached found iff) h id =
    let same : found ≡ seen = cc in
    subst (λ x. (contains id x ≡ true) ↔ Reaches rows main id) same (iff id)
iff_found rows main r seen (broken x reached gone) h id = absurd cc

in_main-Reaches :
    (rows : ChangesetRows) (main : Bytes) (seen : List Bytes)
    → in_main rows main ≡ ok seen
    → (id : Bytes) → (contains id seen ≡ true) ↔ Reaches rows main id
in_main-Reaches rows main seen h = iff_found rows main _ seen (in_main-Explored rows main) h

every_link :
    (t : Tables) (cmd : LandCommand) (old_main : Bytes) (seen chain : List Bytes)
    → in_main t.changesets old_main ≡ ok seen
    → All (Outside t seen) chain
    → All (λ cs. All (InScope cmd.scope) (file_changes_list t.changesets cs)) chain
    → All (Rebasable t cmd old_main) chain
every_link t cmd old_main seen [] reached out scoped = tt
every_link t cmd old_main seen (cs ∷ chain) reached ((far, clear), out) (allowed, scoped) = (
  record {
    outside =
        λ r. let inside = (in_main-Reaches t.changesets old_main seen reached cs).1 r in absurd cc;
    clear = clear;
    in_scope = allowed;
  },
  every_link t cmd old_main seen chain reached out scoped,
)

module _ (u : Unicode) (blake3 : Bytes → Bytes) (from_lines : Bytes → Bytes → TextDiff)
    (cmd : LandCommand) where
  when_landed :
      (t : Tables) (old_main : Bytes) (r : LandDone × Tables)
      → Landing u blake3 from_lines cmd (pending_in cmd t) old_main r
      → Checked t cmd old_main
  unfolding put_land land_insert_pending redaction_active
  when_landed t old_main r (contained seen reps reached inside e) =
      elim (Bool-cases (bytes_eq cmd.head old_main)) [
        | inl same ↦
            is_in_main (
              subst (Reaches t.changesets old_main) (sym (bytes_eq→eq cmd.head old_main same)) here)
        | inr other ↦
            is_in_main
              ((in_main-Reaches t.changesets old_main seen reached cmd.head).0 (ground arith))
      ]
  when_landed t old_main r
        (rebased seen walked generation tip_tree root st moved said reps reached outside w s l c m
          e) =
      let (at, (clear, (linked, out))) =
        chain_of-Linked (pending_in cmd t) seen cmd.head walked w in
      by_chain walked.1 walked.0 linked
        ((in_main-Reaches t.changesets old_main seen reached walked.1).0 at) clear
        (every_link t cmd old_main seen walked.0 reached out
          (check_scope-InScope t.changesets cmd.scope walked.0 s))

  -- A land that settles a new key has a head and an old target of `main` that are not redacted, and its
  -- head is in the ancestry of that target, or is the end of a chain along first parents from a changeset
  -- of that ancestry, none of whose changesets is in the ancestry, is redacted, or has a change outside
  -- the token's scope.
  pub land_in_txn-Checked :
      (t : Tables) (r : LandDone × Tables)
      → t.lands cmd.principal cmd.key ≡ none
      → land_in_txn u blake3 from_lines cmd t ≡ ok r
      → (old_main : Bytes) × (t.main ≡ some (some old_main))
        × (redaction_active t cmd.head ≡ false)
        × (redaction_active t old_main ≡ false)
        × Checked t cmd old_main
  land_in_txn-Checked t r fresh h =
      let s = land_in_txn-Settling u blake3 from_lines cmd t r fresh h in
      (
        s.old_main,
        s.at_main ∙ ap some (and_then_id-eq s.target s.old_main s.is_id),
        s.head_clear,
        s.main_clear,
        when_landed t s.old_main r s.landing,
      )
