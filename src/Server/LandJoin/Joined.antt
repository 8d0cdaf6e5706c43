-- ===== src/Server/LandJoin/Joined.antt =====
-- crates/naatre-server/src/land_join.rs: what joiners of a land can rely on.
use naatre.Prelude.{ℕ, ◌≡◌, subst, true, Option, none, some, Bytes, Option-cases, inl, inr}
use naatre.Server.LandJoin.{LandJoinKey, InFlightLand, join, begin}
use naatre.Server.LandJoin.Leaders.{
  Phase, running, sent, left, gone, registered, Leader, System, Run, idle,
}
use naatre.Server.LandJoin.Sound.{PhaseSound, CellSound, Sound, run-Sound, idle-Sound}

module _ {Done ApiError : Type 0} where
  entry_of :
      (map : LandJoinKey → Option ℕ) (i : ℕ) (l : Leader) (x : Option (InFlightLand Done ApiError))
      → CellSound map i (some l) x
      → registered l.phase ≡ true
      → map l.guard.slot_key ≡ some i
  unfolding registered
  entry_of map i l none h reg = absurd h
  entry_of map i l (some land) h reg = by_phase l.phase h reg
    where
      by_phase :
          (p : Phase)
          → PhaseSound map i l.guard.slot_key p land.sent
          → registered p ≡ true
          → map l.guard.slot_key ≡ some i
      by_phase running h reg = h.0
      by_phase sent h reg = h.0
      by_phase left h reg = absurd cc
      by_phase gone h reg = absurd cc

  listed :
      (s : System Done ApiError) (i : ℕ) (l : Leader)
      → Sound s
      → s.leaders i ≡ some l
      → registered l.phase ≡ true
      → s.joins.map l.guard.slot_key ≡ some i
  listed s i l sound at reg =
      entry_of s.joins.map i l (s.joins.lands i)
        (subst (λ o. CellSound s.joins.map i o (s.joins.lands i)) at (sound.cells i)) reg

  -- However requests and leaders interleave, two leaders that have not left the registry lead different
  -- keys or are one: a repository, principal and key have one land in flight at most.
  pub one_leader :
      (e : ApiError) (s : System Done ApiError) (i j : ℕ) (l m : Leader)
      → Run e (idle Done ApiError) s
      → s.leaders i ≡ some l
      → s.leaders j ≡ some m
      → registered l.phase ≡ true
      → registered m.phase ≡ true
      → l.guard.slot_key ≡ m.guard.slot_key
      → i ≡ j
  one_leader e s i j l m run at_i at_j reg_l reg_m same =
      let sound = run-Sound e (idle Done ApiError) s run idle-Sound in
      let first = listed s i l sound at_i reg_l in let second = listed s j m sound at_j reg_m in cc

  -- A request that joins, joins a land whose leader has the same key and has not left the registry.
  pub begin-joins :
      (e : ApiError) (s : System Done ApiError) (k : LandJoinKey) (head : Bytes) (i : ℕ)
      → Run e (idle Done ApiError) s
      → (begin k head s.joins).0 ≡ join i
      → (l : Leader) × (s.leaders i ≡ some l) × (registered l.phase ≡ true) × (l.guard.slot_key ≡ k)
  unfolding begin
  begin-joins e s k head i run h = elim (Option-cases (s.joins.map k)) [
    | inl free ↦ absurd cc
    | inr (j, taken) ↦ (run-Sound e (idle Done ApiError) s run idle-Sound).known k i (cc)
  ]
