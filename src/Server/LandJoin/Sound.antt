-- ===== src/Server/LandJoin/Sound.antt =====
-- crates/naatre-server/src/land_join.rs: what every step keeps of the registry and its leaders.
use naatre.Prelude.{
  ℕ, ◌≤◌, ◌≡◌, ◌≢◌, refl, sym, ap, subst, arith, Bool, true, false, Option, none, some, Bytes, ◌==◌,
  ==_refl, if◌then◌else◌, Bool-cases, Option-cases, inl, inr,
}
use naatre.Server.LandJoin.{
  LandJoinKey, key_eq, LandOutcome, InFlightLand, LandJoins, LandJoinGuard, JoinSlot, join, lead,
  register, begin, send, deregister, settle, with_sent, settled,
}
use naatre.Server.LandJoin.Leaders.{
  Phase, running, sent, left, gone, registered, Leader, System, at_phase, enter, request, Step,
  begins, sends, leaves, ends, Run, stop, then', idle,
}
use naatre.Server.LandJoin.Known.{
  key_eq→eq, key_eq_refl, eq_of, Known, by_address, known_at, known_self, known_advance, Own,
  at_phase-Own, apart_self, apart_of, without_other, without_left,
}

module _ {Done ApiError : Type 0} where
  -- A leader's entry in the map and what its channel holds, by its phase.
  abbrev pub PhaseSound :
      (LandJoinKey → Option ℕ)
      → ℕ
      → LandJoinKey
      → Phase
      → Option (LandOutcome Done ApiError)
      → Type 0
  PhaseSound map i k running x = (map k ≡ some i) × (x ≡ none)
  PhaseSound map i k sent x = (map k ≡ some i) × (x ≢ none)
  PhaseSound map i k left x = Unit
  PhaseSound map i k gone x = x ≢ none

  -- What an address `i` holds: no land and no leader, or a land with its leader.
  abbrev pub CellSound :
      (LandJoinKey → Option ℕ) → ℕ → Option Leader → Option (InFlightLand Done ApiError) → Type 0
  CellSound map i none none = Unit
  CellSound map i none (some land) = ⊥
  CellSound map i (some l) none = ⊥
  CellSound map i (some l) (some land) = PhaseSound map i l.guard.slot_key l.phase land.sent

  pub record Sound (s : System Done ApiError) : Type 0 where
    pub cells : (i : ℕ) → CellSound s.joins.map i (s.leaders i) (s.joins.lands i)
    pub fresh : (i : ℕ) → s.joins.next ≤ i → s.joins.lands i ≡ none
    pub known : Known s.joins.map s.leaders
    pub own : Own s.leaders

  pub idle-Sound : Sound (idle Done ApiError)
  idle-Sound = record {
    cells = λ i. tt;
    fresh = λ i h. refl;
    known = λ k i h. absurd cc;
    own = λ i l h. absurd cc;
  }

  send_cell :
      (map : LandJoinKey → Option ℕ) (i : ℕ) (g : LandJoinGuard) (o : LandOutcome Done ApiError)
      (x : Option (InFlightLand Done ApiError))
      → CellSound map i (some (record { guard = g; phase = running })) x
      → CellSound map i (some (record { guard = g; phase = sent })) (with_sent o x)
  send_cell map i g o none h = h
  send_cell map i g o (some land) h = (h.0, λ e. absurd cc)

  settle_cell :
      (map : LandJoinKey → Option ℕ) (i : ℕ) (g : LandJoinGuard) (e : ApiError)
      (x : Option (InFlightLand Done ApiError))
      → CellSound map i (some (record { guard = g; phase = left })) x
      → CellSound map i (some (record { guard = g; phase = gone })) (settled e x)
  settle_cell map i g e none h = h
  settle_cell map i g e (some land) h = elim (Option-cases land.sent) [
    | inl nothing ↦ rw nothing (λ e. absurd cc)
    | inr (o, there) ↦ rw there (λ e. absurd cc)
  ]

  unset_sent :
      (b : Bool) (o : LandOutcome Done ApiError) (x : Option (InFlightLand Done ApiError))
      → x ≡ none
      → (if b then with_sent o x else x) ≡ none
  unset_sent true o x h = ap (with_sent o) h
  unset_sent false o x h = h

  unset_settled :
      (b : Bool) (e : ApiError) (x : Option (InFlightLand Done ApiError))
      → x ≡ none
      → (if b then settled e x else x) ≡ none
  unset_settled true e x h = ap (settled e) h
  unset_settled false e x h = h

  sends-Sound :
      (s : System Done ApiError) (g : LandJoinGuard) (o : LandOutcome Done ApiError)
      → s.leaders g.in_flight ≡ some (record { guard = g; phase = running })
      → Sound s
      → Sound (record { joins = send g o s.joins; leaders = at_phase g sent s.leaders })
  unfolding send
  sends-Sound s g o at sound =
      let i = g.in_flight in
      let s' : System Done ApiError = record {
        joins = send g o s.joins;
        leaders = at_phase g sent s.leaders;
      } in
      record {
        cells =
            by_address (λ j. CellSound s.joins.map j (s'.leaders j) (s'.joins.lands j)) i
              (rw (==_refl i) (
                send_cell s.joins.map i g o (s.joins.lands i)
                  (subst (λ l. CellSound s.joins.map i l (s.joins.lands i)) at (sound.cells i))))
              (λ j differs. rw differs (sound.cells j));
        fresh = λ j h. unset_sent (j == i) o (s.joins.lands j) (sound.fresh j h);
        known =
            known_advance s.joins.map s.leaders g running sent at (λ h. unfold registered in refl)
              sound.known;
        own = at_phase-Own g sent s.leaders sound.own;
      }

  ends-Sound :
      (e : ApiError) (s : System Done ApiError) (g : LandJoinGuard)
      → s.leaders g.in_flight ≡ some (record { guard = g; phase = left })
      → Sound s
      → Sound (record { joins = settle e g s.joins; leaders = at_phase g gone s.leaders })
  unfolding settle
  ends-Sound e s g at sound =
      let i = g.in_flight in
      let s' : System Done ApiError = record {
        joins = settle e g s.joins;
        leaders = at_phase g gone s.leaders;
      } in
      record {
        cells =
            by_address (λ j. CellSound s.joins.map j (s'.leaders j) (s'.joins.lands j)) i
              (rw (==_refl i) (
                settle_cell s.joins.map i g e (s.joins.lands i)
                  (subst (λ l. CellSound s.joins.map i l (s.joins.lands i)) at (sound.cells i))))
              (λ j differs. rw differs (sound.cells j));
        fresh = λ j h. unset_settled (j == i) e (s.joins.lands j) (sound.fresh j h);
        known =
            known_advance s.joins.map s.leaders g left gone at
              (λ h. absurd (unfold registered in cc)) sound.known;
        own = at_phase-Own g gone s.leaders sound.own;
      }

  map_cell :
      (map map' : LandJoinKey → Option ℕ) (j : ℕ) (l : Option Leader)
      (x : Option (InFlightLand Done ApiError))
      → ((k : LandJoinKey) → map k ≡ some j → map' k ≡ some j)
      → CellSound map j l x
      → CellSound map' j l x
  map_cell map map' j none none stays h = h
  map_cell map map' j none (some land) stays h = h
  map_cell map map' j (some l) none stays h = h
  map_cell map map' j (some l) (some land) stays h = phase_map l.phase h
    where
      phase_map :
          (p : Phase)
          → PhaseSound map j l.guard.slot_key p land.sent
          → PhaseSound map' j l.guard.slot_key p land.sent
      phase_map running h = (stays l.guard.slot_key h.0, h.1)
      phase_map sent h = (stays l.guard.slot_key h.0, h.1)
      phase_map left h = h
      phase_map gone h = h

  leave_cell :
      (map map' : LandJoinKey → Option ℕ) (i : ℕ) (g : LandJoinGuard) (p : Phase)
      (x : Option (InFlightLand Done ApiError))
      → CellSound map i (some (record { guard = g; phase = p })) x
      → CellSound map' i (some (record { guard = g; phase = left })) x
  leave_cell map map' i g p none h = h
  leave_cell map map' i g p (some land) h = tt

  leaves-Sound :
      (s : System Done ApiError) (g : LandJoinGuard) (p : Phase)
      → s.leaders g.in_flight ≡ some (record { guard = g; phase = p })
      → Sound s
      → Sound (record { joins = deregister g s.joins; leaders = at_phase g left s.leaders })
  unfolding deregister
  leaves-Sound s g p at sound =
      let i = g.in_flight in
      let s' : System Done ApiError = record {
        joins = deregister g s.joins;
        leaders = at_phase g left s.leaders;
      } in
      record {
        cells =
            by_address (λ j. CellSound s'.joins.map j (s'.leaders j) (s'.joins.lands j)) i
              (rw (==_refl i) (
                leave_cell s.joins.map s'.joins.map i g p (s.joins.lands i)
                  (subst (λ l. CellSound s.joins.map i l (s.joins.lands i)) at (sound.cells i))))
              (λ j differs. rw differs (
                map_cell s.joins.map s'.joins.map j (s.leaders j) (s.joins.lands j)
                  (λ k. without_other g s.joins.map j k differs) (sound.cells j)));
        fresh = sound.fresh;
        known = λ k j h.
            let (there, apart) = without_left g s.joins.map j k h in
            let (l, found, reg, key) = sound.known k j there in
            known_at k g left s.leaders j
              (λ same.
                let self = known_self g p l s.leaders j at same found in
                let never = apart (subst (λ m. m.guard.slot_key ≡ k) self key) in absurd cc)
              (λ differs. (l, found, reg, key));
        own = at_phase-Own g left s.leaders sound.own;
      }

  taken_key :
      (s : System Done ApiError) (k h : LandJoinKey) (j : ℕ)
      → s.joins.map k ≡ none
      → s.joins.map h ≡ some j
      → key_eq h k ≡ false
  taken_key s k h j free e = elim (Bool-cases (key_eq h k)) [
    | inl same ↦ let at = key_eq→eq h k same in absurd cc
    | inr other ↦ other
  ]

  pub no_leader :
      (s : System Done ApiError) (j : ℕ) (l : Leader)
      → j ≡ s.joins.next
      → s.leaders j ≡ some l
      → Sound s
      → ⊥
  no_leader s j l at found sound =
      let nothing = sound.fresh j (omega (arith, at)) in
      subst (λ x. CellSound s.joins.map j (some l) x) nothing
        (subst (λ o. CellSound s.joins.map j o (s.joins.lands j)) found (sound.cells j))

  register-Sound :
      (s : System Done ApiError) (k : LandJoinKey) (head : Bytes)
      → s.joins.map k ≡ none
      → Sound s
      → Sound (record {
        joins = register k head s.joins;
        leaders = at_phase (record { slot_key = k; in_flight = s.joins.next }) running s.leaders;
      })
  unfolding register
  register-Sound s k head free sound =
      let i = s.joins.next in
      let g : LandJoinGuard = record { slot_key = k; in_flight = s.joins.next } in
      let s' : System Done ApiError = record {
        joins = register k head s.joins;
        leaders = at_phase g running s.leaders;
      } in
      record {
        cells =
            by_address (λ j. CellSound s'.joins.map j (s'.leaders j) (s'.joins.lands j)) i
              (rw (==_refl i) (rw (key_eq_refl k) (refl, refl)))
              (λ j differs. rw differs (
                map_cell s.joins.map s'.joins.map j (s.leaders j) (s.joins.lands j)
                  (λ h e. let taken = taken_key s k h j free e in rw taken e) (sound.cells j)));
        fresh = λ j h. rw (apart_of s.joins.next j h) (sound.fresh j (omega arith));
        known = λ h j e. elim (Bool-cases (key_eq h k)) [
          | inl same ↦
              let address : s.joins.next ≡ j = cc in
              known_at h g running s.leaders j
                (λ here. (unfold registered in refl, sym (key_eq→eq h k same)))
                (λ differs. absurd (apart_self j s.joins.next (sym address) differs))
          | inr other ↦
              let there : s.joins.map h ≡ some j = cc in
              let (l, found, reg, key) = sound.known h j there in
              known_at h g running s.leaders j
                (λ here. absurd (no_leader s j l (eq_of j s.joins.next here) found sound))
                (λ differs. (l, found, reg, key))
        ];
        own = at_phase-Own g running s.leaders sound.own;
      }

  begin-join :
      (t : LandJoins Done ApiError) (k : LandJoinKey) (head : Bytes) (i : ℕ)
      → t.map k ≡ some i
      → begin k head t ≡ (join i, t)
  unfolding begin
  begin-join t k head i h = cc

  begin-lead :
      (t : LandJoins Done ApiError) (k : LandJoinKey) (head : Bytes)
      → t.map k ≡ none
      → begin k head t ≡ (lead (record { slot_key = k; in_flight = t.next }), register k head t)
  unfolding begin
  begin-lead t k head h = cc

  abbrev slot_system :
      System Done ApiError → JoinSlot × LandJoins Done ApiError → System Done ApiError
  slot_system s (slot, t) = record { joins = t; leaders = enter slot s.leaders }

  pub request-join :
      (s : System Done ApiError) (k : LandJoinKey) (head : Bytes) (i : ℕ)
      → s.joins.map k ≡ some i
      → request k head s ≡ s
  unfolding request
  request-join s k head i h = ap (slot_system s) (begin-join s.joins k head i h)

  pub request-lead :
      (s : System Done ApiError) (k : LandJoinKey) (head : Bytes)
      → s.joins.map k ≡ none
      → request k head s ≡ record {
        joins = register k head s.joins;
        leaders = at_phase (record { slot_key = k; in_flight = s.joins.next }) running s.leaders;
      }
  unfolding request
  request-lead s k head h = ap (slot_system s) (begin-lead s.joins k head h)

  -- Every step keeps the registry sound.
  pub step-Sound : (e : ApiError) (s s' : System Done ApiError) → Step e s s' → Sound s → Sound s'
  step-Sound e s s' (begins k head) sound = elim (Option-cases (s.joins.map k)) [
    | inl free ↦ subst Sound (sym (request-lead s k head free)) (register-Sound s k head free sound)
    | inr (i, taken) ↦ subst Sound (sym (request-join s k head i taken)) sound
  ]
  step-Sound e s s' (sends g o at) sound = sends-Sound s g o at sound
  step-Sound e s s' (leaves g p at reg) sound = leaves-Sound s g p at sound
  step-Sound e s s' (ends g at) sound = ends-Sound e s g at sound

  pub run-Sound : (e : ApiError) (s s' : System Done ApiError) → Run e s s' → Sound s → Sound s'
  run-Sound e s s' (stop t) sound = sound
  run-Sound e s s' (then' t s₁ s₂ step rest) sound =
      run-Sound e s₁ s₂ rest (step-Sound e t s₁ step sound)
