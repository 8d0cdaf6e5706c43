-- ===== src/Server/LandJoin/Dropping.antt =====
-- crates/naatre-server/src/land_join.rs: the drop of a guard, and what every step keeps of the leader
-- of a land.
use naatre.Prelude.{
  ℕ, ◌≡◌, refl, sym, ◌∙◌, subst, true, false, Option, none, some, ◌==◌, Bool-cases, Option-cases,
  inl, inr,
}
use naatre.Server.LandJoin.{LandJoinKey, InFlightLand, LandJoinGuard, deregister, settle}
use naatre.Server.LandJoin.Leaders.{
  Phase, running, sent, left, gone, registered, Leader, System, at_phase, Step, begins, sends,
  leaves, ends, Run, stop, then',
}
use naatre.Server.LandJoin.Known.{eq_of}
use naatre.Server.LandJoin.Sound.{
  PhaseSound, CellSound, Sound, request-join, request-lead, no_leader, step-Sound,
}

-- A leader's own step moves the phase of its own guard alone.
moves-Leads :
    (g h : LandJoinGuard) (p : Phase) (q : Phase) (leaders : ℕ → Option Leader)
    → leaders h.in_flight ≡ some (record { guard = h; phase = p })
    → (r : Phase) × (leaders g.in_flight ≡ some (record { guard = g; phase = r }))
    → (r : Phase) × (at_phase h q leaders g.in_flight ≡ some (record { guard = g; phase = r }))
moves-Leads g h p q leaders at (r, there) = elim (Bool-cases (g.in_flight == h.in_flight)) [
  | inl same ↦
      let address = eq_of g.in_flight h.in_flight same in
      let one : h ≡ g = cc in (q, rw (same, one) refl)
  | inr other ↦ (r, rw other there)
]

module _ {Done ApiError : Type 0} where
  -- The two steps of the drop of the guard `g`: what it does under the registry's lock, and then what
  -- it does to its channel. Nothing but the guard's own phase decides whether one is open.
  pub data DropStep (e : ApiError) (g : LandJoinGuard) (s : System Done ApiError)
      : System Done ApiError → Type 0 where
    unregisters :
        (p : Phase)
        → s.leaders g.in_flight ≡ some (record { guard = g; phase = p })
        → registered p ≡ true
        → DropStep e g s
            (record { joins = deregister g s.joins; leaders = at_phase g left s.leaders })
    settles :
        s.leaders g.in_flight ≡ some (record { guard = g; phase = left })
        → DropStep e g s
            (record { joins = settle e g s.joins; leaders = at_phase g gone s.leaders })

  -- The guard `g` leads the land at its address.
  abbrev pub Leads : LandJoinGuard → System Done ApiError → Type 0
  Leads g s = (p : Phase) × (s.leaders g.in_flight ≡ some (record { guard = g; phase = p }))

  -- A new leader takes no land that has one.
  new_apart :
      (s : System Done ApiError) (g : LandJoinGuard) (p : Phase) (h : LandJoinGuard)
      → Sound s
      → h.in_flight ≡ s.joins.next
      → s.leaders g.in_flight ≡ some (record { guard = g; phase = p })
      → at_phase h running s.leaders g.in_flight ≡ some (record { guard = g; phase = p })
  new_apart s g p h sound new there = elim (Bool-cases (g.in_flight == h.in_flight)) [
    | inl same ↦ absurd (
        no_leader s g.in_flight (record { guard = g; phase = p })
          (eq_of g.in_flight h.in_flight same ∙ new) there sound)
    | inr other ↦ rw other there
  ]

  -- No step of any request or leader takes a land from its leader.
  step-Leads :
      (e : ApiError) (s s' : System Done ApiError) (g : LandJoinGuard)
      → Sound s
      → Step e s s'
      → Leads g s
      → Leads g s'
  step-Leads e s s' g sound (begins k head) (p, there) = elim (Option-cases (s.joins.map k)) [
    | inl free ↦
        subst (Leads g) (sym (request-lead s k head free))
          (p, new_apart s g p (record { slot_key = k; in_flight = s.joins.next }) sound refl there)
    | inr (j, taken) ↦ subst (Leads g) (sym (request-join s k head j taken)) (p, there)
  ]
  step-Leads e s s' g sound (sends h o at) leads = moves-Leads g h running sent s.leaders at leads
  step-Leads e s s' g sound (leaves h p at reg) leads = moves-Leads g h p left s.leaders at leads
  step-Leads e s s' g sound (ends h at) leads = moves-Leads g h left gone s.leaders at leads

  pub run-Leads :
      (e : ApiError) (s s' : System Done ApiError) (g : LandJoinGuard)
      → Sound s
      → Run e s s'
      → Leads g s
      → Leads g s'
  run-Leads e s s' g sound (stop t) leads = leads
  run-Leads e s s' g sound (then' t s₁ s₂ step rest) leads =
      run-Leads e s₁ s₂ g (step-Sound e t s₁ step sound) rest (step-Leads e t s₁ g sound step leads)

  -- A leader of a sound system has a land.
  land_of :
      (map : LandJoinKey → Option ℕ) (i : ℕ) (l : Leader) (x : Option (InFlightLand Done ApiError))
      → CellSound map i (some l) x
      → (land : InFlightLand Done ApiError) × (x ≡ some land)
        × PhaseSound map i l.guard.slot_key l.phase land.sent
  land_of map i l none h = absurd h
  land_of map i l (some land) h = (land, refl, h)

  pub land_at :
      (s : System Done ApiError) (g : LandJoinGuard) (p : Phase)
      → Sound s
      → s.leaders g.in_flight ≡ some (record { guard = g; phase = p })
      → (land : InFlightLand Done ApiError) × (s.joins.lands g.in_flight ≡ some land)
        × PhaseSound s.joins.map g.in_flight g.slot_key p land.sent
  land_at s g p sound at =
      land_of s.joins.map g.in_flight (record { guard = g; phase = p }) (s.joins.lands g.in_flight)
        (subst (λ o. CellSound s.joins.map g.in_flight o (s.joins.lands g.in_flight)) at
          (sound.cells g.in_flight))

  -- The guard `g` leads the land at its address and has left the registry.
  abbrev pub Left : LandJoinGuard → System Done ApiError → Type 0
  Left g s =
      (p : Phase) × (s.leaders g.in_flight ≡ some (record { guard = g; phase = p }))
      × (registered p ≡ false)

  step-Left :
      (e : ApiError) (s s' : System Done ApiError) (g : LandJoinGuard)
      → Sound s
      → Step e s s'
      → Left g s
      → Left g s'
  unfolding registered
  step-Left e s s' g sound (begins k head) (p, there, off) = elim (Option-cases (s.joins.map k)) [
    | inl free ↦ subst (Left g) (sym (request-lead s k head free)) (
      p,
      new_apart s g p (record { slot_key = k; in_flight = s.joins.next }) sound refl there,
      off,
    )
    | inr (j, taken) ↦ subst (Left g) (sym (request-join s k head j taken)) (p, there, off)
  ]
  step-Left e s s' g sound (sends h o at) (p, there, off) =
      elim (Bool-cases (g.in_flight == h.in_flight)) [
        | inl same ↦
            let address = eq_of g.in_flight h.in_flight same in
            let one : running ≡ p = cc in absurd cc
        | inr other ↦ (p, rw other there, off)
      ]
  step-Left e s s' g sound (leaves h q at reg) (p, there, off) =
      elim (Bool-cases (g.in_flight == h.in_flight)) [
        | inl same ↦
            let address = eq_of g.in_flight h.in_flight same in let one : q ≡ p = cc in absurd cc
        | inr other ↦ (p, rw other there, off)
      ]
  step-Left e s s' g sound (ends h at) (p, there, off) =
      elim (Bool-cases (g.in_flight == h.in_flight)) [
        | inl same ↦
            let address = eq_of g.in_flight h.in_flight same in
            let one : h ≡ g = cc in (gone, rw (same, one) refl, refl)
        | inr other ↦ (p, rw other there, off)
      ]

  pub run-Left :
      (e : ApiError) (s s' : System Done ApiError) (g : LandJoinGuard)
      → Sound s
      → Run e s s'
      → Left g s
      → Left g s'
  run-Left e s s' g sound (stop t) h = h
  run-Left e s s' g sound (then' t s₁ s₂ step rest) h =
      run-Left e s₁ s₂ g (step-Sound e t s₁ step sound) rest (step-Left e t s₁ g sound step h)

  pub DropStep→Step :
      (e : ApiError) (g : LandJoinGuard) (s s' : System Done ApiError)
      → DropStep e g s s'
      → Step e s s'
  DropStep→Step e g s s' (unregisters p at reg) = leaves g p at reg
  DropStep→Step e g s s' (settles at) = ends g at
