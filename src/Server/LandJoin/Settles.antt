-- ===== src/Server/LandJoin/Settles.antt =====
-- crates/naatre-server/src/land_join.rs: the drop of a guard, whatever other requests and leaders do
-- before it and between its two steps.
use naatre.Prelude.{
  ℕ, zero, suc, ◌⊎◌, ◌≡◌, ◌≢◌, refl, ap, ◌∙◌, subst, true, Option, none, some, ==_refl, Bool-cases,
  Option-cases, inl, inr,
}
use naatre.Server.LandJoin.{
  LandJoinKey, LandOutcome, failed, InFlightLand, LandJoinGuard, settle, settled, reads, outcome,
}
use naatre.Server.LandJoin.Leaders.{
  Phase, running, sent, left, gone, registered, Leader, System, Run, idle,
}
use naatre.Server.LandJoin.Outcomes.{outcome-reads, run-reads}
use naatre.Server.LandJoin.Sound.{PhaseSound, CellSound, Sound, step-Sound, run-Sound, idle-Sound}
use naatre.Server.LandJoin.Dropping.{
  DropStep, unregisters, settles, Leads, run-Leads, land_at, Left, run-Left, DropStep→Step,
}

module _ {Done ApiError : Type 0} where
  abbrev pub HasOutcome : LandJoinGuard → System Done ApiError → Type 0
  HasOutcome g s = (o : LandOutcome Done ApiError) × (outcome g.in_flight s.joins ≡ some o)

  -- The land of `g` has an outcome, or will have one after at most so many steps of the drop of `g`:
  -- one of these is open, and whichever of them is taken, and whatever steps follow it before the
  -- next one, the rest leads to the outcome.
  abbrev pub Settles : ApiError → LandJoinGuard → ℕ → System Done ApiError → Type 0
  Settles e g zero s = HasOutcome g s
  Settles e g (suc n) s =
      HasOutcome g s
      ⊎ (((s₁ : System Done ApiError) × DropStep e g s s₁)
          × ((s₁ s₂ : System Done ApiError) → DropStep e g s s₁ → Run e s₁ s₂ → Settles e g n s₂))

  has_read :
      (e : ApiError) (x : Option (InFlightLand Done ApiError)) (land : InFlightLand Done ApiError)
      → x ≡ some land
      → (o : LandOutcome Done ApiError) × (reads (settled e x) ≡ some o)
  has_read e x land h = elim (Option-cases land.sent) [
    | inl nothing ↦ (failed e, rw (h, nothing) refl)
    | inr (o, there) ↦ (o, rw (h, there) there)
  ]

  leader_of :
      (map : LandJoinKey → Option ℕ) (i : ℕ) (l : Option Leader)
      (x : Option (InFlightLand Done ApiError)) (land : InFlightLand Done ApiError)
      → CellSound map i l x
      → x ≡ some land
      → (leader : Leader) × (l ≡ some leader)
        × PhaseSound map i leader.guard.slot_key leader.phase land.sent
  leader_of map i none none land h e = absurd cc
  leader_of map i none (some other) land h e = absurd h
  leader_of map i (some l) none land h e = absurd h
  leader_of map i (some l) (some other) land h e =
      let same : other ≡ land = cc in
      (l, refl, subst (λ x. PhaseSound map i l.guard.slot_key l.phase x.sent) same h)

  some_of :
      (x : Option (LandOutcome Done ApiError))
      → x ≢ none
      → (o : LandOutcome Done ApiError) × (x ≡ some o)
  some_of none h = absurd (h refl)
  some_of (some o) h = (o, refl)

  -- A guard that has left takes the last step of its drop.
  last_step :
      (e : ApiError) (g : LandJoinGuard) (s s' : System Done ApiError)
      → Sound s
      → s.leaders g.in_flight ≡ some (record { guard = g; phase = left })
      → DropStep e g s s'
      → (o : LandOutcome Done ApiError) × (reads (s'.joins.lands g.in_flight) ≡ some o)
  unfolding settle registered
  last_step e g s s' sound at (unregisters p there reg) = let one : p ≡ left = cc in absurd cc
  last_step e g s s' sound at (settles there) =
      let (land, has, phase) = land_at s g left sound at in
      let (o, read) = has_read e (s.joins.lands g.in_flight) land has in
      (o, rw (==_refl g.in_flight) read)

  -- A guard that has not left takes the first step of its drop.
  first_step :
      (e : ApiError) (g : LandJoinGuard) (s s' : System Done ApiError) (p : Phase)
      → s.leaders g.in_flight ≡ some (record { guard = g; phase = p })
      → registered p ≡ true
      → DropStep e g s s'
      → Left g s'
  unfolding registered
  first_step e g s s' p at reg (unregisters q there regq) =
      (left, rw (==_refl g.in_flight) refl, refl)
  first_step e g s s' p at reg (settles there) = let one : p ≡ left = cc in absurd cc

  has_outcome :
      (s : System Done ApiError) (g : LandJoinGuard)
      → Sound s
      → s.leaders g.in_flight ≡ some (record { guard = g; phase = gone })
      → HasOutcome g s
  unfolding outcome
  has_outcome s g sound at =
      let (land, there, told) = land_at s g gone sound at in
      let (o, read) = some_of land.sent told in (o, ap reads there ∙ read)

  left-Settles :
      (e : ApiError) (s : System Done ApiError) (g : LandJoinGuard)
      → Sound s
      → Left g s
      → Settles e g 1 s
  unfolding registered
  left-Settles e s g sound (running, at, off) = absurd cc
  left-Settles e s g sound (sent, at, off) = absurd cc
  left-Settles e s g sound (left, at, off) = inr (
    (_, settles at),
    λ s₁ s₂ step later.
        let (o, read) = last_step e g s s₁ sound at step in
        let kept =
          run-reads e s₁ s₂ g.in_flight o (step-Sound e s s₁ (DropStep→Step e g s s₁ step) sound)
            later read in
        (o, outcome-reads g.in_flight s₂.joins ∙ kept),
  )
  left-Settles e s g sound (gone, at, off) = inl (has_outcome s g sound at)

  registered-Settles :
      (e : ApiError) (s : System Done ApiError) (g : LandJoinGuard) (p : Phase)
      → Sound s
      → s.leaders g.in_flight ≡ some (record { guard = g; phase = p })
      → registered p ≡ true
      → Settles e g 2 s
  registered-Settles e s g p sound at reg = inr (
    (_, unregisters p at reg),
    λ s₁ s₂ step later.
        let sound₁ = step-Sound e s s₁ (DropStep→Step e g s s₁ step) sound in
        left-Settles e s₂ g (run-Sound e s₁ s₂ later sound₁)
          (run-Left e s₁ s₂ g sound₁ later (first_step e g s s₁ p at reg step)),
  )

  -- A bound may be larger.
  one_more :
      (e : ApiError) (s : System Done ApiError) (g : LandJoinGuard)
      → Settles e g 1 s
      → Settles e g 2 s
  one_more e s g (inl told) = inl told
  one_more e s g (inr (opened, rest)) =
      inr (opened, λ s₁ s₂ step later. inl (rest s₁ s₂ step later))

  leads-Settles :
      (e : ApiError) (s : System Done ApiError) (g : LandJoinGuard)
      → Sound s
      → Leads g s
      → Settles e g 2 s
  leads-Settles e s g sound (p, at) = elim (Bool-cases (registered p)) [
    | inl reg ↦ registered-Settles e s g p sound at reg
    | inr off ↦ one_more e s g (left-Settles e s g sound (p, at, off))
  ]

  -- In any state that requests and leaders reach, a land has a leader, whose guard leads it also after any
  -- further steps of requests and leaders. Then the land has an outcome, or a step of the drop of this
  -- guard is open; and at most two steps of this drop are taken before the land has an outcome, whatever
  -- steps requests and leaders take between the two and after them.
  pub land_settles :
      (e : ApiError) (s s' : System Done ApiError) (i : ℕ) (land : InFlightLand Done ApiError)
      → Run e (idle Done ApiError) s
      → Run e s s'
      → s.joins.lands i ≡ some land
      → (g : LandJoinGuard) × (g.in_flight ≡ i) × Leads g s × Leads g s' × Settles e g 2 s'
  land_settles e s s' i land run later there =
      let sound = run-Sound e (idle Done ApiError) s run idle-Sound in
      let (l, at, phase) =
        leader_of s.joins.map i (s.leaders i) (s.joins.lands i) land (sound.cells i) there in
      let own = sound.own i l at in
      let leads : Leads l.guard s = (l.phase, ap s.leaders own ∙ at) in
      let leads' = run-Leads e s s' l.guard sound later leads in
      (
        l.guard,
        own,
        leads,
        leads',
        leads-Settles e s' l.guard (run-Sound e s s' later sound) leads',
      )
