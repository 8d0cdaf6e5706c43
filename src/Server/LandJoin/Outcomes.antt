-- ===== src/Server/LandJoin/Outcomes.antt =====
-- crates/naatre-server/src/land_join.rs: the outcome that the subscribers of a land read.
use naatre.Prelude.{
  ℕ, ◌≡◌, refl, sym, ap, ◌∙◌, subst, arith, Bool, true, false, Option, none, some, ◌==◌, ==_iff,
  ==_refl, if◌then◌else◌, Option-cases, inl, inr,
}
use naatre.Server.LandJoin.{
  LandJoinKey, LandOutcome, InFlightLand, LandJoins, LandJoinGuard, register, new_land, send,
  deregister, settle, with_sent, settled, drop_guard, publish, reads, outcome,
}
use naatre.Server.LandJoin.Leaders.{
  running, System, Step, begins, sends, leaves, ends, Run, stop, then', idle,
}
use naatre.Server.LandJoin.Known.{key_eq_refl}
use naatre.Server.LandJoin.Sound.{
  CellSound, Sound, request-join, request-lead, step-Sound, run-Sound, idle-Sound,
}

module _ {Done ApiError : Type 0} where
  pub outcome-reads : (i : ℕ) (s : LandJoins Done ApiError) → outcome i s ≡ reads (s.lands i)
  unfolding outcome
  outcome-reads i s = refl

  -- What is read stays where the address is another, and where a change of the address keeps it.
  kept_if :
      (b : Bool) (x y : Option (InFlightLand Done ApiError)) (o : LandOutcome Done ApiError)
      → reads x ≡ some o
      → (b ≡ true → reads y ≡ some o)
      → reads (if b then y else x) ≡ some o
  kept_if true x y o h k = k refl
  kept_if false x y o h k = h

  settled_keeps :
      (e : ApiError) (x : Option (InFlightLand Done ApiError)) (o : LandOutcome Done ApiError)
      → reads x ≡ some o
      → reads (settled e x) ≡ some o
  settled_keeps e none o h = h
  settled_keeps e (some land) o h = rw h h

  running_reads :
      (map : LandJoinKey → Option ℕ) (i : ℕ) (g : LandJoinGuard)
      (x : Option (InFlightLand Done ApiError))
      → CellSound map i (some (record { guard = g; phase = running })) x
      → reads x ≡ none
  running_reads map i g none h = refl
  running_reads map i g (some land) h = h.1

  -- The lands of one step.
  step-reads :
      (e : ApiError) (s s' : System Done ApiError) (i : ℕ) (o : LandOutcome Done ApiError)
      → Sound s
      → Step e s s'
      → reads (s.joins.lands i) ≡ some o
      → reads (s'.joins.lands i) ≡ some o
  unfolding send deregister settle register
  step-reads e s s' i o sound (begins k head) h = elim (Option-cases (s.joins.map k)) [
    | inl free ↦
        subst (λ t. reads (t.joins.lands i) ≡ some o) (sym (request-lead s k head free))
          (kept_if (i == s.joins.next) (s.joins.lands i) (some (new_land head)) o h (λ at.
            let nothing = sound.fresh i (omega (arith, (==_iff i s.joins.next).0 at)) in
            let unread = ap reads nothing in absurd cc))
    | inr (j, taken) ↦
        subst (λ t. reads (t.joins.lands i) ≡ some o) (sym (request-join s k head j taken)) h
  ]
  step-reads e s s' i o sound (sends g sent_o at) h =
      kept_if (i == g.in_flight) (s.joins.lands i) (with_sent sent_o (s.joins.lands i)) o h (λ same.
        let here = (==_iff i g.in_flight).0 same in
        let leader = ap s.leaders here ∙ at in
        let unread =
          running_reads s.joins.map i g (s.joins.lands i)
            (subst (λ l. CellSound s.joins.map i l (s.joins.lands i)) leader (sound.cells i)) in
        absurd cc)
  step-reads e s s' i o sound (leaves g p at reg) h = h
  step-reads e s s' i o sound (ends g at) h =
      kept_if (i == g.in_flight) (s.joins.lands i) (settled e (s.joins.lands i)) o h
        (λ same. settled_keeps e (s.joins.lands i) o h)

  pub run-reads :
      (e : ApiError) (s s' : System Done ApiError) (i : ℕ) (o : LandOutcome Done ApiError)
      → Sound s
      → Run e s s'
      → reads (s.joins.lands i) ≡ some o
      → reads (s'.joins.lands i) ≡ some o
  run-reads e s s' i o sound (stop t) h = h
  run-reads e s s' i o sound (then' t s₁ s₂ step rest) h =
      run-reads e s₁ s₂ i o (step-Sound e t s₁ step sound) rest (step-reads e t s₁ i o sound step h)

  -- Once a land has an outcome, no later step of any request or leader changes it: all of its
  -- subscribers read the same.
  pub outcome_stays :
      (e : ApiError) (s s' : System Done ApiError) (i : ℕ) (o : LandOutcome Done ApiError)
      → Run e (idle Done ApiError) s
      → Run e s s'
      → outcome i s.joins ≡ some o
      → outcome i s'.joins ≡ some o
  outcome_stays e s s' i o before after h =
      outcome-reads i s'.joins
      ∙ run-reads e s s' i o (run-Sound e (idle Done ApiError) s before idle-Sound) after
          (sym (outcome-reads i s.joins) ∙ h)

  published :
      (e : ApiError) (g : LandJoinGuard) (o : LandOutcome Done ApiError)
      (s : LandJoins Done ApiError) (land : InFlightLand Done ApiError)
      → s.lands g.in_flight ≡ some land
      → s.map g.slot_key ≡ some g.in_flight
      → (outcome g.in_flight (publish e g o s) ≡ some o) × ((publish e g o s).map g.slot_key ≡ none)
  unfolding publish drop_guard send deregister settle outcome
  published e g o s land there listed = (
    rw (==_refl g.in_flight, there) refl,
    rw (key_eq_refl g.slot_key, listed, ==_refl g.in_flight) refl,
  )

  -- A leader whose land runs publishes: its subscribers read the outcome that it published, also after
  -- its guard is dropped, and a request with its key finds no land to join.
  pub publish-outcome :
      (e : ApiError) (s : System Done ApiError) (g : LandJoinGuard) (o : LandOutcome Done ApiError)
      → Run e (idle Done ApiError) s
      → s.leaders g.in_flight ≡ some (record { guard = g; phase = running })
      → (outcome g.in_flight (publish e g o s.joins) ≡ some o)
        × ((publish e g o s.joins).map g.slot_key ≡ none)
  publish-outcome e s g o run at =
      let sound = run-Sound e (idle Done ApiError) s run idle-Sound in
      let cell =
        subst (λ l. CellSound s.joins.map g.in_flight l (s.joins.lands g.in_flight)) at
          (sound.cells g.in_flight) in
      elim (Option-cases (s.joins.lands g.in_flight)) [
        | inl nothing ↦ absurd (
            subst
              (λ x.
                CellSound s.joins.map g.in_flight (some (record { guard = g; phase = running })) x)
              nothing cell)
        | inr (land, there) ↦
            let here =
              subst
                (λ x.
                  CellSound s.joins.map g.in_flight (some (record { guard = g; phase = running }))
                    x)
                there cell in
            published e g o s.joins land there here.0
      ]
