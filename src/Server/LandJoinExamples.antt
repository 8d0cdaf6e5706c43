-- ===== src/Server/LandJoinExamples.antt =====
-- Two requests for one land of crates/naatre-server/src/land_join.rs: the second joins the first.
use naatre.Prelude.{ℕ, ◌≡◌, refl, none, some, true, codes}
use naatre.Server.LandJoin
use naatre.Server.LandJoin.{
  LandJoinKey, LandOutcome, done, InFlightLand, LandJoinGuard, join, begin, send, publish, new_land,
  outcome,
}
use naatre.Server.LandJoin.Leaders.{
  running, sent, registered, Leader, System, at_phase, request, begins, sends, Run, stop, then',
  idle,
}
use naatre.Server.LandJoin.Joined.{one_leader, begin-joins}
use naatre.Server.LandJoin.Outcomes.{outcome_stays, publish-outcome}
use naatre.Server.LandJoin.Dropping.{Leads}
use naatre.Server.LandJoin.Settles.{Settles, land_settles}

abbrev land_key : LandJoinKey
land_key = record { repo = codes "r"; principal = codes "p"; key = codes "k" }

-- The results of lands and the errors are numbers here.
abbrev Numbered : Type 0
Numbered = System ℕ ℕ

abbrev led : Numbered
led = request land_key (codes "h") (idle ℕ ℕ)

abbrev led_run : Run 500 (idle ℕ ℕ) led
led_run = then' (idle ℕ ℕ) led led (begins land_key (codes "h")) (stop led)

abbrev first_guard : LandJoinGuard
first_guard = record { slot_key = land_key; in_flight = 0 }

abbrev first_leader : Leader
first_leader = record { guard = first_guard; phase = running }

leads : led.leaders 0 ≡ some first_leader
unfolding request begin
leads = refl

still_registered : registered running ≡ true
unfolding registered
still_registered = refl

one_leader_example : ◌≡◌ {A = ℕ} 0 0
one_leader_example =
    one_leader 500 led 0 0 first_leader first_leader led_run leads leads still_registered
      still_registered refl

second_joins : (begin land_key (codes "h") led.joins).0 ≡ join 0
unfolding request begin LandJoin.register LandJoin.key_eq
second_joins = refl

begin-joins_example :
    (l : Leader) × (led.leaders 0 ≡ some l)
    × (registered l.phase ≡ true)
    × (l.guard.slot_key ≡ land_key)
begin-joins_example = begin-joins 500 led land_key (codes "h") 0 led_run second_joins

abbrev told : Numbered
told = record {
  joins = send first_guard (done 7) led.joins;
  leaders = at_phase first_guard sent led.leaders;
}

abbrev told_run : Run 500 led told
told_run = then' led told told (sends first_guard (done 7) leads) (stop told)

abbrev whole_run : Run 500 (idle ℕ ℕ) told
whole_run = then' (idle ℕ ℕ) led told (begins land_key (codes "h")) told_run

told_outcome : outcome 0 told.joins ≡ some (done 7)
unfolding outcome send request begin LandJoin.register
told_outcome = refl

abbrev asked : Numbered
asked = request land_key (codes "h") told

outcome_stays_example : outcome 0 asked.joins ≡ some (done 7)
outcome_stays_example =
    outcome_stays 500 told asked 0 (done 7) whole_run
      (then' told asked asked (begins land_key (codes "h")) (stop asked)) told_outcome

led_land : led.joins.lands 0 ≡ some (new_land (codes "h"))
unfolding request begin LandJoin.register
led_land = refl

land_settles_example :
    (g : LandJoinGuard) × (g.in_flight ≡ 0) × Leads g led × Leads g told × Settles 500 g 2 told
land_settles_example = land_settles 500 led told 0 (new_land (codes "h")) led_run told_run led_land

publish-outcome_example :
    (outcome 0 (publish 500 first_guard (done 7) led.joins) ≡ some (done 7))
    × ((publish 500 first_guard (done 7) led.joins).map land_key ≡ none)
publish-outcome_example = publish-outcome 500 led first_guard (done 7) led_run leads
