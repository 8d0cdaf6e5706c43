-- ===== src/Server/LandJoin/Leaders.antt =====
-- crates/naatre-server/src/land_join.rs: the leaders of lands and the steps that they take. A step is a
-- call that holds the registry's lock or sends on a channel: other requests may step in between.
use naatre.Prelude.{ℕ, ◌≡◌, Bool, true, false, Option, none, some, Bytes, ◌==◌, if◌then◌else◌}
use naatre.Server.LandJoin.{
  LandJoinKey, LandOutcome, LandJoins, LandJoinGuard, JoinSlot, join, lead, new_registry, begin,
  send, deregister, settle,
}

-- Where a leader stands: its land runs, it has sent the outcome, its guard has left the registry, or
-- it is gone.
pub data Phase : Type 0 where
  running sent left gone : Phase

-- Whether the guard is still in the registry.
unfoldable pub registered : Phase → Bool
registered running = true
registered sent = true
registered left = false
registered gone = false

pub record Leader : Type 0 where
  pub guard : LandJoinGuard
  pub phase : Phase

-- The registry, and the leader of each land by the land's address.
pub record System (Done ApiError : Type 0) : Type 0 where
  pub joins : LandJoins Done ApiError
  pub leaders : ℕ → Option Leader

abbrev pub at_phase : LandJoinGuard → Phase → (ℕ → Option Leader) → ℕ → Option Leader
at_phase g p leaders i =
    if i == g.in_flight then some (record { guard = g; phase = p }) else leaders i

abbrev pub enter : JoinSlot → (ℕ → Option Leader) → ℕ → Option Leader
enter (join j) leaders = leaders
enter (lead g) leaders = at_phase g running leaders

module _ {Done ApiError : Type 0} where
  -- A request begins: it joins, or leads from then on.
  unfoldable pub request : LandJoinKey → Bytes → System Done ApiError → System Done ApiError
  request k head s = record {
    joins = (begin k head s.joins).1;
    leaders = enter (begin k head s.joins).0 s.leaders;
  }

  -- One step of a request or of a leader. A leader whose task dies leaves without sending.
  pub data Step (e : ApiError) (s : System Done ApiError) : System Done ApiError → Type 0 where
    begins : (k : LandJoinKey) (head : Bytes) → Step e s (request k head s)
    sends :
        (g : LandJoinGuard) (o : LandOutcome Done ApiError)
        → s.leaders g.in_flight ≡ some (record { guard = g; phase = running })
        → Step e s (record { joins = send g o s.joins; leaders = at_phase g sent s.leaders })
    leaves :
        (g : LandJoinGuard) (p : Phase)
        → s.leaders g.in_flight ≡ some (record { guard = g; phase = p })
        → registered p ≡ true
        → Step e s (record { joins = deregister g s.joins; leaders = at_phase g left s.leaders })
    ends :
        (g : LandJoinGuard)
        → s.leaders g.in_flight ≡ some (record { guard = g; phase = left })
        → Step e s (record { joins = settle e g s.joins; leaders = at_phase g gone s.leaders })

  pub data Run (e : ApiError) : System Done ApiError → System Done ApiError → Type 0 where
    stop : (s : System Done ApiError) → Run e s s
    then' : (s s₁ s₂ : System Done ApiError) → Step e s s₁ → Run e s₁ s₂ → Run e s s₂

abbrev pub idle : (Done ApiError : Type 0) → System Done ApiError
idle Done ApiError = record { joins = new_registry Done ApiError; leaders = λ i. none }
