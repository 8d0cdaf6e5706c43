-- ===== src/Server/LandJoin.antt =====
-- crates/naatre-server/src/land_join.rs: the registry of in-flight lands. An `Arc<InFlightLand>` is an
-- address, and `lands` the heap below `next`; the registry's map is a function. A `watch` channel is
-- the value that it holds, which every subscriber reads. What the mutex guards is one function here.
pub mod Leaders
pub mod Known
pub mod Sound
pub mod Joined
pub mod Outcomes
pub mod Dropping
pub mod Settles
use naatre.Prelude.{
  ℕ, suc, ◌≡◌, Bool, true, false, ◌&&◌, Option, none, some, Bytes, bytes_eq, ◌==◌, if◌then◌else◌,
}

pub record LandJoinKey : Type 0 where
  pub repo : Bytes
  pub principal : Bytes
  pub key : Bytes

unfoldable pub key_eq : LandJoinKey → LandJoinKey → Bool
key_eq a c = bytes_eq a.repo c.repo && (bytes_eq a.principal c.principal && bytes_eq a.key c.key)

-- `LandDone` and `ApiError` are left open: the registry only passes them on.
pub data LandOutcome (Done ApiError : Type 0) : Type 0 where
  done : Done → LandOutcome Done ApiError
  failed : ApiError → LandOutcome Done ApiError

-- `sent` is what the watch channel holds.
pub record InFlightLand (Done ApiError : Type 0) : Type 0 where
  pub head : Bytes
  pub sent : Option (LandOutcome Done ApiError)

pub record LandJoins (Done ApiError : Type 0) : Type 0 where
  pub map : LandJoinKey → Option ℕ
  pub lands : ℕ → Option (InFlightLand Done ApiError)
  pub next : ℕ

pub record LandJoinGuard : Type 0 where
  pub slot_key : LandJoinKey
  pub in_flight : ℕ

pub data JoinSlot : Type 0 where
  join : ℕ → JoinSlot
  lead : LandJoinGuard → JoinSlot

abbrev pub is_same : Option ℕ → ℕ → Bool
is_same none i = false
is_same (some j) i = j == i

abbrev pub new_registry : (Done ApiError : Type 0) → LandJoins Done ApiError
new_registry Done ApiError = record { map = λ k. none; lands = λ i. none; next = 0 }

module _ {Done ApiError : Type 0} where
  -- `InFlightLand::new`
  abbrev pub new_land : Bytes → InFlightLand Done ApiError
  new_land head = record { head = head; sent = none }

  -- The registration of a new land.
  unfoldable pub register : LandJoinKey → Bytes → LandJoins Done ApiError → LandJoins Done ApiError
  register k head s = record {
    map = λ j. if key_eq j k then some s.next else s.map j;
    lands = λ i. if i == s.next then some (new_land head) else s.lands i;
    next = suc s.next;
  }

  unfoldable pub begin :
      LandJoinKey → Bytes → LandJoins Done ApiError → JoinSlot × LandJoins Done ApiError
  begin k head s = elim (s.map k) [
    | some i ↦ (join i, s)
    | none ↦ (lead (record { slot_key = k; in_flight = s.next }), register k head s)
  ]

  abbrev pub with_sent :
      LandOutcome Done ApiError
      → Option (InFlightLand Done ApiError)
      → Option (InFlightLand Done ApiError)
  with_sent o none = none
  with_sent o (some land) = some (record land { sent = some o })

  -- `tx.send(Some(outcome))`
  unfoldable pub send :
      LandJoinGuard → LandOutcome Done ApiError → LandJoins Done ApiError → LandJoins Done ApiError
  send g o s = record s {
    lands = λ i. if i == g.in_flight then with_sent o (s.lands i) else s.lands i;
  }

  -- What `drop` does under the registry's lock.
  unfoldable pub deregister : LandJoinGuard → LandJoins Done ApiError → LandJoins Done ApiError
  deregister g s = record s {
    map = λ j.
        if key_eq j g.slot_key && is_same (s.map g.slot_key) g.in_flight then none else s.map j;
  }

  abbrev pub settled :
      ApiError → Option (InFlightLand Done ApiError) → Option (InFlightLand Done ApiError)
  settled e none = none
  settled e (some land) = elim land.sent [
    | none ↦ some (record land { sent = some (failed e) })
    | some o ↦ some land
  ]

  -- The `send_if_modified` of `drop`, where `e` is `ApiError::internal()`.
  unfoldable pub settle :
      ApiError → LandJoinGuard → LandJoins Done ApiError → LandJoins Done ApiError
  settle e g s = record s {
    lands = λ i. if i == g.in_flight then settled e (s.lands i) else s.lands i;
  }

  unfoldable pub drop_guard :
      ApiError → LandJoinGuard → LandJoins Done ApiError → LandJoins Done ApiError
  drop_guard e g s = settle e g (deregister g s)

  -- `publish` takes the guard, which is dropped at its end.
  unfoldable pub publish :
      ApiError
      → LandJoinGuard
      → LandOutcome Done ApiError
      → LandJoins Done ApiError
      → LandJoins Done ApiError
  publish e g o s = drop_guard e g (send g o s)

  -- What a subscriber of a land reads: `None` while it is in flight.
  abbrev pub reads : Option (InFlightLand Done ApiError) → Option (LandOutcome Done ApiError)
  reads none = none
  reads (some land) = land.sent

  unfoldable pub outcome : ℕ → LandJoins Done ApiError → Option (LandOutcome Done ApiError)
  outcome i s = reads (s.lands i)
