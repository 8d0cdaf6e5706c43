-- ===== src/Server/LandJoin/Known.antt =====
-- crates/naatre-server/src/land_join.rs: the registry's entries and the leaders that they name.
use naatre.Prelude.{
  ℕ, suc, ◌≤◌, ◌≡◌, refl, sym, ap, ◌∙◌, subst, arith, Bool, true, false, ◌&&◌, Option, none, some,
  ◌==◌, ==_iff, bytes_eq, bytes_eq→eq, bytes_eq_refl, if◌then◌else◌, Bool-cases, inl, inr, and_true,
}
use naatre.Server.LandJoin.{LandJoinKey, key_eq, LandJoinGuard, is_same}
use naatre.Server.LandJoin.Leaders.{Phase, registered, Leader, at_phase}

pub key_eq→eq : (a c : LandJoinKey) → key_eq a c ≡ true → a ≡ c
unfolding key_eq
key_eq→eq a c h =
    let (repos, rest) = and_true (bytes_eq a.repo c.repo) _ h in
    let (principals, keys) = and_true (bytes_eq a.principal c.principal) _ rest in
    let r = bytes_eq→eq a.repo c.repo repos in
    let p = bytes_eq→eq a.principal c.principal principals in
    let k = bytes_eq→eq a.key c.key keys in cc

pub key_eq_refl : (a : LandJoinKey) → key_eq a a ≡ true
unfolding key_eq
key_eq_refl a = rw (bytes_eq_refl a.repo, bytes_eq_refl a.principal, bytes_eq_refl a.key) refl

pub eq_of : (i j : ℕ) → (i == j) ≡ true → i ≡ j
eq_of i j h = (==_iff i j).0 h

-- The map's entry of a key is a leader with that key that has not left.
abbrev pub Known : (LandJoinKey → Option ℕ) → (ℕ → Option Leader) → Type 0
Known map leaders =
    (k : LandJoinKey) (i : ℕ)
    → map k ≡ some i
    → (l : Leader) × (leaders i ≡ some l) × (registered l.phase ≡ true) × (l.guard.slot_key ≡ k)

pub by_address : (P : ℕ → Type 0) (i : ℕ) → P i → ((j : ℕ) → (j == i) ≡ false → P j) → (j : ℕ) → P j
by_address P i here other j = elim (Bool-cases (j == i)) [
  | inl same ↦ subst P (sym (eq_of j i same)) here
  | inr differs ↦ other j differs
]

-- The leader at its own address, and the others.
pub known_at :
    (k : LandJoinKey) (g : LandJoinGuard) (p : Phase) (leaders : ℕ → Option Leader) (j : ℕ)
    → ((j == g.in_flight) ≡ true → (registered p ≡ true) × (g.slot_key ≡ k))
    → ((j == g.in_flight) ≡ false
        → (l : Leader) × (leaders j ≡ some l)
          × (registered l.phase ≡ true)
          × (l.guard.slot_key ≡ k))
    → (l : Leader) × (at_phase g p leaders j ≡ some l)
      × (registered l.phase ≡ true)
      × (l.guard.slot_key ≡ k)
known_at k g p leaders j here other = elim (Bool-cases (j == g.in_flight)) [
  | inl same ↦
      let (reg, key) = here same in rw same (record { guard = g; phase = p }, refl, reg, key)
  | inr differs ↦ rw differs (other differs)
]

-- The leader that the map's entry names, where the address is that of a known leader.
pub known_self :
    (g : LandJoinGuard) (p : Phase) (l : Leader) (leaders : ℕ → Option Leader) (j : ℕ)
    → leaders g.in_flight ≡ some (record { guard = g; phase = p })
    → (j == g.in_flight) ≡ true
    → leaders j ≡ some l
    → l ≡ record { guard = g; phase = p }
known_self g p l leaders j at same found = let e = eq_of j g.in_flight same in cc

-- A known leader that moves on without leaving stays known.
pub known_advance :
    (map : LandJoinKey → Option ℕ) (leaders : ℕ → Option Leader) (g : LandJoinGuard) (p q : Phase)
    → leaders g.in_flight ≡ some (record { guard = g; phase = p })
    → (registered p ≡ true → registered q ≡ true)
    → Known map leaders
    → Known map (at_phase g q leaders)
known_advance map leaders g p q at stays known k j h =
    let (l, found, reg, key) = known k j h in
    known_at k g q leaders j
      (λ same.
        let self = known_self g p l leaders j at same found in
        (
          stays (subst (λ m. registered m.phase ≡ true) self reg),
          subst (λ m. m.guard.slot_key ≡ k) self key,
        ))
      (λ differs. (l, found, reg, key))

-- A leader stands at the address of its land.
abbrev pub Own : (ℕ → Option Leader) → Type 0
Own leaders = (i : ℕ) (l : Leader) → leaders i ≡ some l → l.guard.in_flight ≡ i

pub at_phase-Own :
    (g : LandJoinGuard) (p : Phase) (leaders : ℕ → Option Leader)
    → Own leaders
    → Own (at_phase g p leaders)
at_phase-Own g p leaders own i l h = elim (Bool-cases (i == g.in_flight)) [
  | inl same ↦
      let self : record { guard = g; phase = p } ≡ l = cc in
      ap (λ m. m.guard.in_flight) (sym self) ∙ sym (eq_of i g.in_flight same)
  | inr differs ↦ own i l (cc)
]

-- The map without the entry of a guard.
abbrev without : LandJoinGuard → (LandJoinKey → Option ℕ) → LandJoinKey → Option ℕ
without g map k =
    if key_eq k g.slot_key && is_same (map g.slot_key) g.in_flight then none else map k

and_false : (a b : Bool) → (a ≡ true → b ≡ false) → (a && b) ≡ false
and_false true b h = h refl
and_false false b h = refl

pub apart_self : (i j : ℕ) → i ≡ j → (i == j) ≡ false → ⊥
apart_self i j h k = ground arith

and_right : (a b : Bool) → a ≡ true → (a && b) ≡ false → b ≡ false
and_right a b h k = ground arith

pub apart_of : (i j : ℕ) → suc i ≤ j → (j == i) ≡ false
apart_of i j h = ground arith

-- The other guards' entries stay.
pub without_other :
    (g : LandJoinGuard) (map : LandJoinKey → Option ℕ) (j : ℕ) (k : LandJoinKey)
    → (j == g.in_flight) ≡ false
    → map k ≡ some j
    → without g map k ≡ some j
without_other g map j k differs h =
    let kept = and_false (key_eq k g.slot_key) (is_same (map g.slot_key) g.in_flight) (λ same.
      let at = key_eq→eq k g.slot_key same in
      ap (λ o. is_same o g.in_flight) (sym (ap map at) ∙ h) ∙ differs) in
    rw kept h

-- An entry that is left was there, and is not that of the guard.
pub without_left :
    (g : LandJoinGuard) (map : LandJoinKey → Option ℕ) (j : ℕ) (k : LandJoinKey)
    → without g map k ≡ some j
    → (map k ≡ some j) × (g.slot_key ≡ k → (j == g.in_flight) ≡ false)
without_left g map j k h =
    elim (Bool-cases (key_eq k g.slot_key && is_same (map g.slot_key) g.in_flight)) [
      | inl removed ↦ absurd cc
      | inr kept ↦
          let there : map k ≡ some j = cc in
          (
            there,
            λ at.
                let key = subst (λ m. key_eq k m ≡ true) (sym at) (key_eq_refl k) in
                let address = ap (λ o. is_same o g.in_flight) (ap map at ∙ there) in
                sym address
                ∙ and_right (key_eq k g.slot_key) (is_same (map g.slot_key) g.in_flight) key kept,
          )
    ]
