-- ===== src/Core/Changeset/Exact/Conflicts.antt =====
-- crates/naatre-core/src/changeset.rs: the bytes from which a conflict was decoded.
use naatre.Prelude.{
  ℕ, zero, suc, ◌≤◌, ◌≡◌, refl, sym, ap, ◌∙◌, ◌++◌, Bool, true, false, ◌&&◌, ◌||◌, not, Option,
  none, some, List, [], ◌∷◌, arith, Bytes, append-nil, All, any, map, length, ltb, ltb-false→le,
  if◌then◌else◌, is_empty, ◌==◌,
}
use naatre.Core.Words.{le_bytes}
use naatre.Core.Cursor.{write_str, write_all, saturating_mul}
use naatre.Core.Cursor.Consumes.{
  Consumes, Consumes-pure, Consumes-lift, Consumes-bind, Consumes-then, Consumes-map,
  Consumes-take32, Consumes-u8, Consumes-u32, Consumes-string, Consumes-refuse_if,
  Consumes-ensure_left, Consumes-repeat,
}
use naatre.Core.Conflict.{ConflictRep, Side, has_exec, keys, zip, exec_without_base, least_sides}
use naatre.Core.Changeset.{
  bit, is_none, write_side, flags_of, write_base, write_conflict, write_conflicts,
}
use naatre.Core.Changeset.Decode.{
  has_flag, read_exec, read_side, read_base, read_sides, base_id, base_bit, rep_of, decode_sides,
  decode_conflict, decode_conflicts,
}
use naatre.Core.Changeset.Typing.{Each, IsText, IsId, IsRep}
use naatre.Core.Changeset.ConflictReads.{any_of, HasSides}
use naatre.Core.Changeset.Exact.Change.{IsStr→IsText, bit_of_byte}

-- A bit that was read, after the bits `before`.
abbrev Bit : Bool → Bool → Bool × Bool → Bytes → Type 0
Bit exec before r u =
    (u ≡ (if exec then bit r.0 ∷ [] else []))
    × (r.1 ≡ (before || r.0))
    × (exec ≡ false → r.0 ≡ false)

read_exec-Consumes : (exec before : Bool) → Consumes (Bit exec before) (read_exec exec before)
unfolding read_exec
read_exec-Consumes true before = Consumes-bind Consumes-u8 λ b u₁ (_, eq₁).
    Consumes-bind
      (Consumes-lift {P = λ e u. (u ≡ []) × (b ≡ bit e)} _ (λ e h. (refl, bit_of_byte b e h)))
      λ e u₂ (eq₂, coded). Consumes-pure (e, before || e) (rw (eq₁, eq₂, coded), refl, λ h. cc)
read_exec-Consumes false before = Consumes-pure (false, before) (refl, ground arith, λ h. refl)

abbrev SideRead : Bool → Bool → Side × Bool → Bytes → Type 0
SideRead exec before r u =
    IsId r.0.0
    × (u ≡ write_side exec r.0)
    × (r.1 ≡ (before || r.0.1))
    × (exec ≡ false → r.0.1 ≡ false)

read_side-Consumes : (exec before : Bool) → Consumes (SideRead exec before) (read_side exec before)
unfolding read_side write_side
read_side-Consumes exec before = Consumes-bind Consumes-take32 λ id u₁ (eq₁, len, good).
    Consumes-bind (read_exec-Consumes exec before) λ e u₂ (eq₂, joined, plain).
      Consumes-pure ((id, e.0), e.1)
        (record { size = len; bytes = good }, rw (append-nil u₂, eq₁, eq₂), joined, plain)

abbrev SidesRead : ℕ → Bool → Bool → List Side × Bool → Bytes → Type 0
SidesRead n exec before r u =
    All (λ s. IsId s.0) r.0
    × (length r.0 ≡ n)
    × (u ≡ write_all (write_side exec) r.0)
    × (r.1 ≡ any_of before r.0)
    × (exec ≡ false → any (λ s. s.1) r.0 ≡ false)

read_sides-Consumes :
    (n : ℕ) (exec before : Bool) → Consumes (SidesRead n exec before) (read_sides n exec before)
unfolding read_sides
read_sides-Consumes zero exec before =
    Consumes-pure ([], before) (tt, refl, refl, ground arith, λ h. refl)
read_sides-Consumes (suc n) exec before =
    Consumes-bind (read_side-Consumes exec before) λ s u (id, eq, joined, plain).
      Consumes-bind (read_sides-Consumes n exec s.1) λ r v (ids, len, eqs, all, plains).
        Consumes-pure (s.0 ∷ r.0, r.1)
          (
            (id, ids),
            ap suc len,
            rw (append-nil v, eq, eqs),
            ground arith,
            λ h. ground (arith, plain h, plains h),
          )

abbrev BaseRead : Bool → Bool → Option Side × Bool → Bytes → Type 0
BaseRead based exec r u =
    Each IsId (base_id r.0)
    × (u ≡ write_base exec (base_id r.0) (base_bit r.0))
    × (r.1 ≡ base_bit r.0)
    × (exec ≡ false → base_bit r.0 ≡ false)
    × (based ≡ not (is_none (base_id r.0)))
    × (exec_without_base (base_id r.0) (base_bit r.0) ≡ false)

read_base-Consumes : (based exec : Bool) → Consumes (BaseRead based exec) (read_base based exec)
unfolding read_base write_base is_none exec_without_base
read_base-Consumes false exec = Consumes-pure (none, false) (tt, refl, refl, λ h. refl, refl, refl)
read_base-Consumes true exec =
    Consumes-bind (read_side-Consumes exec false) λ s u (id, eq, joined, plain).
      Consumes-pure (some s.0, s.1) (id, rw (append-nil u) eq, joined, plain, refl, refl)

-- The two lists of a representation, zipped again.
zip_unzipped : (ss : List Side) → zip (map (λ s. s.0) ss) (map (λ s. s.1) ss) ≡ ss
unfolding zip
zip_unzipped [] = refl
zip_unzipped (s ∷ ss) = ap (λ t. s ∷ t) (zip_unzipped ss)

length_unzipped :
    (ss : List Side)
    → (length (map (λ s. s.0) ss) ≡ length ss)
      × (length (map (λ s. s.1) ss) ≡ length ss)
      × (any (λ e. e) (map (λ s. s.1) ss) ≡ any (λ s. s.1) ss)
length_unzipped [] = (refl, refl, refl)
length_unzipped (s ∷ ss) =
    let ih = length_unzipped ss in (ap suc ih.0, ap suc ih.1, ap (λ b. s.1 || b) ih.2)

ids_unzipped : (ss : List Side) → All (λ s. IsId s.0) ss → All IsId (map (λ s. s.0) ss)
ids_unzipped [] h = tt
ids_unzipped (s ∷ ss) h = (h.0, ids_unzipped ss h.1)

-- The exec flag is set exactly when some bit is.
bits_agree :
    (exec base sides seen : Bool)
    → seen ≡ (base || sides)
    → (exec ≡ false → base ≡ false)
    → (exec ≡ false → sides ≡ false)
    → (exec && not seen) ≡ false
    → (base || sides) ≡ exec
bits_agree true base sides seen all no_base no_sides set = ground arith
bits_agree false base sides seen all no_base no_sides set =
    ground (arith, no_base refl, no_sides refl)

-- The bytes behind the flags of a representation with these flags.
abbrev SidesOf : Bytes → Bool → Bool → Bool → ConflictRep → Bytes → Type 0
SidesOf path based deleted exec r u =
    (IsText path → IsRep r)
    × HasSides r
    × (r.path ≡ path)
    × (not (is_none r.base) ≡ based)
    × (r.deleted ≡ deleted)
    × (has_exec r ≡ exec)
    × (u
        ≡ write_base exec r.base r.base_exec
          ++ (le_bytes 4 (length r.sides) ++ write_all (write_side exec) (keys r)))

decode_sides-Consumes :
    (path : Bytes) (flags : ℕ) (based deleted exec : Bool)
    → Consumes (SidesOf path based deleted exec) (decode_sides path flags based deleted exec)
unfolding decode_sides rep_of has_exec keys
decode_sides-Consumes path flags based deleted exec =
    Consumes-bind (read_base-Consumes based exec)
      λ base u₁ (base_typed, eq₁, bit₁, plain₁, same_base, unset).
        Consumes-bind Consumes-u32 λ n u₂ (_, eq₂).
          Consumes-then (Consumes-refuse_if (ltb n (least_sides deleted)) _) λ _ u₃ (eq₃, enough).
            Consumes-bind (read_sides-Consumes n exec base.1)
              λ sides u₄ (ids, len, eq₄, bit₄, plain₄).
                Consumes-then (Consumes-refuse_if (exec && not sides.1) _) λ _ u₅ (eq₅, set).
                  let (len₀, len₁, any₁) = length_unzipped sides.0 in
                  Consumes-pure (rep_of path base.0 sides.0 deleted) (
                    λ text. record {
                      path = text;
                      base = base_typed;
                      sides = ids_unzipped sides.0 ids;
                    },
                    record {
                      enough =
                          omega (arith, len₀, len, ltb-false→le n (least_sides deleted) enough);
                      paired = len₁ ∙ sym len₀;
                      based = unset;
                    },
                    refl,
                    sym same_base,
                    refl,
                    rw any₁ (
                        bits_agree exec (base_bit base.0) (any (λ s. s.1) sides.0) sides.1
                          (rw bit₁ at bit₄) plain₁ plain₄ set),
                    rw (
                      zip_unzipped sides.0,
                      len₀,
                      len,
                      eq₁,
                      eq₂,
                      eq₃,
                      eq₄,
                      eq₅,
                      append-nil (write_all (write_side exec) sides.0),
                    ),
                  )

-- A flags byte is made of its three flags.
flags_of-has_flag :
    (flags : ℕ)
    → flags ≤ 7
    → flags ≡ flags_of (has_flag flags 1) (has_flag flags 2) (has_flag flags 4)
unfolding flags_of has_flag
flags_of-has_flag zero h = refl
flags_of-has_flag (suc zero) h = refl
flags_of-has_flag (suc (suc zero)) h = refl
flags_of-has_flag (suc (suc (suc zero))) h = refl
flags_of-has_flag (suc (suc (suc (suc zero)))) h = refl
flags_of-has_flag (suc (suc (suc (suc (suc zero))))) h = refl
flags_of-has_flag (suc (suc (suc (suc (suc (suc zero)))))) h = refl
flags_of-has_flag (suc (suc (suc (suc (suc (suc (suc zero))))))) h = refl
flags_of-has_flag (suc (suc (suc (suc (suc (suc (suc (suc n)))))))) h = absurd (omega arith)

-- A conflict as it was decoded.
pub record IsDecodedRep (r : ConflictRep) : Type 0 where
  pub typed : IsRep r
  pub sides : HasSides r

bytes_of :
    (r : ConflictRep) (path : Bytes) (flags : ℕ) (based deleted exec : Bool) (u₁ u₂ u₃ u : Bytes)
    → r.path ≡ path
    → not (is_none r.base) ≡ based
    → r.deleted ≡ deleted
    → has_exec r ≡ exec
    → u₁ ≡ write_str path
    → u₂ ≡ flags ∷ []
    → u₃ ≡ []
    → u
      ≡ write_base exec r.base r.base_exec
        ++ (le_bytes 4 (length r.sides) ++ write_all (write_side exec) (keys r))
    → flags ≡ flags_of based deleted exec
    → u₁ ++ (u₂ ++ (u₃ ++ u)) ≡ write_conflict r
unfolding write_conflict
bytes_of r path flags based deleted exec u₁ u₂ u₃ u same_path same_base same_deleted same_exec eq₁
      eq₂ eq₃ eq set =
    rw (eq₁, eq₂, eq₃, eq, set, ← same_path, ← same_base, ← same_deleted, ← same_exec)

decode_conflict-Consumes : Consumes (λ r u. IsDecodedRep r × (u ≡ write_conflict r)) decode_conflict
unfolding decode_conflict write_conflict
decode_conflict-Consumes = Consumes-bind Consumes-string λ path u₁ (text, eq₁).
    Consumes-bind Consumes-u8 λ flags u₂ (_, eq₂).
      Consumes-then (Consumes-refuse_if (ltb 7 flags) _) λ _ u₃ (eq₃, small).
        Consumes-map
          (decode_sides-Consumes path flags (has_flag flags 1) (has_flag flags 2)
            (has_flag flags 4))
          λ r u (typed, sides, same_path, based, deleted, exec, eq). (
            record { typed = typed (IsStr→IsText text); sides = sides },
            bytes_of r path flags _ _ _ u₁ u₂ u₃ u same_path based deleted exec eq₁ eq₂ eq₃ eq
                (flags_of-has_flag flags (ltb-false→le 7 flags small)),
          )

-- The conflict section: present, and then not empty, in a version 2 frame alone.
abbrev pub Section : Bool → List ConflictRep → Bytes → Type 0
Section is_v2 rs u = All IsDecodedRep rs × (is_v2 ≡ not (is_empty rs)) × (u ≡ write_conflicts rs)

section_of :
    (n : ℕ) (rs : List ConflictRep)
    → (n == 0) ≡ false
    → length rs ≡ n
    → (true ≡ not (is_empty rs))
      × (le_bytes 4 n ++ write_all write_conflict rs ≡ write_conflicts rs)
unfolding write_conflicts
section_of n [] some_rs len = absurd (ground (arith, len))
section_of n (r ∷ rs) some_rs len = (refl, rw (← len))

pub decode_conflicts-Consumes : (is_v2 : Bool) → Consumes (Section is_v2) (decode_conflicts is_v2)
unfolding decode_conflicts
decode_conflicts-Consumes false = Consumes-pure [] (tt, refl, unfold write_conflicts in refl)
decode_conflicts-Consumes true = Consumes-bind Consumes-u32 λ n u₁ (_, eq₁).
    Consumes-then (Consumes-refuse_if (n == 0) _) λ _ u₂ (eq₂, some_rs).
      Consumes-then (Consumes-ensure_left (saturating_mul n 45)) λ _ u₃ eq₃.
        Consumes-map (Consumes-repeat IsDecodedRep write_conflict n decode_conflict-Consumes)
          λ rs u₄ (typed, len, eq₄).
            let section = section_of n rs some_rs len in
            (typed, section.0, rw (eq₁, eq₂, eq₃, eq₄) section.1)
