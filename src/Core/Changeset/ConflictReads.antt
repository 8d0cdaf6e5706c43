-- ===== src/Core/Changeset/ConflictReads.antt =====
-- crates/naatre-core/src/changeset.rs: the decoder on an encoded conflict.
use naatre.Prelude.{
  bind-eq-ok, refuse_if, refuse_if-eq-ok, map_err, ℕ, suc, ◌+◌, ◌*◌, ◌^◌, ◌≤◌, ◌<◌, ◌≡◌, refl, sym,
  subst, ap, ◌++◌, Bool, true, false, not, Option, none, some, List, [], ◌∷◌, arith, Bytes, ok,
  length, length-append, append-nil, All, ◌&&◌, ◌||◌, ltb, if◌then◌else◌, any, map, le→ltb,
}
use naatre.Core.Error
use naatre.Core.Error.{
  encode_too_many_entries, encode_conflict_sides, CoreError, decode_invalid_tag,
  decode_conflict_sides,
}
use naatre.Core.Words.{le_bytes, length-le_bytes}
use naatre.Core.Cursor.{max_object_bytes, write_str, write_all}
use naatre.Core.Cursor.Reads.{
  Reads, Reads-pure, Reads-lift, Reads-cast, Reads-value, Reads-bind, Reads-check, Reads-take32,
  Reads-u8, Reads-u32, Reads-str, length-write_str,
}
use naatre.Core.Path
use naatre.Core.Path.{Unicode}
use naatre.Core.Conflict
use naatre.Core.Conflict.{
  max_entries, ConflictRep, Side, has_exec, keys, zip, bad_sides, exec_without_base,
  base_among_sides, side_lt, least_sides,
}
use naatre.Core.Changeset.{bit, is_none, write_side, flags_of, write_base, write_conflict}
use naatre.Core.Changeset.Decode.{
  has_flag, read_exec, read_side, read_base, read_sides, base_id, base_bit, rep_of, decode_sides,
  decode_conflict,
}
use naatre.Core.Changeset.Typing.{Each, IsId, IsRep}
use naatre.Core.Changeset.ChangeReads.{bit_of-bit}

-- The exec bits of a list of sides, joined to those before.
abbrev pub any_of : Bool → List Side → Bool
any_of before ss = before || any (λ s. s.1) ss

-- The bit that `e` adds to the bits `before`.
read_exec-Reads :
    (exec before e : Bool)
    → (exec ≡ false → e ≡ false)
    → Reads (read_exec exec before) (if exec then bit e ∷ [] else []) (e, before || e)
unfolding read_exec
read_exec-Reads true before e h =
    Reads-bind _ (Reads-u8 (bit e)) (Reads-bind _ (Reads-lift _ (bit_of-bit e)) (Reads-pure _))
read_exec-Reads false before true h = absurd (cc (h refl))
read_exec-Reads false before false h = Reads-value (ground arith) (Reads-pure (false, before))

read_side-Reads :
    (exec before : Bool) (s : Side)
    → IsId s.0
    → (exec ≡ false → s.1 ≡ false)
    → Reads (read_side exec before) (write_side exec s) (s, before || s.1)
unfolding read_side write_side
read_side-Reads exec before s id h =
    Reads-bind _ (Reads-take32 s.0 id.size)
      (Reads-cast (append-nil _) (Reads-bind _ (read_exec-Reads exec before s.1 h) (Reads-pure _)))

-- The sides read back, with the bits `before` joined to theirs.
read_sides-Reads :
    (exec before : Bool) (ss : List Side)
    → All (λ s. IsId s.0) ss
    → (exec ≡ false → any (λ s. s.1) ss ≡ false)
    → Reads
        (read_sides (length ss) exec before)
        (write_all (write_side exec) ss)
        (ss, any_of before ss)
unfolding read_sides
read_sides-Reads exec before [] ids h = Reads-value (ground arith) (Reads-pure ([], before))
read_sides-Reads exec before (s ∷ ss) ids h = Reads-value (ground arith) (
    Reads-bind _ (read_side-Reads exec before s ids.0 (λ f. ground (arith, h f))) (
      Reads-cast (append-nil _) (
        Reads-bind _ (read_sides-Reads exec (before || s.1) ss ids.1 (λ f. ground (arith, h f)))
          (Reads-pure (s ∷ ss, any_of (before || s.1) ss)))))

-- The base with its bit.
abbrev base_side : Option Bytes → Bool → Option Side
base_side none e = none
base_side (some b) e = some (b, e)

read_base-Reads :
    (exec : Bool) (base : Option Bytes) (e : Bool)
    → Each IsId base
    → (exec ≡ false → e ≡ false)
    → Reads
        (read_base (not (is_none base)) exec)
        (write_base exec base e)
        (base_side base e, base_bit (base_side base e))
unfolding read_base is_none write_base
read_base-Reads exec none e id h = Reads-pure (none, false)
read_base-Reads exec (some b) e id h =
    Reads-cast (append-nil _)
      (Reads-bind _ (read_side-Reads exec false (b, e) id h) (Reads-pure (some (b, e), e)))

-- The three flags of a flags byte.
has_flag-flags_of :
    (base deleted exec : Bool)
    → (has_flag (flags_of base deleted exec) 1 ≡ base)
      × (has_flag (flags_of base deleted exec) 2 ≡ deleted)
      × (has_flag (flags_of base deleted exec) 4 ≡ exec)
      × (flags_of base deleted exec ≤ 7)
unfolding has_flag flags_of
has_flag-flags_of true true true = (refl, refl, refl, omega arith)
has_flag-flags_of true true false = (refl, refl, refl, omega arith)
has_flag-flags_of true false true = (refl, refl, refl, omega arith)
has_flag-flags_of true false false = (refl, refl, refl, omega arith)
has_flag-flags_of false true true = (refl, refl, refl, omega arith)
has_flag-flags_of false true false = (refl, refl, refl, omega arith)
has_flag-flags_of false false true = (refl, refl, refl, omega arith)
has_flag-flags_of false false false = (refl, refl, refl, omega arith)

zip_parts :
    (ss : List Bytes) (es : List Bool)
    → length es ≡ length ss
    → (map (λ s. s.0) (zip ss es) ≡ ss)
      × (map (λ s. s.1) (zip ss es) ≡ es)
      × (length (zip ss es) ≡ length ss)
      × (any (λ s. s.1) (zip ss es) ≡ any (λ e. e) es)
unfolding zip
zip_parts [] [] h = (refl, refl, refl, refl)
zip_parts [] (e ∷ es) h = absurd (omega arith)
zip_parts (s ∷ ss) [] h = absurd (omega arith)
zip_parts (s ∷ ss) (e ∷ es) h =
    let ih = zip_parts ss es (omega arith) in
    (ap (λ t. s ∷ t) ih.0, ap (λ t. e ∷ t) ih.1, ap suc ih.2, ap (λ t. e || t) ih.3)

zip_ids : (ss : List Bytes) (es : List Bool) → All IsId ss → All (λ s. IsId s.0) (zip ss es)
unfolding zip
zip_ids [] es h = tt
zip_ids (s ∷ ss) [] h = tt
zip_ids (s ∷ ss) (e ∷ es) h = (h.0, zip_ids ss es h.1)

-- What `validate` leaves of a representation's sides.
pub record HasSides (r : ConflictRep) : Type 0 where
  pub enough : least_sides r.deleted ≤ length r.sides
  pub paired : length r.sides_exec ≡ length r.sides
  pub based : exec_without_base r.base r.base_exec ≡ false

bad_sides→HasSides : (r : ConflictRep) → bad_sides r ≡ false → HasSides r
unfolding bad_sides
bad_sides→HasSides r h = record {
  enough = ground arith;
  paired = ground arith;
  based = ground arith;
}

base_parts :
    (base : Option Bytes) (e : Bool)
    → exec_without_base base e ≡ false
    → (base_id (base_side base e) ≡ base) × (base_bit (base_side base e) ≡ e)
unfolding exec_without_base
base_parts none e h = (refl, sym h)
base_parts (some b) e h = (refl, refl)

rep_of_fields :
    (r : ConflictRep)
    → HasSides r
    → rep_of r.path (base_side r.base r.base_exec) (keys r) r.deleted ≡ r
unfolding rep_of keys
rep_of_fields r h =
    let sides = zip_parts r.sides r.sides_exec h.paired in
    let base = base_parts r.base r.base_exec h.based in
    λ i. record r {
      base = base.0 i;
      base_exec = base.1 i;
      sides = sides.0 i;
      sides_exec = sides.1 i;
    }

length-keys : (r : ConflictRep) → HasSides r → length (keys r) ≡ length r.sides
unfolding keys
length-keys r h = (zip_parts r.sides r.sides_exec h.paired).2

ids_of_keys : (r : ConflictRep) → IsRep r → All (λ s. IsId s.0) (keys r)
unfolding keys
ids_of_keys r h = zip_ids r.sides r.sides_exec h.sides

-- The bits read are the base's and the sides'.
any_of-keys :
    (r : ConflictRep)
    → HasSides r
    → any_of (base_bit (base_side r.base r.base_exec)) (keys r) ≡ has_exec r
unfolding has_exec keys
any_of-keys r h =
    rw ((base_parts r.base r.base_exec h.based).1, (zip_parts r.sides r.sides_exec h.paired).3)

has_exec-base : (r : ConflictRep) → has_exec r ≡ false → r.base_exec ≡ false
unfolding has_exec
has_exec-base r h = ground arith

has_exec-sides :
    (r : ConflictRep) → HasSides r → has_exec r ≡ false → any (λ s. s.1) (keys r) ≡ false
has_exec-sides r h f = ground (arith, any_of-keys r h)

decode_sides-Reads :
    (r : ConflictRep) (flags : ℕ)
    → IsRep r
    → HasSides r
    → length r.sides < 2 ^ 32
    → Reads
        (decode_sides r.path flags (not (is_none r.base)) r.deleted (has_exec r))
        (write_base (has_exec r) r.base r.base_exec
          ++ (le_bytes 4 (length r.sides) ++ write_all (write_side (has_exec r)) (keys r)))
        r
unfolding decode_sides
decode_sides-Reads r flags typed h count =
    let before = base_bit (base_side r.base r.base_exec) in
    let none_set : has_exec r && not (any_of before (keys r)) ≡ false =
      ground (arith, any_of-keys r h) in
    Reads-bind _ (read_base-Reads (has_exec r) r.base r.base_exec typed.base (has_exec-base r)) (
      Reads-bind _ (Reads-u32 (length r.sides) count) (
        Reads-check _ decode_conflict_sides
          (le→ltb (length r.sides) (least_sides r.deleted) h.enough)
          (Reads-cast (append-nil _) (
            Reads-bind _
              (subst
                (λ n.
                  Reads (read_sides n (has_exec r) before)
                    (write_all (write_side (has_exec r)) (keys r)) (keys r, any_of before (keys r)))
                (length-keys r h)
                (read_sides-Reads (has_exec r) before (keys r) (ids_of_keys r typed)
                  (has_exec-sides r h)))
              (Reads-check _ (decode_invalid_tag flags) none_set
                (Reads-value (rep_of_fields r h) (Reads-pure _)))))))

pub decode_conflict-Reads :
    (r : ConflictRep)
    → IsRep r
    → HasSides r
    → length r.path ≤ max_object_bytes
    → length r.sides < 2 ^ 32
    → Reads decode_conflict (write_conflict r) r
unfolding decode_conflict write_conflict
decode_conflict-Reads r typed h short count =
    let flags = flags_of (not (is_none r.base)) r.deleted (has_exec r) in
    let (f₁, f₂, f₄, small) = has_flag-flags_of (not (is_none r.base)) r.deleted (has_exec r) in
    Reads-bind _ (Reads-str r.path short typed.path.valid) (
      Reads-bind _ (Reads-u8 flags) (
        Reads-check _ (decode_invalid_tag flags) (le→ltb 7 flags small)
          (rw (f₁, f₂, f₄) (decode_sides-Reads r flags typed h count))))

length-write_sides :
    (exec : Bool) (ss : List Side)
    → All (λ s. IsId s.0) ss
    → 32 * length ss ≤ length (write_all (write_side exec) ss)
unfolding write_side
length-write_sides exec [] ids = omega arith
length-write_sides exec (s ∷ ss) ids =
    let extra = if exec then bit s.1 ∷ [] else [] in
    omega (
      arith,
      ids.0.size,
      length-append s.0 extra,
      length-write_sides exec ss ids.1,
      length-append (s.0 ++ extra) (write_all (write_side exec) ss),
    )

-- A written conflict is longer than its path and than its sides.
pub length-write_conflict :
    (r : ConflictRep)
    → IsRep r
    → HasSides r
    → 13 + length r.path + 32 * length r.sides ≤ length (write_conflict r)
unfolding write_conflict
length-write_conflict r typed h =
    let exec = has_exec r in
    let sides = write_all (write_side exec) (keys r) in
    let base = write_base exec r.base r.base_exec in
    let flags = flags_of (not (is_none r.base)) r.deleted exec in
    omega (
      arith,
      length-append (write_str r.path) (flags ∷ (base ++ (le_bytes 4 (length r.sides) ++ sides))),
      length-write_str r.path,
      length-append base (le_bytes 4 (length r.sides) ++ sides),
      length-append (le_bytes 4 (length r.sides)) sides,
      length-le_bytes 4 (length r.sides),
      length-write_sides exec (keys r) (ids_of_keys r typed),
      length-keys r h,
    )

pub least_sides-pos : (deleted : Bool) → 1 ≤ least_sides deleted
least_sides-pos true = omega arith
least_sides-pos false = omega arith

validate_rep→HasSides :
    (u : Unicode) (r : ConflictRep) → Conflict.validate_rep u r ≡ ok tt → HasSides r
unfolding Conflict.validate_rep
validate_rep→HasSides u r e =
    let (_, e₁, f₁) = bind-eq-ok (map_err Error.path (Path.validate u r.path)) _ e in
    let (_, e₂, f₂) =
      bind-eq-ok (refuse_if (ltb max_entries (length r.sides)) encode_too_many_entries) _ f₁ in
    bad_sides→HasSides r (refuse_if-eq-ok (bad_sides r) encode_conflict_sides f₂)

-- The accepted representations of a conflict list.
pub validate→HasSides :
    (u : Unicode) (reps : List ConflictRep)
    → Conflict.validate_reps u reps ≡ ok tt
    → All HasSides reps
unfolding Conflict.validate_reps
validate→HasSides u [] e = tt
validate→HasSides u (r ∷ rs) e =
    let (_, e₁, f₁) = bind-eq-ok (Conflict.validate_rep u r) _ e in
    (validate_rep→HasSides u r (cc e₁), validate→HasSides u rs f₁)
