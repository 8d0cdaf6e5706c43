-- ===== src/Core/Changeset/RoundTrip.antt =====
-- crates/naatre-core/src/changeset.rs: `decode` on what `encode` returns.
use naatre.Prelude.{
  ℕ, ◌+◌, ◌*◌, ◌%◌, ◌≤◌, ◌≡◌, refl, sym, subst, ap, ◌++◌, not, List, [], ◌∷◌, arith, Bytes, ok,
  bind-eq-ok, refuse_if, refuse_if-eq-ok, length, length-append, append-nil, All, is_empty,
  if◌then◌else◌, ltb, ltb-false→le, le→ltb, ◌==◌,
}
use native.Mathlib.Nat.{mod-eq_of_lt}
use naatre.Core.Error.{
  encode_too_many_parents, encode_unsorted, encode_too_many_entries, encode_unsorted_conflicts,
  encode_too_large, decode_too_large, decode_empty_conflict_section,
}
use naatre.Core.Words.{le_bytes, length-le_bytes}
use naatre.Core.Path.{Unicode}
use naatre.Core.Conflict
use naatre.Core.Conflict.{ConflictRep, max_entries}
use naatre.Core.Cursor.{
  max_object_bytes, saturating_mul, write_str, write_all, repeat, take32, read_u8, finish, ◌>>=◌,
}
use naatre.Core.Cursor.Reads.{
  Reads, ReadsWhole, Reads-pure, Reads-lift, Reads-bind, Reads-check, Reads-ensure_left,
  Reads-repeat, Reads-take_of_length, Reads-take32, Reads-u8, Reads-u32, Reads-u64, Reads-str,
  ReadsWhole-finish, ReadsWhole-bind, ReadsWhole-check, ReadsWhole-ensure_left, ReadsWhole-cast,
  length-write_str,
}
use naatre.Core.Changeset.{
  Changeset, max_parents, magic_v1, magic_v2, encode_changes, write_conflict, write_conflicts,
  write_header, write, encode, is_sorted,
}
use naatre.Core.Changeset.Decode.{
  version_of, decode_change, decode_conflict, decode_conflicts, decode_changeset, decode,
}
use naatre.Core.Changeset.Typing.{IsId, IsRep, IsChangeset}
use naatre.Core.Changeset.ChangeReads.{decode_changes-Reads, length-encode_changes}
use naatre.Core.Changeset.ConflictReads.{
  HasSides, decode_conflict-Reads, length-write_conflict, validate→HasSides, least_sides-pos,
}

conflicts_long :
    (rs : List ConflictRep)
    → All IsRep rs
    → All HasSides rs
    → length rs * 45 ≤ length (write_all write_conflict rs)
conflicts_long [] t h = omega arith
conflicts_long (r ∷ rs) t h = omega (
  arith,
  conflicts_long rs t.1 h.1,
  length-write_conflict r t.0 h.0,
  h.0.enough,
  least_sides-pos r.deleted,
  length-append (write_conflict r) (write_all write_conflict rs),
)

conflict-Reads :
    (rs : List ConflictRep)
    → All IsRep rs
    → All HasSides rs
    → length (write_all write_conflict rs) ≤ max_object_bytes
    → All (λ r. Reads decode_conflict (write_conflict r) r) rs
conflict-Reads [] t h fits = tt
conflict-Reads (r ∷ rs) t h fits =
    let size = length-append (write_conflict r) (write_all write_conflict rs) in
    let long = length-write_conflict r t.0 h.0 in
    (
      decode_conflict-Reads r t.0 h.0 (omega (arith, size, long, fits))
          (omega (arith, size, long, fits)),
      conflict-Reads rs t.1 h.1 (omega (arith, size, fits)),
    )

-- The conflict section, which only a version 2 frame has.
decode_conflicts-Reads :
    (rs : List ConflictRep)
    → All IsRep rs
    → All HasSides rs
    → length (write_conflicts rs) ≤ max_object_bytes
    → Reads (decode_conflicts (not (is_empty rs))) (write_conflicts rs) rs
unfolding decode_conflicts write_conflicts
decode_conflicts-Reads [] t h fits = Reads-pure []
decode_conflicts-Reads (r ∷ rs) t h fits =
    let all = r ∷ rs in
    let size = length-append (le_bytes 4 (length all)) (write_all write_conflict all) in
    let long = conflicts_long all t h in
    let four = length-le_bytes 4 (length all) in
    Reads-bind _ (Reads-u32 (length all) (omega (arith, size, long, four, fits))) (
      Reads-check (length all == 0) decode_empty_conflict_section (ground arith) (
        Reads-ensure_left (saturating_mul (length all) 45) (omega (arith, long)) (
          Reads-repeat write_conflict decode_conflict all
            (conflict-Reads all t h (omega (arith, size, four, fits))))))

version_of-magic :
    (rs : List ConflictRep)
    → version_of (if is_empty rs then magic_v1 else magic_v2) ≡ ok (not (is_empty rs))
unfolding version_of
version_of-magic [] = refl
version_of-magic (r ∷ rs) = refl

parents-Reads : (ps : List Bytes) → All IsId ps → All (λ p. Reads take32 p p) ps
parents-Reads [] h = tt
parents-Reads (p ∷ ps) h = (Reads-take32 p h.0.size, parents-Reads ps h.1)

-- The parts of an encoding.
pub record Frame (cs : Changeset) (bs : Bytes) : Type 0 where
  pub entries : Bytes
  pub few_parents : length cs.parents ≤ max_parents
  pub encoded : encode_changes cs.changes ≡ ok entries
  pub sides : All HasSides cs.conflicts
  pub whole : bs ≡ write_header cs (entries ++ write_conflicts cs.conflicts)
  pub fits : length bs ≤ max_object_bytes

validate_list→HasSides :
    (u : Unicode) (rs : List ConflictRep) → Conflict.validate u rs ≡ ok tt → All HasSides rs
unfolding Conflict.validate
validate_list→HasSides u rs e =
    let (_, _, f₁) =
      bind-eq-ok (refuse_if (ltb max_entries (length rs)) encode_too_many_entries) _ e in
    let (_, _, f₂) =
      bind-eq-ok (refuse_if (not (Conflict.is_sorted rs)) encode_unsorted_conflicts) _ f₁ in
    validate→HasSides u rs f₂

pub encode→Frame : (u : Unicode) (cs : Changeset) (bs : Bytes) → encode u cs ≡ ok bs → Frame cs bs
unfolding encode write
encode→Frame u cs bs e =
    let (_, e₁, f₁) =
      bind-eq-ok (refuse_if (ltb max_parents (length cs.parents)) encode_too_many_parents) _ e in
    let (_, e₂, f₂) = bind-eq-ok (refuse_if (not (is_sorted cs.changes)) encode_unsorted) _ f₁ in
    let (_, e₃, f₃) = bind-eq-ok (Conflict.validate u cs.conflicts) _ f₂ in
    let (out, e₄, f₄) = bind-eq-ok (write cs) _ f₃ in
    let (_, e₅, f₅) =
      bind-eq-ok (refuse_if (ltb max_object_bytes (length out)) encode_too_large) _ f₄ in
    let (entries, e₆, f₆) = bind-eq-ok (encode_changes cs.changes) _ e₄ in
    let out-eq : out ≡ bs = cc f₅ in
    record {
      entries = entries;
      few_parents = ltb-false→le max_parents (length cs.parents) (refuse_if-eq-ok _ _ e₁);
      encoded = e₆;
      sides = validate_list→HasSides u cs.conflicts (cc e₃);
      whole = cc (f₆, out-eq);
      fits =
          subst (λ o. length o ≤ max_object_bytes) out-eq
            (ltb-false→le max_object_bytes (length out) (refuse_if-eq-ok _ _ e₅));
    }

length-write_header :
    (cs : Changeset) (entries : Bytes)
    → length cs.author + length cs.message + length entries ≤ length (write_header cs entries)
unfolding write_header
length-write_header cs entries =
    let counted = le_bytes 4 (length cs.changes) ++ entries in
    let stamped = le_bytes 8 cs.timestamp_ns ++ counted in
    let said = write_str cs.message ++ stamped in
    let signed = write_str cs.author ++ said in
    let based = (length cs.parents % 256) ∷ (write_all (λ p. p) cs.parents ++ signed) in
    omega (
      arith,
      length-append (le_bytes 4 (length cs.changes)) entries,
      length-append (le_bytes 8 cs.timestamp_ns) counted,
      length-append (write_str cs.message) stamped,
      length-append (write_str cs.author) said,
      length-append (write_all (λ p. p) cs.parents) signed,
      length-append (le_bytes 8 cs.repo_id) based,
      length-append (if is_empty cs.conflicts then magic_v1 else magic_v2)
          (le_bytes 8 cs.repo_id ++ based),
      length-write_str cs.author,
      length-write_str cs.message,
    )

length-magic :
    (rs : List ConflictRep) → length (if is_empty rs then magic_v1 else magic_v2) ≡ length magic_v1
length-magic [] = refl
length-magic (r ∷ rs) = refl

-- A byte holds the number of parents.
parent_count-Reads : (n : ℕ) → n ≤ max_parents → Reads read_u8 ((n % 256) ∷ []) n
parent_count-Reads n few = rw (mod-eq_of_lt {n = n} {m = 256} (omega arith)) (Reads-u8 n)

-- The entries and the conflict section, to the end of the input.
decode_entries-ReadsWhole :
    (cs : Changeset) (entries : Bytes)
    → IsChangeset cs
    → encode_changes cs.changes ≡ ok entries
    → All HasSides cs.conflicts
    → length entries + length (write_conflicts cs.conflicts) ≤ max_object_bytes
    → ReadsWhole
        (repeat (length cs.changes) decode_change >>= λ changes.
          decode_conflicts (not (is_empty cs.conflicts)) >>= λ conflicts.
          finish (record cs { changes = changes; conflicts = conflicts }))
        (entries ++ write_conflicts cs.conflicts)
        cs
decode_entries-ReadsWhole cs entries t e h fits =
    ReadsWhole-bind _ (decode_changes-Reads cs.changes entries t.changes (omega (arith, fits)) e) (
      ReadsWhole-cast (append-nil _) (
        ReadsWhole-bind _ (decode_conflicts-Reads cs.conflicts t.conflicts h (omega (arith, fits)))
          (ReadsWhole-finish cs)))

decode_changeset-ReadsWhole :
    (cs : Changeset) (bs : Bytes) → IsChangeset cs → Frame cs bs → ReadsWhole decode_changeset bs cs
unfolding decode_changeset write_header
decode_changeset-ReadsWhole cs bs t h =
    let size = length-write_header cs (h.entries ++ write_conflicts cs.conflicts) in
    let total = ap length h.whole in
    let body = length-append h.entries (write_conflicts cs.conflicts) in
    let long = length-encode_changes cs.changes h.entries h.encoded in
    let parents = length cs.parents in
    subst (λ b. ReadsWhole decode_changeset b cs) (sym h.whole)
      (ReadsWhole-bind _ (Reads-take_of_length (length magic_v1) _ (length-magic cs.conflicts)) (
        ReadsWhole-bind _ (Reads-lift _ (version_of-magic cs.conflicts)) (
          ReadsWhole-bind _ (Reads-u64 cs.repo_id t.repo_id) (
            ReadsWhole-bind _ (parent_count-Reads parents h.few_parents) (
              ReadsWhole-check _ decode_too_large (le→ltb max_parents parents h.few_parents) (
                ReadsWhole-bind _
                  (Reads-repeat (λ p. p) take32 cs.parents (parents-Reads cs.parents t.parents))
                  (ReadsWhole-bind _
                    (Reads-str cs.author (omega (arith, size, total, h.fits)) t.author.valid)
                    (ReadsWhole-bind _
                      (Reads-str cs.message (omega (arith, size, total, h.fits)) t.message.valid)
                      (ReadsWhole-bind _ (Reads-u64 cs.timestamp_ns t.timestamp_ns) (
                        ReadsWhole-bind _
                          (Reads-u32 (length cs.changes)
                            (omega (arith, size, total, body, long, h.fits)))
                          (ReadsWhole-ensure_left (saturating_mul (length cs.changes) 9)
                            (omega (arith, body, long))
                            (decode_entries-ReadsWhole cs h.entries t h.encoded h.sides
                              (omega (arith, size, total, body, h.fits))))))))))))))

-- An encoded changeset decodes to itself: whatever `encode` returns for a changeset of the Rust
-- types, of either format version, `decode` reads back as that changeset.
pub decode-encode :
    (u : Unicode) (cs : Changeset) (bs : Bytes)
    → IsChangeset cs
    → encode u cs ≡ ok bs
    → decode bs ≡ ok cs
unfolding decode
decode-encode u cs bs t e = rw ((decode_changeset-ReadsWhole cs bs t (encode→Frame u cs bs e)).at)
