-- ===== src/Core/Changeset/Exact/Whole.antt =====
-- crates/naatre-core/src/changeset.rs: the bytes from which a changeset was decoded.
use naatre.Prelude.{
  ℕ, ◌≤◌, ◌<◌, ◌≡◌, refl, Bool, true, false, not, List, [], ◌∷◌, arith, Bytes, IsBytes, ok,
  append-nil, All, length, ltb, le→ltb, ltb-false→le, if◌then◌else◌, is_empty, bytes_eq→eq,
}
use native.Mathlib.Nat.{mod-eq_of_lt}
use naatre.Core.Path.{Unicode}
use naatre.Core.Conflict
use naatre.Core.Conflict.{ConflictRep}
use naatre.Core.Cursor.{take32, saturating_mul, max_object_bytes}
use naatre.Core.Cursor.Consumes.{
  Consumes, ConsumesWhole, Consumes-lift, Consumes-map, Consumes-take_bytes, Consumes-take32,
  Consumes-u8, Consumes-u32, Consumes-u64, Consumes-string, Consumes-refuse_if,
  Consumes-ensure_left, Consumes-repeat, ConsumesWhole-bind, ConsumesWhole-then,
  ConsumesWhole-finish, ConsumesWhole-run,
}
use naatre.Core.Changeset.{
  Changeset, max_parents, magic_v1, magic_v2, write_header, write, encode, is_sorted,
}
use naatre.Core.Changeset.Decode.{version_of, decode_changeset, decode}
use naatre.Core.Changeset.Typing.{IsId, IsRep, IsChangeset}
use naatre.Core.Changeset.Exact.Change.{IsStr→IsText, decode_changes-Consumes}
use naatre.Core.Changeset.Exact.Conflicts.{IsDecodedRep, decode_conflicts-Consumes}

version_of_magic :
    (m : Bytes) (is_v2 : Bool)
    → version_of m ≡ ok is_v2
    → m ≡ (if is_v2 then magic_v2 else magic_v1)
unfolding version_of
version_of_magic m is_v2 h = ground (arith, h, bytes_eq→eq m magic_v1, bytes_eq→eq m magic_v2)

abbrev Written : Changeset → Bytes → Type 0
Written cs bs = IsChangeset cs × (ltb max_parents (length cs.parents) ≡ false) × (write cs ≡ ok bs)

id-Consumes : Consumes (λ id u. IsId id × (u ≡ id)) take32
id-Consumes =
    Consumes-map Consumes-take32 λ id u (eq, len, good). (record { size = len; bytes = good }, eq)

reps_typed : (rs : List ConflictRep) → All IsDecodedRep rs → All IsRep rs
reps_typed [] h = tt
reps_typed (r ∷ rs) h = (h.0.typed, reps_typed rs h.1)

magic_swap :
    (rs : List ConflictRep)
    → (if not (is_empty rs) then magic_v2 else magic_v1)
      ≡ (if is_empty rs then magic_v1 else magic_v2)
magic_swap [] = refl
magic_swap (r ∷ rs) = refl

small_count : (n : ℕ) → ltb max_parents n ≡ false → n < 256
small_count n h = omega (arith, ltb-false→le max_parents n h)

decode_changeset-Consumes : ConsumesWhole Written decode_changeset
unfolding decode_changeset write write_header
decode_changeset-Consumes =
    ConsumesWhole-bind (Consumes-take_bytes (length magic_v1)) λ m u₁ (eq₁, _, _).
      ConsumesWhole-bind
        (Consumes-lift {P = λ v u. (u ≡ []) × (m ≡ (if v then magic_v2 else magic_v1))} _
          (λ v h. (refl, version_of_magic m v h)))
        λ is_v2 u₂ (eq₂, magic). ConsumesWhole-bind Consumes-u64 λ repo_id u₃ (repo_fits, eq₃).
          ConsumesWhole-bind Consumes-u8 λ count u₄ (_, eq₄).
            ConsumesWhole-then (Consumes-refuse_if (ltb max_parents count) _) λ _ u₅ (eq₅, few).
              ConsumesWhole-bind (Consumes-repeat IsId (λ p. p) count id-Consumes)
                λ parents u₆ (ids, len₆, eq₆).
                  ConsumesWhole-bind Consumes-string λ author u₇ (author_text, eq₇).
                    ConsumesWhole-bind Consumes-string λ message u₈ (message_text, eq₈).
                      ConsumesWhole-bind Consumes-u64 λ stamp u₉ (stamp_fits, eq₉).
                        ConsumesWhole-bind Consumes-u32 λ n u₁₀ (_, eq₁₀).
                          ConsumesWhole-then (Consumes-ensure_left (saturating_mul n 9))
                            λ _ u₁₁ eq₁₁.
                              ConsumesWhole-bind (decode_changes-Consumes n)
                                λ changes u₁₂ (typed, len, encoded).
                                  ConsumesWhole-bind (decode_conflicts-Consumes is_v2)
                                    λ rs u₁₃ (reps, v2, eq₁₃). ConsumesWhole-finish _ (
                                      record {
                                        repo_id = repo_fits;
                                        parents = ids;
                                        author = IsStr→IsText author_text;
                                        message = IsStr→IsText message_text;
                                        timestamp_ns = stamp_fits;
                                        changes = typed;
                                        conflicts = reps_typed rs reps;
                                      },
                                      rw len₆ few,
                                      rw (
                                        encoded,
                                        eq₁,
                                        eq₂,
                                        eq₃,
                                        eq₄,
                                        eq₅,
                                        eq₆,
                                        eq₇,
                                        eq₈,
                                        eq₉,
                                        eq₁₀,
                                        eq₁₁,
                                        eq₁₃,
                                        magic,
                                        v2,
                                        magic_swap rs,
                                        len₆,
                                        len,
                                        append-nil,
                                        mod-eq_of_lt (small_count count few),
                                      ),
                                    )

-- Whatever bytes `decode` accepts are the bytes that `write` gives for the changeset that it
-- returns, whose fields have values of the Rust types and which has at most two parents.
pub decode_exact :
    (bs : Bytes) (cs : Changeset)
    → IsBytes bs
    → decode bs ≡ ok cs
    → IsChangeset cs × (length cs.parents ≤ max_parents) × (write cs ≡ ok bs)
unfolding decode
decode_exact bs cs good e =
    let (typed, few, written) = ConsumesWhole-run decode_changeset-Consumes bs cs good e in
    (typed, ltb-false→le max_parents (length cs.parents) few, written)

-- Bytes that `decode` accepts encode again to themselves, where the changes that it read ascend by
-- path, the conflicts that it read pass `Conflict.validate` and the input is within the size cap.
pub encode-decode :
    (u : Unicode) (bs : Bytes) (cs : Changeset)
    → IsBytes bs
    → decode bs ≡ ok cs
    → is_sorted cs.changes ≡ true
    → Conflict.validate u cs.conflicts ≡ ok tt
    → length bs ≤ max_object_bytes
    → encode u cs ≡ ok bs
unfolding encode
encode-decode u bs cs good e sorted valid fits =
    let (typed, few, written) = decode_exact bs cs good e in
    rw (
      le→ltb max_parents (length cs.parents) few,
      sorted,
      valid,
      written,
      le→ltb max_object_bytes (length bs) fits,
    )
