-- ===== src/Core/Tree/RoundTrip.antt =====
-- crates/naatre-core/src/tree.rs: `encode` and `decode` against each other.
use naatre.Prelude.{
  bytes_eq, ℕ, ◌+◌, ◌*◌, ◌^◌, ◌≤◌, ◌<◌, ◌≡◌, refl, subst, ◌++◌, Bool, true, false, not, List, [],
  ◌∷◌, arith, Bytes, IsBytes, ok, ok_or, bind-eq-ok, refuse_if, refuse_if-eq-ok, length,
  length-append, append-nil, All, bytes_eq→eq, ltb-false→le, le→ltb, ltb,
}
use naatre.Core.Error.{decode_bad_magic, encode_unsorted, encode_too_large, decode_invalid_tag}
use naatre.Core.Words.{le_bytes, length-le_bytes}
use naatre.Core.Utf8.{is_utf8}
use naatre.Core.Cursor.{max_object_bytes, saturating_mul, write_str, write_all}
use naatre.Core.Cursor.Reads.{
  Reads, Reads-pure, Reads-lift, Reads-bind, Reads-repeat, Reads-take_bytes, Reads-take32, Reads-u8,
  Reads-u32, Reads-u64, Reads-str, length-write_str, ReadsWhole, ReadsWhole-finish, ReadsWhole-bind,
  ReadsWhole-cast, ReadsWhole-check, ReadsWhole-ensure_left,
}
use naatre.Core.Cursor.Consumes.{
  Consumes, Consumes-pure, Consumes-lift, Consumes-bind, Consumes-refuse_if, ConsumesWhole,
  ConsumesWhole-finish, ConsumesWhole-bind, ConsumesWhole-then, ConsumesWhole-run,
  Consumes-ensure_left, Consumes-take_bytes, Consumes-take32, Consumes-u8, Consumes-u32,
  Consumes-u64, Consumes-string, Consumes-repeat,
}
use naatre.Core.Tree.{
  EntryKind, file, dir, TreeEntry, Tree, tag, from_tag, exec_byte, write_entry, write, is_sorted,
  encode, read_exec, decode_entry, decode_tree, decode, magic,
}

-- The values that the Rust types of an entry allow, and no exec bit on a directory.
pub record IsEntry (e : TreeEntry) : Type 0 where
  pub name_bytes : IsBytes e.name
  pub name_utf8 : is_utf8 e.name ≡ true
  pub object_length : length e.object ≡ 32
  pub object_bytes : IsBytes e.object
  pub size_fits : e.size < 2 ^ 64
  pub dir_exec : e.kind ≡ dir → e.exec ≡ false

abbrev pub IsTree : Tree → Type 0
IsTree t = All IsEntry t.entries

from_tag-tag : (k : EntryKind) → ok_or (from_tag (tag k)) (decode_invalid_tag (tag k)) ≡ ok k
unfolding tag from_tag
from_tag-tag file = refl
from_tag-tag dir = refl

read_exec-exec_byte :
    (k : EntryKind) (e : Bool) → (k ≡ dir → e ≡ false) → read_exec k (exec_byte k e) ≡ ok e
unfolding read_exec exec_byte
read_exec-exec_byte file true h = refl
read_exec-exec_byte file false h = refl
read_exec-exec_byte dir e h = rw (h refl)

length-write_entry : (e : TreeEntry) → length (write_entry e) ≡ 18 + length e.name + length e.object
unfolding write_entry
length-write_entry e = omega (
  arith,
  length-append (write_str e.name)
      (tag e.kind ∷ (e.object ++ (le_bytes 8 e.size ++ (exec_byte e.kind e.exec ∷ [])))),
  length-append e.object (le_bytes 8 e.size ++ (exec_byte e.kind e.exec ∷ [])),
  length-append (le_bytes 8 e.size) (exec_byte e.kind e.exec ∷ []),
  length-le_bytes 8 e.size,
  length-write_str e.name,
)

decode_entry-Reads :
    (e : TreeEntry)
    → IsEntry e
    → length e.name ≤ max_object_bytes
    → Reads decode_entry (write_entry e) e
unfolding decode_entry write_entry
decode_entry-Reads e h short = Reads-bind _ (Reads-str e.name short h.name_utf8) (
    Reads-bind _ (Reads-u8 (tag e.kind)) (
      Reads-bind _ (Reads-lift _ (from_tag-tag e.kind)) (
        Reads-bind _ (Reads-take32 e.object h.object_length) (
          Reads-bind _ (Reads-u64 e.size h.size_fits) (
            Reads-bind _ (Reads-u8 (exec_byte e.kind e.exec)) (
              Reads-bind _ (Reads-lift _ (read_exec-exec_byte e.kind e.exec h.dir_exec))
                (Reads-pure e)))))))

-- Every name of the list is as short as the whole encoding.
names_short :
    (es : List TreeEntry) (m : ℕ)
    → length (write_all write_entry es) ≤ m
    → All (λ e. length e.name ≤ m) es
names_short [] m h = tt
names_short (e ∷ es) m h =
    let total = length-append (write_entry e) (write_all write_entry es) in
    (
      omega (arith, total, length-write_entry e),
      names_short es m (omega (arith, total, length-write_entry e)),
    )

entries-Reads :
    (es : List TreeEntry)
    → All IsEntry es
    → All (λ e. length e.name ≤ max_object_bytes) es
    → All (λ e. Reads decode_entry (write_entry e) e) es
entries-Reads [] h k = tt
entries-Reads (e ∷ es) h k = (decode_entry-Reads e h.0 k.0, entries-Reads es h.1 k.1)

entries_long :
    (es : List TreeEntry) → All IsEntry es → length es * 50 ≤ length (write_all write_entry es)
entries_long [] h = omega arith
entries_long (e ∷ es) h = omega (
  arith,
  h.0.object_length,
  length-write_entry e,
  entries_long es h.1,
  length-append (write_entry e) (write_all write_entry es),
)

length-write : (t : Tree) → length (write t) ≡ 16 + length (write_all write_entry t.entries)
unfolding write
length-write t = omega (
  arith,
  length-append (le_bytes 4 (length t.entries)) (write_all write_entry t.entries),
  length-le_bytes 4 (length t.entries),
)

decode_tree-ReadsWhole :
    (t : Tree) → IsTree t → length (write t) ≤ max_object_bytes → ReadsWhole decode_tree (write t) t
unfolding decode_tree write
decode_tree-ReadsWhole t h fits =
    let es = t.entries in
    let long = entries_long es h in
    let size = length-write t in
    let short = names_short es max_object_bytes (omega (arith, size, fits)) in
    ReadsWhole-bind _ (Reads-take_bytes magic) (
      ReadsWhole-check _ decode_bad_magic refl (
        ReadsWhole-bind _ (Reads-u32 (length es) (omega (arith, size, fits, long))) (
          ReadsWhole-ensure_left (saturating_mul (length es) 50) (omega (arith, long)) (
            ReadsWhole-cast (append-nil _) (
              ReadsWhole-bind _
                (Reads-repeat write_entry decode_entry es (entries-Reads es h short))
                (ReadsWhole-finish t))))))

-- An encoded tree decodes to itself: for entries of the Rust types with no exec bit on a directory,
-- whatever `encode` returns, `decode` reads back as that tree.
pub tree_decode-encode : (t : Tree) (bs : Bytes) → IsTree t → encode t ≡ ok bs → decode bs ≡ ok t
unfolding encode decode
tree_decode-encode t bs h e =
    let (_, sorted, e₁) = bind-eq-ok (refuse_if (not (is_sorted t.entries)) encode_unsorted) _ e in
    let (_, fits, e₂) =
      bind-eq-ok (refuse_if (ltb max_object_bytes (length (write t))) encode_too_large) _ e₁ in
    let size : length (write t) ≤ max_object_bytes =
      ltb-false→le max_object_bytes (length (write t)) (refuse_if-eq-ok _ _ fits) in
    let written : write t ≡ bs = cc e₂ in rw (← written, (decode_tree-ReadsWhole t h size).at)

kind_of_tag : (t : ℕ) (k : EntryKind) → ok_or (from_tag t) (decode_invalid_tag t) ≡ ok k → t ≡ tag k
unfolding from_tag tag
kind_of_tag t k h = ground arith

exec_of_byte :
    (k : EntryKind) (b : ℕ) (e : Bool)
    → read_exec k b ≡ ok e
    → (b ≡ exec_byte k e) × (k ≡ dir → e ≡ false)
unfolding read_exec exec_byte
exec_of_byte file b e h = ground arith
exec_of_byte dir b e h = ground arith

decode_entry-Consumes : Consumes (λ e u. IsEntry e × (u ≡ write_entry e)) decode_entry
unfolding decode_entry write_entry
decode_entry-Consumes = Consumes-bind Consumes-string λ name u₁ (text, eq₁).
    Consumes-bind Consumes-u8 λ t u₂ (_, eq₂).
      Consumes-bind
        (Consumes-lift {P = λ k u. (u ≡ []) × (t ≡ tag k)} _ (λ k h. (refl, kind_of_tag t k h)))
        λ k u₃ (eq₃, tagged). Consumes-bind Consumes-take32 λ object u₄ (eq₄, len, good).
          Consumes-bind Consumes-u64 λ size u₅ (fits, eq₅).
            Consumes-bind Consumes-u8 λ b u₆ (_, eq₆).
              Consumes-bind
                (Consumes-lift {P = λ e u. (u ≡ []) × ((b ≡ exec_byte k e) × (k ≡ dir → e ≡ false))}
                  _ (λ e h. (refl, exec_of_byte k b e h)))
                λ exec u₇ (eq₇, coded). Consumes-pure _ (
                  record {
                    name_bytes = text.bytes;
                    name_utf8 = text.valid;
                    object_length = len;
                    object_bytes = good;
                    size_fits = fits;
                    dir_exec = coded.1;
                  },
                  rw (eq₁, eq₂, eq₃, eq₄, eq₅, eq₆, eq₇, tagged, coded.0),
                )

magic_read : (m : Bytes) → not (bytes_eq m magic) ≡ false → m ≡ magic
magic_read m h = bytes_eq→eq m magic (ground arith)

abbrev IsWritten : Tree → Bytes → Type 0
IsWritten t u = IsTree t × (u ≡ write t)

decode_tree-ConsumesWhole : ConsumesWhole (IsWritten) decode_tree
unfolding decode_tree write
decode_tree-ConsumesWhole =
    ConsumesWhole-bind (Consumes-take_bytes (length magic)) λ m u₁ (eq₁, _, _).
      ConsumesWhole-then (Consumes-refuse_if (not (bytes_eq m magic)) _) λ _ u₂ (eq₂, same).
        ConsumesWhole-bind Consumes-u32 λ n u₃ (_, eq₃).
          ConsumesWhole-then (Consumes-ensure_left (saturating_mul n 50)) λ _ u₄ eq₄.
            ConsumesWhole-bind (Consumes-repeat IsEntry write_entry n decode_entry-Consumes)
              λ es u₅ (good, len, eq₅).
                ConsumesWhole-finish _
                  (good, rw (eq₁, eq₂, magic_read m same, eq₃, eq₄, eq₅, ← len, append-nil _))

-- Whatever bytes `decode` accepts are exactly the bytes that `encode` would push for the tree that it
-- returns, whose entries have values of the Rust types and no exec bit on a directory. That `encode`
-- accepts this tree is not stated: it refuses names that do not ascend.
pub tree_decode_exact :
    (bs : Bytes) (t : Tree) → IsBytes bs → decode bs ≡ ok t → IsTree t × (bs ≡ write t)
unfolding decode
tree_decode_exact bs t good e = ConsumesWhole-run decode_tree-ConsumesWhole bs t good e

-- Bytes that `decode` accepts encode again to themselves, where the names that it read ascend
-- strictly and the input is within the size cap.
pub tree_encode-decode :
    (bs : Bytes) (t : Tree)
    → IsBytes bs
    → decode bs ≡ ok t
    → is_sorted t.entries ≡ true
    → length bs ≤ max_object_bytes
    → encode t ≡ ok bs
unfolding encode
tree_encode-decode bs t good e sorted fits =
    let written = (tree_decode_exact bs t good e).1 in
    let size =
      le→ltb max_object_bytes (length (write t))
        (subst (λ u. length u ≤ max_object_bytes) written fits) in
    rw (sorted, size, written)
