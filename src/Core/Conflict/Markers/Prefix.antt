-- ===== src/Core/Conflict/Markers/Prefix.antt =====
-- crates/naatre-core/src/conflict.rs: the first-line screen against the full detector.
use naatre.Prelude.{
  ℕ, zero, suc, ◌+◌, ◌-◌, ◌≤◌, ◌<◌, ◌≡◌, refl, sym, ap, subst, ◌∙◌, arith, true, ◌&&◌, none, some,
  List, [], ◌∷◌, ◌++◌, map, Bytes, codes, length, take, drop, all, bytes_eq, bytes_eq_refl,
  bytes_eq→eq, leb, ltb, ◌==◌, if◌then◌else◌, length-append, take-append, drop-append,
  take-append-drop, Bool-cases, Option-cases, inl, inr, and_true,
}
use naatre.Core.Utf8.{is_utf8}
use naatre.Core.Utf8.Ascii.{is_utf8_before}
use naatre.Core.Text.{
  strip_prefix, strip_suffix, split_once, split_inclusive, onto_first, strip_line, lines,
}
use naatre.Core.Conflict.{max_entries}
use naatre.Core.Conflict.Markers.{
  exec_token, marker_prefix_bytes, parse_canonical_decimal, is_blob_hex, is_side_ref,
  parse_opener_rest, parse_opener, shaped_rest, shaped_lines, marker_shaped, pop, first_line,
  is_lower_hex, is_opener, opener_screen, marker_opener,
}

-- What is taken off the front of a text is there.
strip_prefix-append : (s p r : Bytes) → strip_prefix s p ≡ some r → s ≡ p ++ r
unfolding strip_prefix
strip_prefix-append s [] r h = cc
strip_prefix-append [] (d ∷ p) r h = absurd cc
strip_prefix-append (c ∷ s) (d ∷ p) r h = ground (arith, strip_prefix-append s p r)

strip_suffix-append : (s t r : Bytes) → strip_suffix s t ≡ some r → s ≡ r ++ t
unfolding strip_suffix
strip_suffix-append s t r h =
    elim (Bool-cases (leb (length t) (length s) && bytes_eq (drop (length s - length t) s) t)) [
      | inl found ↦
          let (_, same) =
            and_true (leb (length t) (length s)) (bytes_eq (drop (length s - length t) s) t)
              found in
          let tail = bytes_eq→eq (drop (length s - length t) s) t same in
          let front : take (length s - length t) s ≡ r = cc in
          sym (take-append-drop (length s - length t) s) ∙ (rw (tail, front) refl)
      | inr missing ↦ absurd cc
    ]

strip_suffix_found : (r t : Bytes) → strip_suffix (r ++ t) t ≡ some r
unfolding strip_suffix
strip_suffix_found r t =
    let n = length-append r t in
    let size : length (r ++ t) - length t ≡ length r = omega (arith, n) in
    rw (size, drop-append r t, take-append r t, bytes_eq_refl t) (fits (length r) (length t) n)
  where
    fits :
        (a b : ℕ)
        → length (r ++ t) ≡ a + b
        → (if leb b (length (r ++ t)) && true then some r else none) ≡ some r
    fits a b e = ground arith

split_once-append : (p s a b : Bytes) → split_once p s ≡ some (a, b) → s ≡ a ++ (p ++ b)
unfolding split_once
split_once-append p [] a b h = elim (Option-cases (strip_prefix [] p)) [
  | inl missing ↦ absurd cc
  | inr (r, found) ↦
      let front : [] ≡ a = cc in
      let back : r ≡ b = cc in
      strip_prefix-append [] p r found
      ∙ subst (λ x. p ++ r ≡ x ++ (p ++ b)) front (ap (λ x. p ++ x) back)
]
split_once-append p (c ∷ s) a b h = elim (Option-cases (strip_prefix (c ∷ s) p)) [
  | inr (r, found) ↦
      let front : [] ≡ a = cc in
      let back : r ≡ b = cc in
      strip_prefix-append (c ∷ s) p r found
      ∙ subst (λ x. p ++ r ≡ x ++ (p ++ b)) front (ap (λ x. p ++ x) back)
  | inl missing ↦ elim (Option-cases (split_once p s)) [
    | inl none_later ↦ absurd cc
    | inr ((a', b'), later) ↦
        let front : c ∷ a' ≡ a = cc in
        let back : b' ≡ b = cc in
        let tail = split_once-append p s a' b' later in
        subst (λ x. c ∷ s ≡ x ++ (p ++ b)) front
          (ap (λ x. c ∷ x) (tail ∙ ap (λ x. a' ++ (p ++ x)) back))
  ]
]

-- What the detectors accept is short.
decimal-short : (s : Bytes) (n : ℕ) → parse_canonical_decimal s ≡ some n → length s ≤ 6
unfolding parse_canonical_decimal
decimal-short s n h = elim (Bool-cases (ltb 6 (length s))) [
  | inl long ↦ absurd (ground arith)
  | inr short ↦ ground arith
]

blob_hex-length : (id : Bytes) → is_blob_hex id ≡ true → length id ≡ 64
unfolding is_blob_hex
blob_hex-length id h = ground (arith, and_true (length id == 64) (all is_lower_hex id) h)

side_ref-short : (field : Bytes) → is_side_ref field ≡ true → length field ≤ 67
unfolding is_side_ref
side_ref-short field h = elim (Option-cases (strip_suffix field exec_token)) [
  | inl plain ↦ omega (arith, blob_hex-length field (cc))
  | inr (id, marked) ↦
      let whole = strip_suffix-append field exec_token id marked in
      omega (arith, ap length whole, length-append id exec_token, blob_hex-length id (cc))
]

opener_rest-short :
    (rest id : Bytes) (n : ℕ) → parse_opener_rest rest ≡ some (n, id) → length rest ≤ 8 + length id
unfolding parse_opener_rest
opener_rest-short rest id n h = elim (Option-cases (split_once (codes ": ") rest)) [
  | inl missing ↦ absurd cc
  | inr ((count, field), found) ↦ elim (Option-cases (parse_canonical_decimal count)) [
    | inl bad ↦ absurd cc
    | inr (m, read) ↦ elim (Bool-cases (leb 2 m && leb m max_entries)) [
      | inr out ↦ absurd cc
      | inl inside ↦
          let same : field ≡ id = cc in
          let whole = split_once-append (codes ": ") rest count field found in
          omega (
            arith,
            ap length whole,
            length-append count (codes ": " ++ field),
            decimal-short count m read,
            ap length same,
          )
    ]
  ]
]

opener-short :
    (line id : Bytes) (n : ℕ) → parse_opener line ≡ some (n, id) → length line ≤ 30 + length id
unfolding parse_opener
opener-short line id n h =
    elim (Option-cases (strip_prefix line (codes "<<<<<<< naatre side 1/"))) [
      | inl missing ↦ absurd cc
      | inr (rest, found) ↦
          let whole = strip_prefix-append line (codes "<<<<<<< naatre side 1/") rest found in
          omega (arith, ap length whole, opener_rest-short rest id n (cc))
    ]

onto_first-eq :
    (c : ℕ) (ls : List Bytes) (raw r : Bytes) (rs : List Bytes)
    → onto_first c ls ≡ raw ∷ r ∷ rs
    → (l : Bytes) × (ls ≡ l ∷ r ∷ rs) × (c ∷ l ≡ raw)
unfolding onto_first
onto_first-eq c [] raw r rs h = absurd cc
onto_first-eq c (l ∷ ls) raw r rs h = (l, cc, cc)

-- A line that ends in the first `\n` of a text.
record IsFirst (s raw l tail : Bytes) : Type 0 where
  raw_line : raw ≡ l ++ (10 ∷ [])
  whole : s ≡ l ++ (10 ∷ tail)
  found : first_line s ≡ some l

split_inclusive-IsFirst :
    (s raw r : Bytes) (rs : List Bytes)
    → split_inclusive s ≡ raw ∷ r ∷ rs
    → (l : Bytes) × (tail : Bytes) × IsFirst s raw l tail
unfolding split_inclusive first_line
split_inclusive-IsFirst [] raw r rs h = absurd cc
split_inclusive-IsFirst (c ∷ s) raw r rs h = elim (Bool-cases (c == 10)) [
  | inl here ↦
      let newline : c ≡ 10 = ground arith in
      ([], s, record { raw_line = cc; whole = ap (λ x. x ∷ s) newline; found = rw here refl })
  | inr other ↦
      let (l', later, line) = onto_first-eq c (split_inclusive s) raw r rs (cc) in
      let (l, tail, rest) = split_inclusive-IsFirst s l' r rs later in
      (
        c ∷ l,
        tail,
        record {
          raw_line = sym line ∙ ap (λ x. c ∷ x) rest.raw_line;
          whole = ap (λ x. c ∷ x) rest.whole;
          found = rw (other, rest.found) refl;
        },
      )
]

-- The first line is found in any prefix that is longer than it.
first_line-take :
    (s l : Bytes) (n : ℕ) → first_line s ≡ some l → length l < n → first_line (take n s) ≡ some l
unfolding first_line
first_line-take s l zero h lt = absurd (omega arith)
first_line-take [] l (suc n) h lt = absurd cc
first_line-take (c ∷ s) l (suc n) h lt = elim (Bool-cases (c == 10)) [
  | inl here ↦ rw here (cc)
  | inr other ↦ elim (Option-cases (first_line s)) [
    | inl missing ↦ absurd cc
    | inr (l', later) ↦
        let same : c ∷ l' ≡ l = cc in
        rw (other, first_line-take s l' n later (omega (arith, ap length same))) (ap some same)
  ]
]

pop-ne-none :
    (ls : List Bytes) (n : ℕ)
    → shaped_rest n ls ≡ true
    → (r : Bytes) × (rs : List Bytes) × (ls ≡ r ∷ rs)
unfolding shaped_rest pop
pop-ne-none [] n h = absurd cc
pop-ne-none (r ∷ rs) n h = (r, rs, refl)

map_cons :
    (s line : Bytes) (r : Bytes) (rs : List Bytes) (raws : List Bytes)
    → map strip_line raws ≡ line ∷ r ∷ rs
    → (raw : Bytes) × (r' : Bytes) × (rest : List Bytes) × (raws ≡ raw ∷ r' ∷ rest)
      × (strip_line raw ≡ line)
map_cons s line r rs [] h = absurd cc
map_cons s line r rs (x ∷ []) h = absurd cc
map_cons s line r rs (x ∷ y ∷ raws) h = (x, y, raws, refl, cc)

-- What the screen reads of a raw line is what the detector reads.
screen_of :
    (l line tail : Bytes)
    → strip_line (l ++ (10 ∷ [])) ≡ line
    → is_utf8 (l ++ (10 ∷ tail)) ≡ true
    → is_opener line ≡ true
    → (opener_screen l ≡ true) × (length l ≤ length line + 1)
unfolding strip_line opener_screen
screen_of l line tail h text good =
    let raw = strip_suffix_found l (10 ∷ []) in
    let utf8 = is_utf8_before l 10 tail (omega arith) text in
    elim (Option-cases (strip_suffix l (13 ∷ []))) [
      | inl plain ↦
          let same : l ≡ line = cc in
          let opens = subst (λ x. is_opener x ≡ true) (sym same) good in
          let ready : (is_utf8 l && is_opener l) ≡ true = rw (utf8, opens) refl in
          (cc, omega (arith, ap length same))
      | inr (t, returned) ↦
          let same : t ≡ line = cc in
          let whole = strip_suffix-append l (13 ∷ []) t returned in
          let opens = subst (λ x. is_opener x ≡ true) (sym same) good in
          let text =
            is_utf8_before t 13 [] (omega arith) (subst (λ x. is_utf8 x ≡ true) whole utf8) in
          let ready : (is_utf8 t && is_opener t) ≡ true = rw (text, opens) refl in
          (cc, omega (arith, ap length same, ap length whole, length-append t (13 ∷ [])))
    ]

opener_of :
    (line id : Bytes) (n : ℕ)
    → parse_opener line ≡ some (n, id)
    → is_side_ref id ≡ true
    → is_opener line ≡ true
unfolding is_opener
opener_of line id n h k = cc

-- The lines of a marker file, with its opener.
shaped-opener :
    (ls : List Bytes)
    → shaped_lines ls ≡ true
    → (line : Bytes) × (r : Bytes) × (rs : List Bytes) × (ls ≡ line ∷ r ∷ rs)
      × (is_opener line ≡ true)
      × (length line ≤ 97)
unfolding shaped_lines
shaped-opener [] h = absurd cc
shaped-opener (line ∷ rest) h = elim (Option-cases (parse_opener line)) [
  | inl missing ↦ absurd cc
  | inr ((n, id), parsed) ↦
      let both : (is_side_ref id && shaped_rest n rest) ≡ true = cc in
      let (reference, shaped) = and_true (is_side_ref id) (shaped_rest n rest) both in
      let (r, rs, more) = pop-ne-none rest n shaped in
      (
        line,
        r,
        rs,
        ap (λ x. line ∷ x) more,
        opener_of line id n parsed reference,
        omega (arith, opener-short line id n parsed, side_ref-short id reference),
      )
]

-- `marker_opener`, given the first 128 bytes of a blob or more, never misses a blob that
-- `marker_shaped` accepts.
pub marker_opener-marker_shaped :
    (bytes : Bytes) (n : ℕ)
    → marker_shaped bytes ≡ true
    → marker_prefix_bytes ≤ n
    → marker_opener (take n bytes) ≡ true
unfolding marker_shaped lines marker_opener
marker_opener-marker_shaped bytes n h enough =
    let (text, shaped) = and_true (is_utf8 bytes) (shaped_lines (lines bytes)) h in
    let (line, r, rs, split, opens, short) = shaped-opener (lines bytes) shaped in
    let (raw, r', rest, raws, stripped) = map_cons bytes line r rs (split_inclusive bytes) split in
    let (l, tail, first) = split_inclusive-IsFirst bytes raw r' rest raws in
    let (screened, near) =
      screen_of l line tail (subst (λ x. strip_line x ≡ line) first.raw_line stripped)
        (subst (λ x. is_utf8 x ≡ true) first.whole text) opens in
    let found = first_line-take bytes l n first.found (omega arith) in cc
