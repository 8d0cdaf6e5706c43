-- ===== src/Cli/Index/Exact.antt =====
-- crates/naatre-cli/src/wc/index.rs: the bytes that `decode` accepts.
use naatre.Prelude.{
  ℕ, zero, suc, ◌+◌, ◌<◌, ◌≤◌, ◌≡◌, refl, sym, ap, ◌∙◌, subst, arith, Bool, true, false, not,
  Option, none, some, List, [], ◌∷◌, ◌++◌, Bytes, IsBytes, All-append, ok, bind-eq-ok, refuse_if,
  refuse_if-eq-ok, length, take, drop, get_or, is_empty, any, bytes_eq, bytes_eq→eq, bytes_lt, ltb,
  ltb-false→le, ◌==◌, ==_iff, if◌then◌else◌, length-append, take-append-drop, length-take_of_le,
  append_assoc, append-nil, Bool-cases, inl, inr,
}
use naatre.Core.Words.{le_bytes, from_le, le_bytes-from_le}
use naatre.Core.Utf8.{is_utf8}
use naatre.Cli.Index.{
  magic, index_version, short_header, bad_magic, unknown_version, trailing_bytes, Row,
  truncated_length, truncated_record, is_after, read_bool, read_path, row_fields, read_row,
  read_rows, decode, write_row, write_rows, encode,
}
use naatre.Cli.Index.RoundTrip.{Ascending, Below, insert_row-last, lift_bound}

IsBytes-take : (n : ℕ) (xs : Bytes) → IsBytes xs → IsBytes (take n xs)
IsBytes-take n xs h =
    ((All-append (λ b. b < 256) (take n xs) (drop n xs)).0
      (subst IsBytes (sym (take-append-drop n xs)) h)).0

IsBytes-drop : (n : ℕ) (xs : Bytes) → IsBytes xs → IsBytes (drop n xs)
IsBytes-drop n xs h =
    ((All-append (λ b. b < 256) (take n xs) (drop n xs)).0
      (subst IsBytes (sym (take-append-drop n xs)) h)).1

length-drop : (n : ℕ) (xs : Bytes) → n ≤ length xs → length (drop n xs) + n ≡ length xs
length-drop n xs h =
    let whole = ap length (take-append-drop n xs) in
    omega (arith, whole, length-append (take n xs) (drop n xs), length-take_of_le n xs h)

drop-drop : (k m n : ℕ) (xs : Bytes) → k ≡ m + n → drop n (drop m xs) ≡ drop k xs
drop-drop k zero n xs h = ap (λ i. drop i xs) (omega (arith, h))
drop-drop zero (suc m) n xs h = absurd (omega (arith, h))
drop-drop (suc k) (suc m) zero [] h = refl
drop-drop (suc k) (suc m) (suc n) [] h = refl
drop-drop (suc k) (suc m) n (x ∷ xs) h = drop-drop k m n xs (omega (arith, h))

-- A word that was read writes back what was there.
word_back :
    (n k next : ℕ) (xs : Bytes)
    → IsBytes xs
    → next ≡ k + n
    → next ≤ length xs
    → le_bytes n (from_le (take n (drop k xs))) ++ drop next xs ≡ drop k xs
word_back n k next xs bytes at fits =
    let here = drop k xs in
    let left = length-drop k xs (omega (arith, at)) in
    let long : length (take n here) ≡ n = length-take_of_le n here (omega (arith, at, left)) in
    let back : le_bytes n (from_le (take n here)) ≡ take n here =
      subst (λ m. le_bytes m (from_le (take n here)) ≡ take n here) long
        (le_bytes-from_le (take n here) (IsBytes-take n here (IsBytes-drop k xs bytes))) in
    rw (back, sym (drop-drop next k n xs at)) (take-append-drop n here)

read_bool-eq-ok : (b : ℕ) (exec : Bool) → read_bool b ≡ ok exec → b ≡ (if exec then 1 else 0)
read_bool-eq-ok b exec h = elim (Bool-cases (b == 0)) [
  | inl zero_byte ↦
      let same : false ≡ exec = cc in
      subst (λ x. b ≡ (if x then 1 else 0)) same ((==_iff b 0).0 zero_byte)
  | inr other ↦ elim (Bool-cases (b == 1)) [
    | inl one ↦
        let same : true ≡ exec = cc in
        subst (λ x. b ≡ (if x then 1 else 0)) same ((==_iff b 1).0 one)
    | inr bad ↦ absurd cc
  ]
]

-- What `write_row` writes after the path.
unfoldable fields : Row → Bytes → Bytes
fields row rest =
    row.blob
    ++ (le_bytes 8 row.size
        ++ (le_bytes 8 row.mtime_ns
            ++ (le_bytes 8 row.ctime_ns
                ++ (le_bytes 8 row.ino ++ ((if row.exec then 1 else 0) ∷ rest)))))

head_back : (b : ℕ) (xs : Bytes) → 1 ≤ length xs → get_or xs 0 0 ≡ b → b ∷ drop 1 xs ≡ xs
head_back b [] h e = absurd (omega (arith, h))
head_back b (x ∷ xs) h e = ap (λ y. y ∷ xs) (sym e)

words_back :
    (words : Bytes)
    → IsBytes words
    → 33 ≤ length words
    → le_bytes 8 (from_le (take 8 words))
        ++ (le_bytes 8 (from_le (take 8 (drop 8 words)))
            ++ (le_bytes 8 (from_le (take 8 (drop 16 words)))
                ++ (le_bytes 8 (from_le (take 8 (drop 24 words))) ++ drop 32 words)))
      ≡ words
words_back words bytes long =
    let back = λ (k next : ℕ) (at : next ≡ k + 8) (fits : next ≤ length words).
      word_back 8 k next words bytes at fits in
    rw
      (
        back 24 32 refl (omega (arith, long)),
        back 16 24 refl (omega (arith, long)),
        back 8 16 refl (omega (arith, long)),
      )
      (back 0 8 refl (omega (arith, long)))

fields_exact :
    (path cur : Bytes) (row : Row) (rest : Bytes)
    → IsBytes cur
    → 65 ≤ length cur
    → row_fields path cur ≡ ok (row, rest)
    → (row.path ≡ path) × (fields row rest ≡ cur) × IsBytes rest
unfolding row_fields fields
fields_exact path cur row rest bytes long e =
    let words = drop 32 cur in
    let size = length-drop 32 cur (omega (arith, long)) in
    let (exec, flag, made) = bind-eq-ok (read_bool (get_or (drop 32 words) 0 0)) _ e in
    let tail = length-drop 32 words (omega (arith, size, long)) in
    let byte =
      head_back (if exec then 1 else 0) (drop 32 words) (omega (arith, tail, size, long))
        (read_bool-eq-ok _ exec flag) in
    let four = words_back words (IsBytes-drop 32 cur bytes) (omega (arith, size, long)) in
    let row₁ : Row = record {
      path = path;
      blob = take 32 cur;
      size = from_le (take 8 words);
      mtime_ns = from_le (take 8 (drop 8 words));
      ctime_ns = from_le (take 8 (drop 16 words));
      ino = from_le (take 8 (drop 24 words));
      exec = exec;
    } in
    let same_row : row₁ ≡ row = cc in
    let same_rest : drop 1 (drop 32 words) ≡ rest = cc in
    let whole : fields row₁ (drop 1 (drop 32 words)) ≡ cur =
      unfold fields in rw (byte, four) (take-append-drop 32 cur) in
    (
      ap (λ r. r.path) (sym same_row),
      subst (λ r. fields r rest ≡ cur) same_row (subst (λ t. fields row₁ t ≡ cur) same_rest whole),
      subst IsBytes same_rest
          (IsBytes-drop 1 (drop 32 words) (IsBytes-drop 32 words (IsBytes-drop 32 cur bytes))),
    )

not-false : (b : Bool) → not b ≡ false → b ≡ true
not-false true h = refl
not-false false h = absurd cc

path_exact :
    (prev : Option Bytes) (path path' : Bytes)
    → read_path prev path ≡ ok path'
    → (path ≡ path') × (is_after prev path ≡ true)
unfolding read_path
path_exact prev path path' e =
    let (_, _, rest) = bind-eq-ok (refuse_if (not (is_utf8 path)) _) _ e in
    let (_, _, rest₁) = bind-eq-ok (refuse_if (any (λ b. b == 0) path) _) _ rest in
    let (_, later, same) = bind-eq-ok (refuse_if (not (is_after prev path)) _) _ rest₁ in
    let kept = refuse_if-eq-ok (not (is_after prev path)) _ later in
    (cc same, not-false (is_after prev path) kept)

row_exact :
    (prev : Option Bytes) (cur : Bytes) (row : Row) (rest : Bytes)
    → IsBytes cur
    → read_row prev cur ≡ ok (row, rest)
    → (is_after prev row.path ≡ true) × (write_row row rest ≡ cur) × IsBytes rest
unfolding read_row
row_exact prev cur row rest bytes e =
    let (_, enough, after_length) =
      bind-eq-ok (refuse_if (ltb (length cur) 4) truncated_length) _ e in
    let four = ltb-false→le (length cur) 4 (refuse_if-eq-ok _ truncated_length enough) in
    let n = from_le (take 4 cur) in
    let body = drop 4 cur in
    let (_, enough₁, after_record) =
      bind-eq-ok (refuse_if (ltb (length body) (n + 65)) truncated_record) _ after_length in
    let long = ltb-false→le (length body) (n + 65) (refuse_if-eq-ok _ truncated_record enough₁) in
    let (path, named, made) = bind-eq-ok (read_path prev (take n body)) _ after_record in
    let (same, later) = path_exact prev (take n body) path named in
    let body_bytes = IsBytes-drop 4 cur bytes in
    let left = length-drop n body (omega (arith, long)) in
    let (at, back, rest_bytes) =
      fields_exact path (drop n body) row rest (IsBytes-drop n body body_bytes)
        (omega (arith, left, long)) made in
    let here : row.path ≡ take n body = at ∙ sym same in
    let size = length-take_of_le n body (omega (arith, long)) in
    let whole : le_bytes 4 (length row.path) ++ (row.path ++ fields row rest) ≡ cur =
      ap (λ b. le_bytes 4 (length row.path) ++ (row.path ++ b)) back
      ∙ ap (λ p. le_bytes 4 (length p) ++ (p ++ drop n body)) here
      ∙ ap (λ m. le_bytes 4 m ++ (take n body ++ drop n body)) size
      ∙ ap (λ b. le_bytes 4 n ++ b) (take-append-drop n body)
      ∙ word_back 4 0 4 cur bytes refl four in
    (
      subst (λ p. is_after prev p ≡ true) (sym here) later,
      (unfold write_row fields in whole),
      rest_bytes,
    )

-- Whatever comes after `prev` comes after the rows read so far.
abbrev Bound : Option Bytes → List Row → Type 0
Bound prev acc = (q : Bytes) → is_after prev q ≡ true → Below q acc

rows_exact :
    (n : ℕ) (prev : Option Bytes) (cur : Bytes) (acc rows : List Row)
    → IsBytes cur
    → Bound prev acc
    → read_rows n prev cur acc ≡ ok (rows, [])
    → (new : List Row) × (rows ≡ acc ++ new)
      × Ascending prev new
      × (length new ≡ n)
      × (write_rows new ≡ cur)
unfolding read_rows write_rows
rows_exact zero prev cur acc rows bytes bound e =
    let same : rows ≡ acc = cc in
    let nothing : [] ≡ cur = cc in ([], same ∙ sym (append-nil acc), tt, refl, nothing)
rows_exact (suc n) prev cur acc rows bytes bound e =
    let (r, read, rest) = bind-eq-ok (read_row prev cur) _ e in
    let (row, left) = r in
    let (later, written, left_bytes) = row_exact prev cur row left bytes read in
    let grown = insert_row-last row acc (bound row.path later) in
    let next : read_rows n (some row.path) left (acc ++ (row ∷ [])) ≡ ok (rows, []) =
      subst (λ a. read_rows n (some row.path) left a ≡ ok (rows, [])) grown rest in
    let (new, same, asc, count, whole) =
      rows_exact n (some row.path) left (acc ++ (row ∷ [])) rows left_bytes
        (λ q lt.
          (All-append (λ a. bytes_lt a.path q ≡ true) acc (row ∷ [])).1
            (lift_bound row.path q acc lt (bound row.path later), (lt, tt)))
        next in
    (
      row ∷ new,
      same ∙ append_assoc acc (row ∷ []) new,
      (later, asc),
      ap suc count,
      ap (write_row row) whole ∙ written,
    )

get_or-drop : (k : ℕ) (xs : Bytes) → get_or (drop k xs) 0 0 ≡ get_or xs k 0
get_or-drop zero xs = refl
get_or-drop (suc k) [] = refl
get_or-drop (suc k) (x ∷ xs) = get_or-drop k xs

is_empty-nil : (xs : Bytes) → is_empty xs ≡ true → xs ≡ []
is_empty-nil [] h = refl
is_empty-nil (x ∷ xs) h = absurd cc

-- Whatever bytes `decode` accepts as an index are exactly the bytes that `encode` writes for it, and its
-- rows ascend by path.
pub index_encode-decode :
    (bytes : Bytes) (rows : List Row)
    → IsBytes bytes
    → decode bytes ≡ ok rows
    → (encode rows ≡ bytes) × Ascending none rows
unfolding decode
index_encode-decode bytes rows octets e =
    let (_, enough, e₁) = bind-eq-ok (refuse_if (ltb (length bytes) 11) short_header) _ e in
    let long = ltb-false→le (length bytes) 11 (refuse_if-eq-ok _ short_header enough) in
    let (_, named, e₂) =
      bind-eq-ok (refuse_if (not (bytes_eq (take 6 bytes) magic)) bad_magic) _ e₁ in
    let front =
      bytes_eq→eq (take 6 bytes) magic (not-false _ (refuse_if-eq-ok _ bad_magic named)) in
    let (_, known, e₃) =
      bind-eq-ok (refuse_if (not (get_or bytes 6 0 == index_version)) unknown_version) _ e₂ in
    let version =
      (==_iff (get_or bytes 6 0) index_version).0
        (not-false _ (refuse_if-eq-ok _ unknown_version known)) in
    let count = from_le (take 4 (drop 7 bytes)) in
    let (r, read, e₄) = bind-eq-ok (read_rows count none (drop 11 bytes) []) _ e₃ in
    let (_, done, made) = bind-eq-ok (refuse_if (not (is_empty r.1)) trailing_bytes) _ e₄ in
    let nothing = is_empty-nil r.1 (not-false _ (refuse_if-eq-ok _ trailing_bytes done)) in
    let all_read : read_rows count none (drop 11 bytes) [] ≡ ok (rows, []) = cc in
    let (new, same, asc, counted, whole) =
      rows_exact count none (drop 11 bytes) [] rows (IsBytes-drop 11 bytes octets) (λ q h. tt)
        all_read in
    let six = length-drop 6 bytes (omega (arith, long)) in
    let head : index_version ∷ drop 7 bytes ≡ drop 6 bytes =
      ap (λ t. index_version ∷ t) (sym (drop-drop 7 6 1 bytes refl))
      ∙ head_back index_version (drop 6 bytes) (omega (arith, six, long))
          (get_or-drop 6 bytes ∙ version) in
    let written : magic ++ (index_version ∷ (le_bytes 4 (length new) ++ write_rows new)) ≡ bytes =
      ap (λ w. magic ++ (index_version ∷ (le_bytes 4 (length new) ++ w))) whole
      ∙ ap (λ m. magic ++ (index_version ∷ (le_bytes 4 m ++ drop 11 bytes))) counted
      ∙ ap (λ w. magic ++ (index_version ∷ w)) (word_back 4 7 11 bytes octets refl long)
      ∙ ap (λ w. magic ++ w) head
      ∙ ap (λ m. m ++ drop 6 bytes) (sym front)
      ∙ take-append-drop 6 bytes in
    (
      (unfold encode in
          subst (λ rs. magic ++ (index_version ∷ (le_bytes 4 (length rs) ++ write_rows rs)) ≡ bytes)
            (sym same) written),
      subst (Ascending none) (sym same) asc,
    )
