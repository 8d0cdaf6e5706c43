-- ===== src/Core/Cursor/Reads.antt =====
-- What a parser reads off the front of any input, one rule for each way to build a parser of
-- crates/naatre-core/src/changeset.rs.
use naatre.Prelude.{
  refuse_if, false, Bool, ◌*◌, ◌+◌, ℕ, ◌^◌, ◌≤◌, ◌<◌, ◌≡◌, refl, subst, true, List, [], ◌∷◌, ◌++◌,
  append_assoc, append-nil, arith, Bytes, Result, ok, length, length-append, take-append,
  drop-append, le→ltb, All,
}
use naatre.Core.Error.{CoreError, decode_length_overflow}
use naatre.Core.Words.{le_bytes, from_le, length-le_bytes, from_le-le_bytes}
use naatre.Core.Utf8.{is_utf8}
use naatre.Core.Cursor.{
  Parser, pure, lift, ◌>>=◌, ◌>>◌, repeat, remaining, take_bytes, take32, read_u8, u32_le, u64_le,
  ensure_left, finish, as_utf8, str_field, write_str, max_object_bytes, write_all,
}

-- `p` takes `used` off the front and returns `a`, whatever follows.
pub record Reads {A : Type 0} (p : Parser A) (used : Bytes) (a : A) : Type 0 where
  pub at : (rest : Bytes) → p (used ++ rest) ≡ ok (a, rest)

module _ {A : Type 0} where
  pub Reads-pure : (a : A) → Reads (pure a) [] a
  Reads-pure a = record { at = λ rest. refl }

  pub Reads-lift : (r : Result CoreError A) {a : A} → r ≡ ok a → Reads (lift r) [] a
  Reads-lift r h = record { at = λ rest. rw h }

  pub Reads-cast : {p : Parser A} {u v : Bytes} {a : A} → u ≡ v → Reads p u a → Reads p v a
  Reads-cast {p} {a = a} e h = subst (λ w. Reads p w a) e h

  pub Reads-value : {p : Parser A} {u : Bytes} {a b : A} → a ≡ b → Reads p u a → Reads p u b
  Reads-value {p} {u} e h = subst (λ c. Reads p u c) e h

module _ {A B : Type 0} where
  pub Reads-bind :
      {p : Parser A} (f : A → Parser B) {u v : Bytes} {a : A} {b : B}
      → Reads p u a
      → Reads (f a) v b
      → Reads (p >>= f) (u ++ v) b
  Reads-bind {p} f {u} {v} {a} {b} hp hf = record {
    at = λ rest. rw (append_assoc u v rest, hp.at (v ++ rest)) (hf.at rest);
  }

module _ {B : Type 0} where
  -- A check that passes reads nothing.
  pub Reads-check :
      (refused : Bool) (e : CoreError) {q : Parser B} {v : Bytes} {b : B}
      → refused ≡ false
      → Reads q v b
      → Reads (lift (refuse_if refused e) >> q) v b
  Reads-check refused e h hq = record { at = λ rest. rw h (hq.at rest) }

  -- A check that enough input is left passes where what is read next is that long.
  pub Reads-ensure_left :
      (need : ℕ) {q : Parser B} {v : Bytes} {b : B}
      → need ≤ length v
      → Reads q v b
      → Reads (ensure_left need >> q) v b
  unfolding ensure_left remaining
  Reads-ensure_left need {v = v} h hq = record {
    at = λ rest.
        rw (le→ltb (length (v ++ rest)) need (omega (arith, length-append v rest))) (hq.at rest);
  }

module _ {A : Type 0} (print : A → Bytes) where
  pub Reads-repeat :
      (p : Parser A) (as' : List A)
      → All (λ a. Reads p (print a) a) as'
      → Reads (repeat (length as') p) (write_all print as') as'
  unfolding repeat
  Reads-repeat p [] h = Reads-pure []
  Reads-repeat p (a ∷ as') h =
      Reads-bind _ h.0
        (Reads-cast (append-nil _) (Reads-bind _ (Reads-repeat p as' h.1) (Reads-pure _)))

pub Reads-take_bytes : (used : Bytes) → Reads (take_bytes (length used)) used used
unfolding take_bytes
Reads-take_bytes used = record {
  at = λ rest. rw (
    le→ltb (length (used ++ rest)) (length used) (omega (arith, length-append used rest)),
    take-append used rest,
    drop-append used rest,
  );
}

pub Reads-take_of_length : (n : ℕ) (used : Bytes) → length used ≡ n → Reads (take_bytes n) used used
Reads-take_of_length n used h =
    subst (λ m. Reads (take_bytes m) used used) h (Reads-take_bytes used)

pub Reads-word :
    (n v : ℕ) → v < 256 ^ n → Reads (take_bytes n >>= λ b. pure (from_le b)) (le_bytes n v) v
Reads-word n v h = Reads-cast (append-nil _) (
    Reads-bind _ (Reads-take_of_length n _ (length-le_bytes n v))
      (record { at = λ rest. rw (from_le-le_bytes n v h) }))

pub Reads-u8 : (b : ℕ) → Reads read_u8 (b ∷ []) b
unfolding read_u8
Reads-u8 b = Reads-bind _ (Reads-take_bytes (b ∷ [])) (Reads-pure b)

pub Reads-u32 : (v : ℕ) → v < 2 ^ 32 → Reads u32_le (le_bytes 4 v) v
unfolding u32_le
Reads-u32 v h = Reads-word 4 v h

pub Reads-u64 : (v : ℕ) → v < 2 ^ 64 → Reads u64_le (le_bytes 8 v) v
unfolding u64_le
Reads-u64 v h = Reads-word 8 v h

pub Reads-take32 : (id : Bytes) → length id ≡ 32 → Reads take32 id id
unfolding take32
Reads-take32 id h = Reads-take_of_length 32 id h

pub Reads-as_utf8 : (s : Bytes) → is_utf8 s ≡ true → Reads (as_utf8 s) [] s
unfolding as_utf8
Reads-as_utf8 s valid = record { at = λ rest. rw valid }

pub Reads-str :
    (s : Bytes) → length s ≤ max_object_bytes → is_utf8 s ≡ true → Reads str_field (write_str s) s
unfolding str_field write_str
Reads-str s short valid = Reads-bind _ (Reads-u64 (length s) (omega arith)) (
    Reads-check _ decode_length_overflow (le→ltb max_object_bytes (length s) short) (
      Reads-ensure_left (length s) (omega arith)
        (Reads-cast (append-nil s) (Reads-bind _ (Reads-take_bytes s) (Reads-as_utf8 s valid)))))

-- `p` reads the whole input and returns `a`.
pub record ReadsWhole {A : Type 0} (p : Parser A) (used : Bytes) (a : A) : Type 0 where
  pub at : p used ≡ ok (a, [])

pub ReadsWhole-finish : {A : Type 0} (a : A) → ReadsWhole (finish a) [] a
unfolding finish remaining
ReadsWhole-finish a = record { at = refl }

pub ReadsWhole-cast :
    {A : Type 0} {p : Parser A} {u v : Bytes} {a : A} → u ≡ v → ReadsWhole p u a → ReadsWhole p v a
ReadsWhole-cast {p = p} {a = a} e h = subst (λ w. ReadsWhole p w a) e h

module _ {A B : Type 0} where
  pub ReadsWhole-bind :
      {p : Parser A} (f : A → Parser B) {u v : Bytes} {a : A} {b : B}
      → Reads p u a
      → ReadsWhole (f a) v b
      → ReadsWhole (p >>= f) (u ++ v) b
  ReadsWhole-bind f {v = v} hp hf = record { at = rw (hp.at v) hf.at }

module _ {B : Type 0} where
  pub ReadsWhole-check :
      (refused : Bool) (e : CoreError) {q : Parser B} {v : Bytes} {b : B}
      → refused ≡ false
      → ReadsWhole q v b
      → ReadsWhole (lift (refuse_if refused e) >> q) v b
  ReadsWhole-check refused e h hq = record { at = rw h hq.at }

  pub ReadsWhole-ensure_left :
      (need : ℕ) {q : Parser B} {v : Bytes} {b : B}
      → need ≤ length v
      → ReadsWhole q v b
      → ReadsWhole (ensure_left need >> q) v b
  unfolding ensure_left remaining
  ReadsWhole-ensure_left need {v = v} h hq = record { at = rw (le→ltb (length v) need h) hq.at }

-- The prints of a list are as long as their number times the least length.
pub length-write_all {ℓ} :
    {A : Type ℓ} (print : A → Bytes) (k : ℕ)
    → ((a : A) → k ≤ length (print a))
    → (as' : List A) → length as' * k ≤ length (write_all print as')
length-write_all print k least [] = omega arith
length-write_all print k least (a ∷ as') = omega (
  arith,
  least a,
  length-write_all print k least as',
  length-append (print a) (write_all print as'),
)

pub length-write_str : (s : Bytes) → length (write_str s) ≡ 8 + length s
unfolding write_str
length-write_str s =
    omega (arith, length-append (le_bytes 8 (length s)) s, length-le_bytes 8 (length s))
