-- ===== src/Core/Cursor/Consumes.antt =====
-- What a parser that succeeds took off its input.
use naatre.Prelude.{
  bind, ◌≢◌, zero, suc, ap, All, err, if◌then◌else◌, get_or, ℕ, ◌^◌, ◌≤◌, ◌<◌, ◌≡◌, refl, sym,
  subst, true, false, Bool, Bool-cases, inl, inr, ltb, [], ◌∷◌, ◌++◌, append_assoc, append-nil,
  arith, Bytes, IsBytes, Result, ok, length, refuse_if, All-append, bind-eq-ok, refuse_if-eq-ok,
  ltb-false→le, take-append-drop, length-take_of_le,
}
use naatre.Core.Error.{CoreError, decode_too_large, decode_invalid_utf8}
use naatre.Core.Words.{le_bytes, from_le, le_bytes-from_le, from_le-lt}
use naatre.Core.Utf8.{is_utf8}
use naatre.Core.Cursor.{
  Parser, pure, lift, ◌>>=◌, ◌>>◌, remaining, take_bytes, take32, read_u8, u32_le, u64_le,
  ensure_left, as_utf8, str_field, write_str, max_object_bytes, write_all, repeat, finish,
  remaining,
}

-- Of bytes, `p` takes off the front a part that `P` relates to the value returned.
pub record Consumes {A : Type 0} (P : A → Bytes → Type 0) (p : Parser A) : Type 0 where
  pub at :
      (bs rest : Bytes) (a : A)
      → IsBytes bs
      → p bs ≡ ok (a, rest)
      → (used : Bytes) × (bs ≡ used ++ rest) × P a used × IsBytes rest

module _ {A : Type 0} where
  pub Consumes-pure : {P : A → Bytes → Type 0} (a : A) → P a [] → Consumes P (pure a)
  Consumes-pure {P} a h = record {
    at = λ bs rest b good e. ([], cc, subst (λ c. P c []) (cc) h, subst IsBytes (cc) good);
  }

  pub Consumes-lift :
      {P : A → Bytes → Type 0} (r : Result CoreError A)
      → ((a : A) → r ≡ ok a → P a [])
      → Consumes P (lift r)
  Consumes-lift {P} (ok a) h = Consumes-pure a (h a refl)
  Consumes-lift {P} (Result.err e) h = record { at = λ bs rest b good e. cc }

module _ {A B : Type 0} where
  pub Consumes-bind :
      {P : A → Bytes → Type 0} {Q : B → Bytes → Type 0} {p : Parser A} {f : A → Parser B}
      → Consumes P p
      → ((a : A) (u : Bytes) → P a u → Consumes (λ b v. Q b (u ++ v)) (f a))
      → Consumes Q (p >>= f)
  Consumes-bind {P} {Q} {p} {f} hp hf = record {
    at = λ bs rest b good e.
        let (r, e₁, e₂) = bind-eq-ok (p bs) (λ r. f r.0 r.1) e in
        let (u, split₁, pu, good₁) = hp.at bs r.1 r.0 good e₁ in
        let (v, split₂, qv, good₂) = (hf r.0 u pu).at r.1 rest b good₁ e₂ in
        (u ++ v, rw (split₁, split₂) (sym (append_assoc u v rest)), qv, good₂);
  }

  pub Consumes-then :
      {P : A → Bytes → Type 0} {Q : B → Bytes → Type 0} {p : Parser A} {q : Parser B}
      → Consumes P p
      → ((a : A) (u : Bytes) → P a u → Consumes (λ b v. Q b (u ++ v)) q)
      → Consumes Q (p >> q)
  Consumes-then {P} {Q} {p} {q} hp hq = Consumes-bind {P = P} {Q = Q} {p = p} {f = λ _. q} hp hq

module _ {A : Type 0} where
  pub Consumes-map :
      {P Q : A → Bytes → Type 0} {p : Parser A}
      → Consumes P p
      → ((a : A) (u : Bytes) → P a u → Q a u)
      → Consumes Q p
  Consumes-map hp f = record {
    at = λ bs rest a good e.
        let (u, split, pu, good') = hp.at bs rest a good e in (u, split, f a u pu, good');
  }

-- A check takes nothing, and what it lets pass holds.
pub Consumes-refuse_if :
    (b : Bool) (e : CoreError) → Consumes (λ _ u. (u ≡ []) × (b ≡ false)) (lift (refuse_if b e))
Consumes-refuse_if b e = Consumes-lift _ (λ a h. (refl, refuse_if-eq-ok b e h))

pub Consumes-ensure_left : (need : ℕ) → Consumes (λ _ u. u ≡ []) (ensure_left need)
unfolding ensure_left remaining
Consumes-ensure_left need = record {
  at = λ bs rest a good e.
      let (r, e₁, e₂) = bind-eq-ok (refuse_if (ltb (length bs) need) decode_too_large) _ e in
      ([], cc, refl, subst IsBytes (cc) good);
}

ok-injective :
    {a b c d : Bytes}
    → ◌≡◌ {A = Result CoreError (Bytes × Bytes)} (ok (a, b)) (ok (c, d))
    → (a ≡ c) × (b ≡ d)
ok-injective e = (cc, cc)

take_bytes_split :
    (n : ℕ) (bs rest a : Bytes)
    → IsBytes bs
    → take_bytes n bs ≡ ok (a, rest)
    → (used : Bytes) × (bs ≡ used ++ rest)
      × ((used ≡ a) × (length a ≡ n) × IsBytes a)
      × IsBytes rest
unfolding take_bytes
take_bytes_split n bs rest a good e = elim (Bool-cases (ltb (length bs) n)) [
  | inl short ↦ absurd (cc (rw short at e))
  | inr enough ↦
      let parts = ok-injective (rw enough at e) in
      let taken = parts.0 in
      let left = parts.1 in
      let split : bs ≡ a ++ rest = cc (taken, left, take-append-drop n bs) in
      let goods = (All-append _ a rest).0 (subst IsBytes split good) in
      let size : length a ≡ n =
        rw (← taken) (length-take_of_le n bs (ltb-false→le (length bs) n enough)) in
      (a, split, (refl, size, goods.0), goods.1)
]

pub Consumes-take_bytes :
    (n : ℕ) → Consumes (λ bs u. (u ≡ bs) × (length bs ≡ n) × IsBytes bs) (take_bytes n)
unfolding take_bytes
Consumes-take_bytes n = record { at = λ bs rest a good e. take_bytes_split n bs rest a good e }

pub Consumes-word :
    (n : ℕ)
    → Consumes (λ v u. (v < 256 ^ n) × (u ≡ le_bytes n v)) (take_bytes n >>= λ b. pure (from_le b))
Consumes-word n = Consumes-bind (Consumes-take_bytes n) λ bs u (eq, len, good). Consumes-pure _ (
  subst (λ m. from_le bs < 256 ^ m) len (from_le-lt bs good),
  rw (append-nil u, eq, ← len) (sym (le_bytes-from_le bs good)),
)

single :
    (bs u : Bytes)
    → u ≡ bs
    → length bs ≡ 1
    → IsBytes bs
    → (get_or bs 0 0 < 256) × (u ++ [] ≡ get_or bs 0 0 ∷ [])
single [] u eq len good = absurd (omega arith)
single (b ∷ []) u eq len good = (good.0, rw (append-nil u) eq)
single (b ∷ c ∷ bs) u eq len good = absurd (omega arith)

pub Consumes-u8 : Consumes (λ b u. (b < 256) × (u ≡ b ∷ [])) read_u8
unfolding read_u8
Consumes-u8 =
    Consumes-bind (Consumes-take_bytes 1)
      λ bs u (eq, len, good). Consumes-pure _ (single bs u eq len good)

pub Consumes-u32 : Consumes (λ v u. (v < 2 ^ 32) × (u ≡ le_bytes 4 v)) u32_le
unfolding u32_le
Consumes-u32 = Consumes-word 4

pub Consumes-u64 : Consumes (λ v u. (v < 2 ^ 64) × (u ≡ le_bytes 8 v)) u64_le
unfolding u64_le
Consumes-u64 = Consumes-word 8

pub Consumes-take32 : Consumes (λ id u. (u ≡ id) × (length id ≡ 32) × IsBytes id) take32
unfolding take32
Consumes-take32 = Consumes-take_bytes 32

as_utf8_if :
    (s : Bytes) (b : Bool)
    → (b ≡ true → is_utf8 s ≡ true)
    → Consumes
        (λ t u. (u ≡ []) × (t ≡ s) × (is_utf8 s ≡ true))
        (if b then pure s else lift (err decode_invalid_utf8))
as_utf8_if s true h = Consumes-pure s (refl, refl, h refl)
as_utf8_if s false h = record { at = λ bs rest a good e. cc }

pub Consumes-as_utf8 :
    (s : Bytes) → Consumes (λ t u. (u ≡ []) × (t ≡ s) × (is_utf8 s ≡ true)) (as_utf8 s)
unfolding as_utf8
Consumes-as_utf8 s = as_utf8_if s (is_utf8 s) (λ h. h)

-- A `String` field as a decoder returns it.
pub record IsStr (s : Bytes) : Type 0 where
  pub bytes : IsBytes s
  pub short : length s ≤ max_object_bytes
  pub valid : is_utf8 s ≡ true

pub Consumes-string : Consumes (λ s u. IsStr s × (u ≡ write_str s)) str_field
unfolding str_field write_str
Consumes-string = Consumes-bind Consumes-u64 λ len u₁ (fits, eq₁).
    Consumes-then (Consumes-refuse_if (ltb max_object_bytes len) _) λ _ u₂ (eq₂, short).
      Consumes-then (Consumes-ensure_left len) λ _ u₃ eq₃.
        Consumes-bind (Consumes-take_bytes len) λ s u₄ (eq₄, size, good).
          Consumes-map (Consumes-as_utf8 s) λ t u₅ (eq₅, same, valid). rw same (
            record {
              bytes = good;
              short = omega (arith, size, ltb-false→le max_object_bytes len short);
              valid = valid;
            },
            rw (eq₁, eq₂, eq₃, eq₄, eq₅, ← size, append-nil s),
          )

module _ {A : Type 0} (Good : A → Type 0) (print : A → Bytes) where
  pub Consumes-repeat :
      {p : Parser A} (n : ℕ)
      → Consumes (λ a u. Good a × (u ≡ print a)) p
      → Consumes (λ as' u. All Good as' × (length as' ≡ n) × (u ≡ write_all print as')) (repeat n p)
  unfolding repeat
  Consumes-repeat zero h = Consumes-pure [] (tt, refl, refl)
  Consumes-repeat (suc n) h = Consumes-bind h λ a u (good, eq).
      Consumes-bind (Consumes-repeat n h) λ as' v (goods, len, eqs).
        Consumes-pure _ ((good, goods), ap suc len, rw (append-nil v, eq, eqs))

-- Of bytes, `p` takes the whole, which `P` relates to the value returned.
pub record ConsumesWhole {A : Type 0} (P : A → Bytes → Type 0) (p : Parser A) : Type 0 where
  pub at : (bs rest : Bytes) (a : A) → IsBytes bs → p bs ≡ ok (a, rest) → P a bs

not_finished : {A : Type 0} (a : A) (x : ℕ) (bs : Bytes) {r : A × Bytes} → finish a (x ∷ bs) ≢ ok r
unfolding finish remaining
not_finished a x bs e = ground arith

pub ConsumesWhole-finish :
    {A : Type 0} {P : A → Bytes → Type 0} (a : A) → P a [] → ConsumesWhole P (finish a)
unfolding finish remaining
ConsumesWhole-finish {A} {P} a h = record { at = at }
  where
    at : (bs rest : Bytes) (b : A) → IsBytes bs → finish a bs ≡ ok (b, rest) → P b bs
    at [] rest b good e = subst (λ c. P c []) (cc) h
    at (x ∷ bs) rest b good e = absurd (not_finished a x bs e)

module _ {A B : Type 0} where
  pub ConsumesWhole-bind :
      {P : A → Bytes → Type 0} {Q : B → Bytes → Type 0} {p : Parser A} {f : A → Parser B}
      → Consumes P p
      → ((a : A) (u : Bytes) → P a u → ConsumesWhole (λ b v. Q b (u ++ v)) (f a))
      → ConsumesWhole Q (p >>= f)
  ConsumesWhole-bind {P} {Q} {p} {f} hp hf = record {
    at = λ bs rest b good e.
        let (r, e₁, e₂) = bind-eq-ok (p bs) (λ r. f r.0 r.1) e in
        let (u, split, pu, good₁) = hp.at bs r.1 r.0 good e₁ in
        subst (Q b) (sym split) ((hf r.0 u pu).at r.1 rest b good₁ e₂);
  }

  pub ConsumesWhole-then :
      {P : A → Bytes → Type 0} {Q : B → Bytes → Type 0} {p : Parser A} {q : Parser B}
      → Consumes P p
      → ((a : A) (u : Bytes) → P a u → ConsumesWhole (λ b v. Q b (u ++ v)) q)
      → ConsumesWhole Q (p >> q)
  ConsumesWhole-then {P} {Q} {p} {q} hp hq =
      ConsumesWhole-bind {P = P} {Q = Q} {p = p} {f = λ _. q} hp hq

value_of :
    {A : Type 0} {a : A} (m : Result CoreError (A × Bytes))
    → bind m (λ r. Result.ok r.0) ≡ ok a
    → (rest : Bytes) × (m ≡ ok (a, rest))
value_of (ok (b, rest)) e = (rest, cc e)
value_of (err c) e = cc

-- A decoder drops the cursor at the end.
pub ConsumesWhole-run :
    {A : Type 0} {P : A → Bytes → Type 0} {p : Parser A}
    → ConsumesWhole P p
    → (bs : Bytes) (a : A) → IsBytes bs
    → bind (p bs) (λ r. ok r.0) ≡ ok a
    → P a bs
ConsumesWhole-run {p = p} h bs a good e =
    let (rest, e') = value_of (p bs) e in h.at bs rest a good e'
