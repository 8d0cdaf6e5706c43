-- ===== src/Core/Utf8/Ascii.antt =====
-- Well-formed UTF-8 before an ASCII byte.
use naatre.Prelude.{
  ℕ, zero, suc, ◌≤◌, ◌<◌, ◌≡◌, refl, ap, ◌∙◌, arith, true, some, [], ◌∷◌, ◌++◌, Bytes, Option-cases,
  inl, inr,
}
use naatre.Core.Utf8.{Scan, start, expect, after, scan_step, scan, is_utf8}

-- The bytes that a character still wants are not ASCII.
abbrev Wants : Scan → Type 0
Wants start = Unit
Wants (expect lo hi more) = 128 ≤ lo

after-Wants : (more : ℕ) → Wants (after more)
unfolding after
after-Wants zero = tt
after-Wants (suc more) = omega arith

step-Wants : (s : Scan) (b : ℕ) (t : Scan) → Wants s → scan_step s b ≡ some t → Wants t
unfolding scan_step
step-Wants s b start h e = tt
step-Wants start b (expect lo hi more) h e = ground arith
step-Wants (expect lo hi zero) b (expect lo' hi' more) h e = unfold after in ground arith
step-Wants (expect lo hi (suc k)) b (expect lo' hi' more) h e = unfold after in ground arith

step_ascii : (s : Scan) (c : ℕ) (t : Scan) → Wants s → c < 128 → scan_step s c ≡ some t → s ≡ start
unfolding scan_step
step_ascii start c t h small e = refl
step_ascii (expect lo hi more) c t h small e = ground arith

scan-step :
    (s : Scan) (b : ℕ) (bs : Bytes) (t : Scan)
    → scan s (b ∷ bs) ≡ some t
    → (s' : Scan) × (scan_step s b ≡ some s') × (scan s' bs ≡ some t)
unfolding scan
scan-step s b bs t e = elim (Option-cases (scan_step s b)) [
  | inl refused ↦ absurd cc
  | inr (s', stepped) ↦ (s', stepped, cc)
]

scan-cons :
    (s s' : Scan) (b : ℕ) (bs : Bytes) → scan_step s b ≡ some s' → scan s (b ∷ bs) ≡ scan s' bs
unfolding scan
scan-cons s s' b bs e = cc

scan-before :
    (s : Scan) (a : Bytes) (c : ℕ) (b : Bytes) (t : Scan)
    → Wants s
    → c < 128
    → scan s (a ++ (c ∷ b)) ≡ some t
    → scan s a ≡ some start
scan-before s [] c b t h small e =
    let (s', stepped, _) = scan-step s c b t e in
    unfold scan in ap some (step_ascii s c s' h small stepped)
scan-before s (x ∷ a) c b t h small e =
    let (s', stepped, rest) = scan-step s x (a ++ (c ∷ b)) t e in
    scan-cons s s' x a stepped ∙ scan-before s' a c b t (step-Wants s x s' h stepped) small rest

utf8_scan : (bs : Bytes) → is_utf8 bs ≡ true → (t : Scan) × (scan start bs ≡ some t)
unfolding is_utf8
utf8_scan bs h = elim (Option-cases (scan start bs)) [
  | inl refused ↦ absurd cc
  | inr (t, e) ↦ (t, e)
]

-- What stands before an ASCII byte of a well-formed text is well-formed.
pub is_utf8_before :
    (a : Bytes) (c : ℕ) (b : Bytes) → c < 128 → is_utf8 (a ++ (c ∷ b)) ≡ true → is_utf8 a ≡ true
unfolding is_utf8
is_utf8_before a c b small h =
    let (t, e) = utf8_scan (a ++ (c ∷ b)) h in
    let before = scan-before start a c b t tt small e in cc
