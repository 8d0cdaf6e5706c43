-- ===== src/Server/Merge/Lines/Order.antt =====
-- crates/naatre-server/src/merge.rs: the order in which `merge_lines` applies the hunks of both sides.
use naatre.Prelude.{
  ℕ, ◌≤◌, ◌≡◌, arith, Bool, true, false, List, [], ◌∷◌, ◌++◌, any, ltb, All, Bool-cases, ◌⊎◌, inl,
  inr,
}
use naatre.Core.Conflict.{bool_eq}
use naatre.Server.Merge.Lines.{
  Hunk, Tagged, overlaps, is_insertion, clash, clashes, key_lt, bool_lt, insert_by_key, sort_by_key,
  tag_all,
}

-- The base lines of one hunk end before those of the other.
abbrev pub Fits : Hunk → Hunk → Type 0
Fits g h = (g.end' ≤ h.start) ⊎ (h.end' ≤ g.start)

-- A hunk of a base of `n` lines.
abbrev pub InRange : ℕ → Hunk → Type 0
InRange n h = (h.start ≤ h.end') × (h.end' ≤ n)

-- From `pos` on, each hunk begins at or after the end of the one before.
abbrev pub Ordered : ℕ → ℕ → List Hunk → Type 0
Ordered n pos [] = pos ≤ n
Ordered n pos (h ∷ hs) = (pos ≤ h.start) × InRange n h × Ordered n h.end' hs

abbrev pub OrderedTags : ℕ → ℕ → List Tagged → Type 0
OrderedTags n pos [] = pos ≤ n
OrderedTags n pos (t ∷ ts) = (pos ≤ t.0.start) × InRange n t.0 × OrderedTags n t.0.end' ts

-- The first of two hunks that fit, by key, ends before the second begins.
first-ends :
    (n : ℕ) (s t : Tagged)
    → InRange n s.0
    → InRange n t.0
    → Fits t.0 s.0
    → key_lt s t ≡ true
    → s.0.end' ≤ t.0.start
unfolding key_lt bool_lt bool_eq is_insertion
first-ends n (g, from_g) (h, from_h) (g₀, g₁) (h₀, h₁) (inl fits) lt = ground arith
first-ends n (g, from_g) (h, from_h) (g₀, g₁) (h₀, h₁) (inr fits) lt = fits

second-ends :
    (n : ℕ) (s t : Tagged)
    → InRange n s.0
    → InRange n t.0
    → Fits t.0 s.0
    → key_lt s t ≡ false
    → t.0.end' ≤ s.0.start
unfolding key_lt bool_lt bool_eq is_insertion
second-ends n (g, from_g) (h, from_h) (g₀, g₁) (h₀, h₁) (inl fits) lt = fits
second-ends n (g, from_g) (h, from_h) (g₀, g₁) (h₀, h₁) (inr fits) lt = ground arith

abbrev FitsAll : Tagged → List Tagged → Type 0
FitsAll t ts = All (λ s. Fits t.0 s.0) ts

insert-OrderedTags :
    (n pos : ℕ) (t : Tagged) (ts : List Tagged)
    → pos ≤ t.0.start
    → InRange n t.0
    → FitsAll t ts
    → OrderedTags n pos ts
    → OrderedTags n pos (insert_by_key t ts)
unfolding insert_by_key
insert-OrderedTags n pos t [] from range fits ordered = (from, range, range.1)
insert-OrderedTags n pos t (s ∷ ts) from range (fit, fits) (from_s, range_s, ordered) =
    elim (Bool-cases (key_lt s t)) [
      | inl before ↦
          let ends = first-ends n s t range_s range fit before in
          rw before (from_s, range_s, insert-OrderedTags n s.0.end' t ts ends range fits ordered)
      | inr after ↦
          let ends = second-ends n s t range_s range fit after in
          rw after (from, range, (ends, range_s, ordered))
    ]

All-insert_by_key {ℓ} :
    (P : Tagged → Type ℓ) (t : Tagged) (ts : List Tagged)
    → P t
    → All P ts
    → All P (insert_by_key t ts)
unfolding insert_by_key
All-insert_by_key P t [] p ps = (p, tt)
All-insert_by_key P t (s ∷ ts) p (q, ps) = elim (Bool-cases (key_lt s t)) [
  | inl before ↦ rw before (q, All-insert_by_key P t ts p ps)
  | inr after ↦ rw after (p, (q, ps))
]

All-sort_by_key {ℓ} : (P : Tagged → Type ℓ) (ts : List Tagged) → All P ts → All P (sort_by_key ts)
unfolding sort_by_key
All-sort_by_key P [] ps = tt
All-sort_by_key P (t ∷ ts) (p, ps) =
    All-insert_by_key P t (sort_by_key ts) p (All-sort_by_key P ts ps)

-- Hunks in range, of which any two fit.
abbrev pub Apart : ℕ → List Tagged → Type 0
Apart n [] = Unit
Apart n (t ∷ ts) = InRange n t.0 × FitsAll t ts × Apart n ts

-- Sorting hunks of which any two fit puts each after the end of the one before.
pub sort-OrderedTags : (n : ℕ) (ts : List Tagged) → Apart n ts → OrderedTags n 0 (sort_by_key ts)
unfolding sort_by_key
sort-OrderedTags n [] h = omega arith
sort-OrderedTags n (t ∷ ts) (range, fits, apart) =
    insert-OrderedTags n 0 t (sort_by_key ts) (omega arith) range (All-sort_by_key _ ts fits)
      (sort-OrderedTags n ts apart)

-- Hunks in order begin at or after the position that they are ordered from.
Ordered-starts : (n pos : ℕ) (hs : List Hunk) → Ordered n pos hs → All (λ h. pos ≤ h.start) hs
Ordered-starts n pos [] h = tt
Ordered-starts n pos (h ∷ hs) (from, (range, _), ordered) =
    (from, weaken hs (Ordered-starts n h.end' hs ordered))
  where
    weaken : (hs : List Hunk) → All (λ g. h.end' ≤ g.start) hs → All (λ g. pos ≤ g.start) hs
    weaken [] k = tt
    weaken (g ∷ gs) (k, ks) = (omega arith, weaken gs ks)

fits_tagged :
    (b : Bool) (g : Hunk) (from : Bool) (hs : List Hunk)
    → All (λ h. g.end' ≤ h.start) hs
    → FitsAll (g, from) (tag_all b hs)
unfolding tag_all
fits_tagged b g from [] k = tt
fits_tagged b g from (h ∷ hs) (k, ks) = (inl k, fits_tagged b g from hs ks)

side-Apart : (n pos : ℕ) (b : Bool) (hs : List Hunk) → Ordered n pos hs → Apart n (tag_all b hs)
unfolding tag_all
side-Apart n pos b [] h = tt
side-Apart n pos b (h ∷ hs) (from, range, ordered) = (
  range,
  fits_tagged b h b hs (Ordered-starts n h.end' hs ordered),
  side-Apart n h.end' b hs ordered,
)

ranges : (n pos : ℕ) (hs : List Hunk) → Ordered n pos hs → All (InRange n) hs
ranges n pos [] h = tt
ranges n pos (h ∷ hs) (from, range, ordered) = (range, ranges n h.end' hs ordered)

no_clash-Fits : (n : ℕ) (g h : Hunk) → InRange n g → InRange n h → clash g h ≡ false → Fits g h
unfolding clash overlaps
no_clash-Fits n g h g_range h_range apart = elim (Bool-cases (ltb g.start h.end')) [
  | inl before ↦ inl (ground arith)
  | inr after ↦ inr (ground arith)
]

any-false {ℓ} :
    {A : Type ℓ} (p : A → Bool) (x : A) (xs : List A)
    → any p (x ∷ xs) ≡ false
    → (p x ≡ false) × (any p xs ≡ false)
any-false p x xs h = (ground arith, ground arith)

fits_other :
    (n : ℕ) (g : Hunk) (hs : List Hunk)
    → InRange n g
    → All (InRange n) hs
    → any (clash g) hs ≡ false
    → FitsAll (g, false) (tag_all true hs)
unfolding tag_all
fits_other n g [] range ranges clear = tt
fits_other n g (h ∷ hs) range (r, rs) clear =
    let (here, there) = any-false (clash g) h hs clear in
    (no_clash-Fits n g h range r here, fits_other n g hs range rs there)

FitsAll-append :
    (t : Tagged) (ts us : List Tagged) → FitsAll t ts → FitsAll t us → FitsAll t (ts ++ us)
FitsAll-append t [] us h k = k
FitsAll-append t (s ∷ ts) us (h, hs) k = (h, FitsAll-append t ts us hs k)

sides-Apart :
    (n pos : ℕ) (ours theirs : List Hunk)
    → Ordered n pos ours
    → Ordered n 0 theirs
    → clashes ours theirs ≡ false
    → Apart n (tag_all false ours ++ tag_all true theirs)
unfolding tag_all clashes
sides-Apart n pos [] theirs h k clear = side-Apart n 0 true theirs k
sides-Apart n pos (g ∷ gs) theirs (from, range, ordered) k clear =
    let (here, there) = any-false (λ ho. any (clash ho) theirs) g gs clear in
    (
      range,
      FitsAll-append (g, false) (tag_all false gs) (tag_all true theirs)
          (fits_tagged false g false gs (Ordered-starts n g.end' gs ordered))
          (fits_other n g theirs range (ranges n 0 theirs k) here),
      sides-Apart n g.end' gs theirs ordered k there,
    )

-- Where no hunk of ours clashes with one of theirs, the sorted hunks of both follow each other.
pub sides-OrderedTags :
    (n : ℕ) (ours theirs : List Hunk)
    → Ordered n 0 ours
    → Ordered n 0 theirs
    → clashes ours theirs ≡ false
    → OrderedTags n 0 (sort_by_key (tag_all false ours ++ tag_all true theirs))
sides-OrderedTags n ours theirs h k clear =
    sort-OrderedTags n _ (sides-Apart n 0 ours theirs h k clear)
