-- ===== src/Server/Merge/Delta/Parts.antt =====
-- crates/naatre-server/src/merge.rs: the components of the paths that `flatten_files` joins.
use naatre.Prelude.{
  ℕ, ◌≡◌, ◌⊎◌, refl, sym, ap, ◌∙◌, subst, arith, false, Option, none, some, List, [], ◌∷◌, ◌++◌,
  Bytes, is_empty, bytes_eq, bytes_eq→eq, bytes_eq_refl, ◌==◌, Bool-cases, inl, inr, if◌then◌else◌,
}
use naatre.Core.Path.{split, slash, push_front}
use naatre.Server.Authz.Segments.{split_cons}
use naatre.Server.TreeDerive.Ordered.{GoodName}
use naatre.Server.Merge.Delta.{join}

-- The text of some components.
unsplit : List Bytes → Bytes
unsplit [] = []
unsplit (s ∷ []) = s
unsplit (s ∷ t ∷ ss) = s ++ (slash ∷ unsplit (t ∷ ss))

unsplit-push : (c : ℕ) (s : Bytes) (ss : List Bytes) → unsplit ((c ∷ s) ∷ ss) ≡ c ∷ unsplit (s ∷ ss)
unfolding unsplit
unsplit-push c s [] = refl
unsplit-push c s (t ∷ ss) = refl

unsplit-split : (s : Bytes) → unsplit (split s slash) ≡ s
unfolding split push_front unsplit
unsplit-split [] = refl
unsplit-split (c ∷ s) =
    let (f, r, e) = split_cons s in
    let ih : unsplit (f ∷ r) ≡ s = subst (λ x. unsplit x ≡ s) e (unsplit-split s) in
    elim (Bool-cases (c == slash)) [
      | inl here ↦ let at : c ≡ slash = ground arith in rw (here, e) (rw (ih, at) refl)
      | inr other ↦ rw (other, e) (unsplit-push c f r ∙ ap (λ x. c ∷ x) ih)
    ]

pub split_injective : (a b : Bytes) → split a slash ≡ split b slash → a ≡ b
split_injective a b h = sym (unsplit-split a) ∙ ap unsplit h ∙ unsplit-split b

split-append : (a b : Bytes) → split (a ++ (slash ∷ b)) slash ≡ split a slash ++ split b slash
unfolding split push_front
split-append [] b = refl
split-append (c ∷ a) b =
    let (f, r, e) = split_cons a in
    elim (Bool-cases (c == slash)) [
      | inl here ↦ rw (here, split-append a b) refl
      | inr other ↦ rw (other, split-append a b, e) refl
    ]

-- The text of the directories above, and their names.
abbrev pub IsPrefix : Bytes → List Bytes → Type 0
IsPrefix prefix ps =
    ((prefix ≡ []) × (ps ≡ [])) ⊎ ((is_empty prefix ≡ false) × (split prefix slash ≡ ps))

pub split-join :
    (prefix name : Bytes) (ps : List Bytes)
    → IsPrefix prefix ps
    → GoodName name
    → split (join prefix name) slash ≡ ps ++ (name ∷ [])
unfolding join
split-join prefix name ps (inl (none_above, top)) (one, full) = rw (none_above, top) one
split-join prefix name ps (inr (above, parts)) (one, full) =
    rw above (split-append prefix name ∙ (rw (parts, one) refl))

full_append : (a : Bytes) (c : ℕ) (b : Bytes) → is_empty (a ++ (c ∷ b)) ≡ false
full_append [] c b = refl
full_append (x ∷ a) c b = refl

pub join-IsPrefix :
    (prefix name : Bytes) (ps : List Bytes)
    → IsPrefix prefix ps
    → GoodName name
    → IsPrefix (join prefix name) (ps ++ (name ∷ []))
unfolding join
join-IsPrefix prefix name ps h good = inr (full h good, split-join prefix name ps h good)
  where
    full : IsPrefix prefix ps → GoodName name → is_empty (join prefix name) ≡ false
    full (inl (none_above, top)) (one, filled) = rw none_above filled
    full (inr (above, parts)) (one, filled) = rw above (full_append prefix slash name)

-- What follows some components in a path.
unfoldable pub strip : List Bytes → List Bytes → Option (List Bytes)
strip [] ns = some ns
strip (p ∷ ps) [] = none
strip (p ∷ ps) (n ∷ ns) = if bytes_eq n p then strip ps ns else none

pub strip_prefix_eq : (ps r : List Bytes) → strip ps (ps ++ r) ≡ some r
unfolding strip
strip_prefix_eq [] r = refl
strip_prefix_eq (p ∷ ps) r = rw (bytes_eq_refl p) (strip_prefix_eq ps r)

pub strip_whole : (ps ns r : List Bytes) → strip ps ns ≡ some r → ns ≡ ps ++ r
unfolding strip
strip_whole [] ns r h = cc
strip_whole (p ∷ ps) [] r h = absurd cc
strip_whole (p ∷ ps) (n ∷ ns) r h = elim (Bool-cases (bytes_eq n p)) [
  | inl same ↦
      let rest : strip ps ns ≡ some r = (rw same refl) ∙ h in
      let ih = strip_whole ps ns r rest in let at = bytes_eq→eq n p same in cc
  | inr other ↦ let gone : none ≡ some r = (rw other refl) ∙ h in absurd cc
]

abbrev pub one_more : Bytes → Option (List Bytes) → Option (List Bytes)
one_more name none = none
one_more name (some []) = none
one_more name (some (n ∷ ns)) = if bytes_eq n name then some ns else none

pub strip-append :
    (ps : List Bytes) (name : Bytes) (ns : List Bytes)
    → strip (ps ++ (name ∷ [])) ns ≡ one_more name (strip ps ns)
unfolding strip
strip-append [] name [] = refl
strip-append [] name (n ∷ ns) = refl
strip-append (p ∷ ps) name [] = refl
strip-append (p ∷ ps) name (n ∷ ns) = elim (Bool-cases (bytes_eq n p)) [
  | inl same ↦ rw same (strip-append ps name ns)
  | inr other ↦ rw other refl
]
