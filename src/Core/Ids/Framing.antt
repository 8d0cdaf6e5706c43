-- ===== src/Core/Ids/Framing.antt =====
-- crates/naatre-core/src/ids.rs: what the hasher is fed for an object.
use naatre.Prelude.{
  ◌≡◌, refl, sym, ap, ◌∙◌, ◌++◌, arith, Bytes, ◌∷◌, codes, length, get_or, take-append, drop-append,
  take, drop,
}
use naatre.Core.Words.{le_bytes, length-le_bytes}
use naatre.Core.Ids.{Kind, blob, tree, changeset, label, framed}

append_injective :
    (a b xs ys : Bytes) → length a ≡ length b → a ++ xs ≡ b ++ ys → (a ≡ b) × (xs ≡ ys)
append_injective a b xs ys len same = (
  sym (take-append a xs)
      ∙ ap (take (length a)) same
      ∙ ap (λ n. take n (b ++ ys)) len
      ∙ take-append b ys,
  sym (drop-append a xs)
      ∙ ap (drop (length a)) same
      ∙ ap (λ n. drop n (b ++ ys)) len
      ∙ drop-append b ys,
)

label_injective :
    (k l : Kind) (xs ys : Bytes) → label k ++ (0 ∷ xs) ≡ label l ++ (0 ∷ ys) → (k ≡ l) × (xs ≡ ys)
unfolding label
label_injective blob blob xs ys same = (refl, cc)
label_injective tree tree xs ys same = (refl, cc)
label_injective changeset changeset xs ys same = (refl, cc)
label_injective blob tree xs ys same = absurd (omega (arith, ap (λ s. get_or s 0 0) same))
label_injective blob changeset xs ys same = absurd (omega (arith, ap (λ s. get_or s 0 0) same))
label_injective tree blob xs ys same = absurd (omega (arith, ap (λ s. get_or s 0 0) same))
label_injective tree changeset xs ys same = absurd (omega (arith, ap (λ s. get_or s 0 0) same))
label_injective changeset blob xs ys same = absurd (omega (arith, ap (λ s. get_or s 0 0) same))
label_injective changeset tree xs ys same = absurd (omega (arith, ap (λ s. get_or s 0 0) same))

-- For versions of equal length, as the two format versions are, the hasher is fed the same bytes
-- only for the same version, kind and payload.
pub framed_injective :
    (v w : Bytes) (k l : Kind) (payload other : Bytes)
    → length v ≡ length w
    → framed v k payload ≡ framed w l other
    → (v ≡ w) × (k ≡ l) × (payload ≡ other)
unfolding framed
framed_injective v w k l payload other len same =
    let tails = append_injective (codes "naatre") (codes "naatre") _ _ refl same in
    let versions = append_injective v w _ _ len (ap (drop 1) tails.1) in
    let kinds = label_injective k l _ _ (ap (drop 1) versions.1) in
    let sizes =
      append_injective (le_bytes 8 (length payload)) (le_bytes 8 (length other)) _ _
        (length-le_bytes 8 (length payload) ∙ sym (length-le_bytes 8 (length other))) kinds.1 in
    (versions.0, kinds.0, ap (drop 1) sizes.1)
