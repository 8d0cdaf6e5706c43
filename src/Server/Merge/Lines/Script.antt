-- ===== src/Server/Merge/Lines/Script.antt =====
-- crates/naatre-server/src/merge.rs: what `hunks_of` makes of the operations of a line diff.
use naatre.Prelude.{
  ℕ, ◌+◌, ◌≤◌, ◌≡◌, refl, sym, ap, arith, Option, none, some, List, [], ◌∷◌, length, subst,
}
use naatre.Server.Merge.Lines.{
  DiffOp, equal, delete, insert, replace, Lines, Hunk, slice, hunk_of, hunks_of, push, replacing,
}
use naatre.Server.Merge.Lines.Order.{Ordered, InRange}
use naatre.Server.Merge.Lines.Applies.{slice-Returns}

-- The operations lead from line `i` of an old text of `n` lines and line `j` of a new text of `m`
-- lines to the ends of both, each going on where the one before ended.
abbrev pub Script : ℕ → ℕ → ℕ → ℕ → List DiffOp → Type 0
Script n m i j [] = (i ≡ n) × (j ≡ m)
Script n m i j (equal old_index new_index len ∷ ops) =
    (old_index ≡ i) × (new_index ≡ j) × Script n m (i + len) (j + len) ops
Script n m i j (delete old_index old_len new_index ∷ ops) =
    (old_index ≡ i) × (new_index ≡ j) × Script n m (i + old_len) j ops
Script n m i j (insert old_index new_index new_len ∷ ops) =
    (old_index ≡ i) × (new_index ≡ j) × Script n m i (j + new_len) ops
Script n m i j (replace old_index old_len new_index new_len ∷ ops) =
    (old_index ≡ i) × (new_index ≡ j) × Script n m (i + old_len) (j + new_len) ops

Script-le : (n m i j : ℕ) (ops : List DiffOp) → Script n m i j ops → (i ≤ n) × (j ≤ m)
Script-le n m i j [] h = (omega arith, omega arith)
Script-le n m i j (equal o w len ∷ ops) (_, _, h) =
    let (a, b) = Script-le n m (i + len) (j + len) ops h in (omega arith, omega arith)
Script-le n m i j (delete o len w ∷ ops) (_, _, h) =
    let (a, b) = Script-le n m (i + len) j ops h in (omega arith, omega arith)
Script-le n m i j (insert o w len ∷ ops) (_, _, h) =
    let (a, b) = Script-le n m i (j + len) ops h in (omega arith, omega arith)
Script-le n m i j (replace o len w len₁ ∷ ops) (_, _, h) =
    let (a, b) = Script-le n m (i + len) (j + len₁) ops h in (omega arith, omega arith)

-- The hunks that `hunks_of` returns are in order from `i` on.
abbrev pub HunksFrom : ℕ → ℕ → Option (List Hunk) → Type 0
HunksFrom n i o = (hs : List Hunk) × (o ≡ some hs) × Ordered n i hs

push-hunk :
    (n i : ℕ) (h : Hunk) (one : Option (Option Hunk)) (rest : Option (List Hunk))
    → one ≡ some (some h)
    → i ≤ h.start
    → InRange n h
    → HunksFrom n h.end' rest
    → HunksFrom n i (push one rest)
push-hunk n i h one rest made from range (hs, e, ordered) =
    (h ∷ hs, rw (made, e) refl, (from, range, ordered))

push-none :
    (n i k : ℕ) (rest : Option (List Hunk))
    → i ≤ k
    → HunksFrom n k rest
    → HunksFrom n i (push (some none) rest)
push-none n i k rest le (hs, e, ordered) = (hs, rw e refl, sooner hs ordered)
  where
    sooner : (hs : List Hunk) → Ordered n k hs → Ordered n i hs
    sooner [] h = omega arith
    sooner (h ∷ hs) (from, range, ordered) = (omega arith, range, ordered)

push-slice :
    (n i : ℕ) (new_lines : Lines) (start end' from to : ℕ) (rest : Option (List Hunk))
    → from ≤ to
    → to ≤ length new_lines
    → i ≤ start
    → (start ≤ end') × (end' ≤ n)
    → HunksFrom n end' rest
    → HunksFrom n i (push (replacing start end' (slice new_lines from to)) rest)
push-slice n i new_lines start end' from to rest h k from_i range hunks =
    let (lines, e) = slice-Returns new_lines from to h k in
    push-hunk n i (record { start = start; end' = end'; lines = lines }) _ rest
      (ap (replacing start end') e) from_i range hunks

-- The operations of a script give hunks, without a panic, that are in order.
pub Script→HunksFrom :
    (n i j : ℕ) (new_lines : Lines) (ops : List DiffOp)
    → Script n (length new_lines) i j ops
    → HunksFrom n i (hunks_of ops new_lines)
unfolding hunks_of hunk_of
Script→HunksFrom n i j new_lines [] h = ([], refl, omega arith)
Script→HunksFrom n i j new_lines (equal o w len ∷ ops) (at_old, at_new, h) =
    push-none n i (i + len) _ (omega arith) (Script→HunksFrom n (i + len) (j + len) new_lines ops h)
Script→HunksFrom n i j new_lines (delete o len w ∷ ops) (at_old, at_new, h) =
    let (ends, _) = Script-le n (length new_lines) (i + len) j ops h in
    push-hunk n i (record { start = o; end' = o + len; lines = [] }) _ _ refl (omega arith)
      (omega arith, omega arith)
      (subst (λ k. HunksFrom n (k + len) (hunks_of ops new_lines)) (sym at_old)
        (Script→HunksFrom n (i + len) j new_lines ops h))
Script→HunksFrom n i j new_lines (insert o w len ∷ ops) (at_old, at_new, h) =
    let (ends, ends₁) = Script-le n (length new_lines) i (j + len) ops h in
    push-slice n i new_lines o o w (w + len) _ (omega arith) (omega arith) (omega arith)
      (omega arith, omega arith)
      (subst (λ k. HunksFrom n k (hunks_of ops new_lines)) (sym at_old)
        (Script→HunksFrom n i (j + len) new_lines ops h))
Script→HunksFrom n i j new_lines (replace o len w len₁ ∷ ops) (at_old, at_new, h) =
    let (ends, ends₁) = Script-le n (length new_lines) (i + len) (j + len₁) ops h in
    push-slice n i new_lines o (o + len) w (w + len₁) _ (omega arith) (omega arith) (omega arith)
      (omega arith, omega arith)
      (subst (λ k. HunksFrom n (k + len) (hunks_of ops new_lines)) (sym at_old)
        (Script→HunksFrom n (i + len) (j + len₁) new_lines ops h))
