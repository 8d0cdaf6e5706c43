-- ===== src/Server/Merge/Delta/Changes.antt =====
-- crates/naatre-server/src/merge.rs: the changes of the delta between two trees.
use naatre.Prelude.{
  ◌≡◌, refl, sym, ap, ◌∙◌, subst, arith, Bool, true, false, Option, none, some, List, [], ◌∷◌, ◌++◌,
  Bytes, bytes_eq, bytes_eq→eq, bytes_lt, bytes_lt_trans, and_true, if◌then◌else◌, Bool-cases,
  Option-cases, inl, inr,
}
use naatre.Core.Conflict.{bool_eq}
use naatre.Core.Changeset.{FileChange, is_del, is_sorted}
use naatre.Server.Merge.Delta.{
  Files, get, key_eq, change_of, push, changes_at, collect, keys, delta_files, delta_between,
  flatten_files,
}
use naatre.Server.TreeDerive.{FileMeta, MemNode}
use naatre.Server.Merge.Delta.Paths.{Ascends, Sorted, collect-Sorted, has, get_outside}

-- The changes that follow a path and ascend from it.
abbrev AscendsBy : Bytes → List FileChange → Type 0
AscendsBy p [] = Unit
AscendsBy p (c ∷ cs) = (bytes_lt p c.path ≡ true) × AscendsBy c.path cs

earlier :
    (p q : Bytes) (cs : List FileChange) → bytes_lt p q ≡ true → AscendsBy q cs → AscendsBy p cs
earlier p q [] lt h = tt
earlier p q (c ∷ cs) lt (lt₁, h) = (bytes_lt_trans p q c.path lt lt₁, h)

pub path-change_of :
    (path : Bytes) (a c : Option FileMeta) (change : FileChange)
    → change_of path a c ≡ some change
    → change.path ≡ path
unfolding change_of
path-change_of path none none change h = absurd cc
path-change_of path none (some c) change h = cc
path-change_of path (some a) none change h = cc
path-change_of path (some a) (some c) change h = elim (Bool-cases (key_eq a c)) [
  | inl same ↦ absurd cc
  | inr differ ↦ cc
]

changes_at-AscendsBy :
    (a c : Files) (p : Bytes) (ps : List Bytes) → Ascends p ps → AscendsBy p (changes_at a c ps)
unfolding changes_at
changes_at-AscendsBy a c p [] h = tt
changes_at-AscendsBy a c p (q ∷ qs) (lt, asc) =
    let later = changes_at-AscendsBy a c q qs asc in
    elim (Option-cases (change_of q (get q a) (get q c))) [
      | inl unchanged ↦ rw unchanged (earlier p q (changes_at a c qs) lt later)
      | inr (change, made) ↦
          let at = path-change_of q (get q a) (get q c) change made in
          rw made (
            subst (λ r. bytes_lt p r ≡ true) (sym at) lt,
            subst (λ r. AscendsBy r (changes_at a c qs)) (sym at) later,
          )
    ]

is_sorted_of : (p : Bytes) (cs : List FileChange) → AscendsBy p cs → is_sorted cs ≡ true
unfolding is_sorted
is_sorted_of p [] h = refl
is_sorted_of p (c ∷ []) h = refl
is_sorted_of p (c ∷ d ∷ cs) (_, rest) = rw (rest.0, is_sorted_of c.path (d ∷ cs) rest) refl

is_sorted_cons :
    (path : Bytes) (o : Option FileChange) (cs : List FileChange)
    → ((change : FileChange) → o ≡ some change → change.path ≡ path)
    → AscendsBy path cs
    → is_sorted (push o cs) ≡ true
is_sorted_cons path none cs at h = is_sorted_of path cs h
is_sorted_cons path (some change) [] at h = unfold is_sorted in refl
is_sorted_cons path (some change) (d ∷ cs) (at) (lt, h) =
    let lt₁ = subst (λ p. bytes_lt p d.path ≡ true) (sym (at change refl)) lt in
    unfold is_sorted in rw (lt₁, is_sorted_of path (d ∷ cs) (lt, h)) refl

changes_at-is_sorted :
    (a c : Files) (ps : List Bytes) → Sorted ps → is_sorted (changes_at a c ps) ≡ true
changes_at-is_sorted a c [] h = unfold changes_at is_sorted in refl
changes_at-is_sorted a c (p ∷ ps) h =
    unfold changes_at in
    is_sorted_cons p _ _ (path-change_of p (get p a) (get p c)) (changes_at-AscendsBy a c p ps h)

-- The delta between two trees passes the order check of the changeset encoder: its changes ascend
-- strictly by path.
pub is_sorted-delta_between :
    (parent child : MemNode) → is_sorted (delta_between parent child) ≡ true
unfolding delta_between delta_files
is_sorted-delta_between parent child = changes_at-is_sorted _ _ _ (collect-Sorted _)

-- The change at a path.
unfoldable pub find : Bytes → List FileChange → Option FileChange
find path [] = none
find path (c ∷ cs) = if bytes_eq path c.path then some c else find path cs

find-push :
    (path q : Bytes) (o : Option FileChange) (cs : List FileChange) (r : Option FileChange)
    → ((change : FileChange) → o ≡ some change → change.path ≡ q)
    → find path cs ≡ r
    → (bytes_eq path q ≡ true → o ≡ none → r ≡ none)
    → find path (push o cs) ≡ (if bytes_eq path q then o else r)
unfolding find
find-push path q none cs r at rest none_here = ground (arith, rest, none_here)
find-push path q (some change) cs r at rest none_here =
    let same = ap (bytes_eq path) (at change refl) in rw (same, rest) refl

find-changes_at :
    (a c : Files) (path : Bytes) (ps : List Bytes)
    → find path (changes_at a c ps)
      ≡ (if has path ps then change_of path (get path a) (get path c) else none)
unfolding changes_at
find-changes_at a c path [] = unfold find in refl
find-changes_at a c path (q ∷ qs) =
    find-push path q (change_of q (get q a) (get q c)) (changes_at a c qs) _
      (path-change_of q (get q a) (get q c)) (find-changes_at a c path qs)
      (λ here unchanged. gone here unchanged)
    ∙ joined
  where
    there : Option FileChange
    there = change_of path (get path a) (get path c)

    gone :
        bytes_eq path q ≡ true
        → change_of q (get q a) (get q c) ≡ none
        → (if has path qs then there else none) ≡ none
    gone here unchanged =
        let at =
          subst (λ r. change_of r (get r a) (get r c) ≡ none) (sym (bytes_eq→eq path q here))
            unchanged in
        elim (Bool-cases (has path qs)) [ inl found ↦ rw found at | inr missing ↦ rw missing refl ]

    joined :
        (if bytes_eq path q
          then change_of q (get q a) (get q c)
          else if has path qs
          then there
          else none)
        ≡ (if has path (q ∷ qs) then there else none)
    joined = elim (Bool-cases (bytes_eq path q)) [
      | inl here ↦
          rw here (ap (λ r. change_of r (get r a) (get r c)) (sym (bytes_eq→eq path q here)))
      | inr other ↦ rw other refl
    ]

change_of-none :
    (path : Bytes) (o p : Option FileMeta) → o ≡ none → p ≡ none → none ≡ change_of path o p
change_of-none path o p h k = rw (h, k) (unfold change_of in refl)

find-delta_files :
    (a c : Files) (path : Bytes)
    → find path (delta_files a c) ≡ change_of path (get path a) (get path c)
unfolding delta_files
find-delta_files a c path = find-changes_at a c path union ∙ whole
  where
    union : List Bytes
    union = collect (keys a ++ keys c)

    whole :
        (if has path union then change_of path (get path a) (get path c) else none)
        ≡ change_of path (get path a) (get path c)
    whole = elim (Bool-cases (has path union)) [
      | inl found ↦ rw found refl
      | inr missing ↦
          let (left, right) = get_outside path a c missing in
          rw missing (change_of-none path _ _ left right)
    ]

-- What distinguishes the entries at a path: the blob and the exec bit.
abbrev pub Content : Type 0
Content = Option (Bytes × Bool)

unfoldable pub content : Option FileMeta → Content
content none = none
content (some m) = some (m.blob, m.exec)

abbrev paired : Option Bytes → Option Bool → Content
paired (some blob) (some exec) = some (blob, exec)
paired (some blob) none = none
paired none exec = none

-- What a path holds after a change, from what it held before.
unfoldable pub redo : Content → Option FileChange → Content
redo before none = before
redo before (some c) = if is_del c.op then none else paired c.blob c.exec

pub bool_eq→eq : (a b : Bool) → bool_eq a b ≡ true → a ≡ b
unfolding bool_eq
bool_eq→eq true true h = refl
bool_eq→eq true false h = sym h
bool_eq→eq false true h = h
bool_eq→eq false false h = refl

same_key : (a c : FileMeta) → key_eq a c ≡ true → content (some a) ≡ content (some c)
unfolding key_eq content
same_key a c h =
    let (blobs, execs) = and_true (bytes_eq a.blob c.blob) (bool_eq a.exec c.exec) h in
    let blob = bytes_eq→eq a.blob c.blob blobs in let exec = bool_eq→eq a.exec c.exec execs in cc

redo-change_of :
    (path : Bytes) (o p : Option FileMeta) → redo (content o) (change_of path o p) ≡ content p
unfolding redo content change_of is_del
redo-change_of path none none = refl
redo-change_of path none (some c) = refl
redo-change_of path (some a) none = refl
redo-change_of path (some a) (some c) = elim (Bool-cases (key_eq a c)) [
  | inl same ↦ rw same (same_key a c same)
  | inr differ ↦ rw differ refl
]

-- The delta between two trees is complete: at every path, redoing the change that it has there, if
-- any, turns the blob and exec bit that the parent has there into those that the child has.
pub redo-delta_between :
    (parent child : MemNode) (path : Bytes)
    → redo (content (get path (flatten_files parent))) (find path (delta_between parent child))
      ≡ content (get path (flatten_files child))
unfolding delta_between
redo-delta_between parent child path =
    let a = get path (flatten_files parent) in
    ap (redo (content a)) (find-delta_files (flatten_files parent) (flatten_files child) path)
    ∙ redo-change_of path a (get path (flatten_files child))
