-- ===== src/Core/Changeset/Accepts.antt =====
-- crates/naatre-core/src/changeset.rs: the rules of `validate`, a condition at a time.
use naatre.Prelude.{
  ℕ, arith, ◌⊎◌, Bool-cases, map_err-eq-ok, ◌≤◌, ◌≡◌, refl, false, ◌&&◌, none, List, [], ◌∷◌, Bytes,
  ok, bind-eq-ok, map, map_err, refuse_if, refuse_if-eq-ok, is_empty, length, ltb, le→ltb,
  ltb-false→le, ◌↔◌, All, Option-cases, inl, inr,
}
use naatre.Core.Error
use naatre.Core.Error.{
  CoreError, encode_too_many_parents, encode_empty_changeset, encode_too_many_entries, author_char,
  message_char,
}
use naatre.Core.Utf8.{char_indices}
use naatre.Core.Path
use naatre.Core.Path.{Unicode, is_control, find_char, check_case_fold_duplicates}
use naatre.Core.Path.Grammar.{IsPath, validate_iff}
use naatre.Core.Path.Folding.{HasDistinctKeys, check_case_fold_duplicates_iff}
use naatre.Core.Conflict
use naatre.Core.Conflict.{max_entries}
use naatre.Core.Changeset.{FileChange, Changeset, max_parents}
use naatre.Core.Changeset.Validate.{forbidden, check_text, validate_paths, validate}

-- A character that a text may have: a line feed, a tab, or one of neither control category.
abbrev IsAllowed : ℕ → Type 0
IsAllowed c = (c ≡ 10) ⊎ ((c ≡ 9) ⊎ (is_control c ≡ false))

-- A text without control characters but line feeds and tabs.
abbrev pub IsPlain : Bytes → Type 0
IsPlain s = All (λ ic. IsAllowed ic.1) (char_indices s)

forbidden_iff : (c : ℕ) → (forbidden c ≡ false) ↔ IsAllowed c
unfolding forbidden
forbidden_iff c = (ground arith, ground arith)

find_char-none→All :
    (ics : List (ℕ × ℕ)) → find_char forbidden ics ≡ none → All (λ ic. IsAllowed ic.1) ics
unfolding find_char
find_char-none→All [] h = tt
find_char-none→All ((index, c) ∷ ics) h = elim (Bool-cases (forbidden c)) [
  | inl bad ↦ absurd cc
  | inr good ↦ ((forbidden_iff c).0 good, find_char-none→All ics cc)
]

All→find_char-none :
    (ics : List (ℕ × ℕ)) → All (λ ic. IsAllowed ic.1) ics → find_char forbidden ics ≡ none
unfolding find_char
All→find_char-none [] h = refl
All→find_char-none ((index, c) ∷ ics) (good, rest) =
    rw ((forbidden_iff c).1 good) (All→find_char-none ics rest)

check_text_iff : (s : Bytes) → (check_text s ≡ ok tt) ↔ IsPlain s
unfolding check_text
check_text_iff s = elim (Option-cases (find_char forbidden (char_indices s))) [
  | inl clear ↦ (λ h. find_char-none→All (char_indices s) clear, λ h. cc)
  | inr (index, found) ↦
      (λ h. absurd cc, λ h. let clear = All→find_char-none (char_indices s) h in absurd cc)
]

-- The semantic rules, a condition at a time.
pub record IsValid (u : Unicode) (cs : Changeset) : Type 0 where
  pub paths : All (λ c. IsPath u c.path) cs.changes
  pub keys : HasDistinctKeys u (map (λ c. c.path) cs.changes)
  pub author : IsPlain cs.author
  pub message : IsPlain cs.message
  pub parents : length cs.parents ≤ max_parents
  pub some_entry : (is_empty cs.changes && is_empty cs.conflicts) ≡ false
  pub few : length cs.changes ≤ max_entries
  pub conflicts : Conflict.validate u cs.conflicts ≡ ok tt

module _ (u : Unicode) where
  validate_paths→All :
      (cs : List FileChange) → validate_paths u cs ≡ ok tt → All (λ c. IsPath u c.path) cs
  unfolding validate_paths
  validate_paths→All [] h = tt
  validate_paths→All (c ∷ cs) h =
      let (_, first, rest) = bind-eq-ok (map_err Error.path (Path.validate u c.path)) _ h in
      ((validate_iff u c.path).0 (map_err-eq-ok Error.path _ first), validate_paths→All cs rest)

  All→validate_paths :
      (cs : List FileChange) → All (λ c. IsPath u c.path) cs → validate_paths u cs ≡ ok tt
  unfolding validate_paths
  All→validate_paths [] h = refl
  All→validate_paths (c ∷ cs) (first, rest) =
      rw ((validate_iff u c.path).1 first) (All→validate_paths cs rest)

  validate→IsValid : (cs : Changeset) → validate u cs ≡ ok tt → IsValid u cs
  unfolding validate
  validate→IsValid cs h₀ =
      let (_, c₀, h₁) = bind-eq-ok (validate_paths u cs.changes) _ h₀ in
      let (_, c₁, h₂) =
        bind-eq-ok
          (map_err Error.path (check_case_fold_duplicates u (map (λ c. c.path) cs.changes))) _ h₁ in
      let (_, c₂, h₃) = bind-eq-ok (map_err author_char (check_text cs.author)) _ h₂ in
      let (_, c₃, h₄) = bind-eq-ok (map_err message_char (check_text cs.message)) _ h₃ in
      let (_, c₄, h₅) =
        bind-eq-ok (refuse_if (ltb max_parents (length cs.parents)) encode_too_many_parents) _ h₄ in
      let (_, c₅, h₆) =
        bind-eq-ok (refuse_if (is_empty cs.changes && is_empty cs.conflicts) encode_empty_changeset)
          _ h₅ in
      let (_, c₆, c₇) =
        bind-eq-ok (refuse_if (ltb max_entries (length cs.changes)) encode_too_many_entries) _ h₆ in
      record {
        paths = validate_paths→All cs.changes c₀;
        keys = (check_case_fold_duplicates_iff u _).0 (map_err-eq-ok Error.path _ c₁);
        author = (check_text_iff cs.author).0 (map_err-eq-ok author_char _ c₂);
        message = (check_text_iff cs.message).0 (map_err-eq-ok message_char _ c₃);
        parents = ltb-false→le _ _ (refuse_if-eq-ok _ _ c₄);
        some_entry = refuse_if-eq-ok _ _ c₅;
        few = ltb-false→le _ _ (refuse_if-eq-ok _ _ c₆);
        conflicts = c₇;
      }

  IsValid→validate : (cs : Changeset) → IsValid u cs → validate u cs ≡ ok tt
  unfolding validate
  IsValid→validate cs v =
      rw
        (
          All→validate_paths cs.changes v.paths,
          (check_case_fold_duplicates_iff u (map (λ c. c.path) cs.changes)).1 v.keys,
          (check_text_iff cs.author).1 v.author,
          (check_text_iff cs.message).1 v.message,
          le→ltb max_parents (length cs.parents) v.parents,
          v.some_entry,
          le→ltb max_entries (length cs.changes) v.few,
        )
        v.conflicts

  -- `validate` accepts a changeset exactly where each of its rules holds: every path of a change is
  -- in the grammar, no two have one fold key, author and message have no control characters but
  -- line feeds and tabs, it has at most two parents, at least one change or conflict, at most
  -- 100,000 changes, and the conflicts pass `Conflict.validate`. The order of the changes, and which
  -- of blob, size and exec bit a change has, are not among the rules.
  pub changeset_validate_iff : (cs : Changeset) → (validate u cs ≡ ok tt) ↔ IsValid u cs
  changeset_validate_iff cs = (validate→IsValid cs, IsValid→validate cs)
