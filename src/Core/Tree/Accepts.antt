-- ===== src/Core/Tree/Accepts.antt =====
-- crates/naatre-core/src/tree.rs: the rules of `validate`, a condition at a time.
use naatre.Prelude.{
  map_err-eq-ok, ◌≤◌, ◌≡◌, refl, false, ◌&&◌, List, [], ◌∷◌, ok, bind-eq-ok, map, map_err,
  refuse_if, refuse_if-eq-ok, length, le→ltb, ltb-false→le, ◌↔◌, All,
}
use naatre.Core.Error
use naatre.Core.Error.{CoreError, encode_exec_on_dir, encode_too_many_entries}
use naatre.Core.Path
use naatre.Core.Path.{Unicode, check_case_fold_duplicates}
use naatre.Core.Path.Grammar.{IsName, validate_component_iff}
use naatre.Core.Path.Folding.{HasDistinctKeys, check_case_fold_duplicates_iff}
use naatre.Core.Conflict.{max_entries}
use naatre.Core.Tree.{TreeEntry, Tree}
use naatre.Core.Tree.Validate.{is_dir, validate_entries, validate}

-- An entry with a valid name, and no exec bit on a directory.
pub record IsValidEntry (u : Unicode) (e : TreeEntry) : Type 0 where
  pub name : IsName u e.name
  pub no_exec : (is_dir e.kind && e.exec) ≡ false

pub record IsValidTree (u : Unicode) (t : Tree) : Type 0 where
  pub entries : All (IsValidEntry u) t.entries
  pub keys : HasDistinctKeys u (map (λ e. e.name) t.entries)
  pub few : length t.entries ≤ max_entries

module _ (u : Unicode) where
  entries→All : (es : List TreeEntry) → validate_entries u es ≡ ok tt → All (IsValidEntry u) es
  unfolding validate_entries
  entries→All [] h = tt
  entries→All (e ∷ es) h =
      let (_, name, h₁) = bind-eq-ok (map_err Error.path (Path.validate_component u e.name)) _ h in
      let (_, exec, h₂) =
        bind-eq-ok (refuse_if (is_dir e.kind && e.exec) encode_exec_on_dir) _ h₁ in
      (
        record {
          name = (validate_component_iff u e.name).0 (map_err-eq-ok Error.path _ name);
          no_exec = refuse_if-eq-ok _ _ exec;
        },
        entries→All es h₂,
      )

  All→entries : (es : List TreeEntry) → All (IsValidEntry u) es → validate_entries u es ≡ ok tt
  unfolding validate_entries
  All→entries [] h = refl
  All→entries (e ∷ es) (first, rest) =
      rw ((validate_component_iff u e.name).1 first.name, first.no_exec) (All→entries es rest)

  validate→IsValidTree : (t : Tree) → validate u t ≡ ok tt → IsValidTree u t
  unfolding validate
  validate→IsValidTree t h₀ =
      let (_, c₀, h₁) = bind-eq-ok (validate_entries u t.entries) _ h₀ in
      let (_, c₁, c₂) =
        bind-eq-ok (map_err Error.path (check_case_fold_duplicates u (map (λ e. e.name) t.entries)))
          _ h₁ in
      record {
        entries = entries→All t.entries c₀;
        keys = (check_case_fold_duplicates_iff u _).0 (map_err-eq-ok Error.path _ c₁);
        few = ltb-false→le _ _ (refuse_if-eq-ok _ _ c₂);
      }

  IsValidTree→validate : (t : Tree) → IsValidTree u t → validate u t ≡ ok tt
  unfolding validate
  IsValidTree→validate t v =
      rw
        (
          All→entries t.entries v.entries,
          (check_case_fold_duplicates_iff u (map (λ e. e.name) t.entries)).1 v.keys,
          le→ltb max_entries (length t.entries) v.few,
        )
        refl

  -- `validate` accepts a listing exactly where every name is a valid component, no directory has the
  -- exec bit, no two names have one fold key, and there are at most 100,000 entries.
  pub tree_validate_iff : (t : Tree) → (validate u t ≡ ok tt) ↔ IsValidTree u t
  tree_validate_iff t = (validate→IsValidTree t, IsValidTree→validate t)
