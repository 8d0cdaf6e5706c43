-- ===== src/Server/LandExamples.antt =====
-- crates/naatre-server/src/land.rs: a land of one changeset onto a `main` that has moved.
use naatre.Prelude.{
  All, ap, ◌∙◌, arith, Bool-cases, ◌++◌, ◌||◌, bytes_eq→eq, ℕ, ◌≡◌, refl, sym, subst, true, false,
  Bool, not, none, some, Option, List, [], ◌∷◌, Bytes, Result, ok, err, codes, replicate, all, ltb,
  ltb→lt, and_true, bytes_eq, is_empty, bytes_of_test, inl, inr, split_if, ◌≢◌,
}
use naatre.Core.Changeset.{Changeset, FileChange, Op, add, mod', encode}
use naatre.Server.Examples.{by_position, ascii, id_of, file_of}
use naatre.Server.TreeDerive.{MemNode, no_entries, file_entry, dir_entry}
use naatre.Server.Land.{
  ChangesetRow, ChangesetRows, LandError, out_of_steps, LandCommand, LandDone, Tables, find,
}
use naatre.Server.Land.Execute.{land_in_txn}
use naatre.Server.Land.Grown.{Addressed}
use naatre.Server.Land.History.{HistoryKept, land_in_txn-HistoryKept}
use naatre.Server.Land.Gates.{Checked, land_in_txn-Checked}
use naatre.Server.Land.Replays.{IsId, land_in_txn-again}
use naatre.Server.Land.Returns.{Descends}
use naatre.Server.Land.Returns.Whole.{land_in_txn-returns}
use naatre.Server.TreeDerive.Ordered
use naatre.Server.TreeDerive.Ordered.{Ordered}
use naatre.Server.Merge.Delta.{Files, get, keys, flatten_files}
use naatre.Server.Merge.Delta.Paths.{has, has-append, get_absent}
use naatre.Server.Merge.Trees.{entry_eq}
use naatre.Server.Land.Scoped.{AllRecorded, Recorded}
use naatre.Server.Land.Stored.{OrderedTrees}
use naatre.Server.Land.Written.{NewInScope, land_in_txn-NewInScope}
use naatre.Server.Land.Ancestry.{Explored, in_main-Explored}
use naatre.Server.TreeDerive.Collect.{collect-collect_from, collect_from}
use naatre.Core.Changeset
use naatre.Core.Changeset.Decode
use naatre.Core.Changeset.Validate
use naatre.Core.Conflict
use naatre.Core.Cursor
use naatre.Core.Words
use naatre.Core.Ids
use naatre.Core.Path
use naatre.Core.Utf8
use naatre.Core.Tree
use naatre.Core.Tree.Validate.{tree_id}
use naatre.Core.Text
use naatre.Server.TreeDerive
use naatre.Server.TreeDerive.Collect
use naatre.Server.Merge.PathConflict
use naatre.Server.Merge.Delta
use naatre.Server.Merge.Trees
use naatre.Server.Authz
use naatre.Server.Land
use naatre.Server.Land.Ancestry
use naatre.Server.Land.Chain
use naatre.Server.Land.Rebase
use naatre.Server.Land.Execute

runs : ℕ
unfolding Changeset.tag Changeset.from_tag Changeset.is_del Changeset.is_none
    Changeset.encode_content Changeset.encode_payload Changeset.encode_change
    Changeset.encode_changes Changeset.write_side Changeset.flags_of Changeset.write_base
    Changeset.write_conflict Changeset.write_conflicts Changeset.write_header Changeset.is_sorted
    Changeset.write Changeset.encode Decode.bit_of Decode.decode_content Decode.decode_payload
    Decode.decode_change Decode.has_flag Decode.read_exec Decode.read_side Decode.read_base
    Decode.read_sides Decode.rep_of Decode.decode_sides Decode.decode_conflict
    Decode.decode_conflicts Decode.version_of Decode.decode_changeset Decode.decode
    Validate.forbidden Validate.check_text Validate.validate_paths Validate.validate
    Validate.id_for_encoded Validate.changeset_id Conflict.has_exec Conflict.conflict_format
    Conflict.side_lt Conflict.bool_eq Conflict.side_eq Conflict.zip Conflict.keys
    Conflict.exec_without_base Conflict.base_among_sides Conflict.bad_sides Conflict.is_sorted
    Conflict.validate_rep Conflict.validate_reps Conflict.validate Conflict.insert
    Conflict.insert_all Conflict.carry Cursor.repeat Cursor.remaining Cursor.take_bytes
    Cursor.take32 Cursor.read_u8 Cursor.u32_le Cursor.u64_le Cursor.ensure_left Cursor.finish
    Cursor.as_utf8 Cursor.str_field Cursor.write_str Words.le_bytes Words.from_le Ids.label
    Ids.to_hex Ids.hex_val Ids.hex_byte Ids.hex_pairs Ids.from_hex Ids.is_hex_id Ids.framed
    Ids.object_id_in Ids.object_id Ids.object_id_v2 Path.is_cc Path.is_cf Path.is_control
    Path.find_char Path.contains Path.starts_with Path.push_front Path.split Path.is_dots
    Path.check_components Path.check_control Path.find_reserved Path.check_reserved Path.rsplit_once
    Path.validate Path.validate_component Path.fold_key Path.find_seen Path.check_case_fold
    Path.check_case_fold_duplicates Utf8.scan_step Utf8.scan Utf8.is_utf8 Utf8.chars_from
    Utf8.char_indices Tree.tag Tree.from_tag Tree.exec_byte Tree.write_entry Tree.write
    Tree.is_sorted Tree.encode Tree.read_exec Tree.decode_entry Tree.decode_tree Tree.decode tree_id
    Text.strip_prefix Text.strip_suffix Text.split_once Text.onto_first Text.split_inclusive
    Text.strip_line Text.lines Text.decimal_from Text.decimal Text.parse_digits
    TreeDerive.cons_entry TreeDerive.get_entry TreeDerive.put_entry TreeDerive.remove_entry
    TreeDerive.is_empty TreeDerive.split_last TreeDerive.split_leaf TreeDerive.lookup_in
    TreeDerive.lookup TreeDerive.insert_in TreeDerive.remove_in TreeDerive.insert_file
    TreeDerive.remove_file TreeDerive.meta_of TreeDerive.apply_write TreeDerive.apply_op
    TreeDerive.apply_change TreeDerive.apply Collect.add_u64 Collect.finish_dir Collect.collect_loop
    Collect.rounds Collect.collect Collect.collect_from PathConflict.side_of
    PathConflict.insert_side PathConflict.sort_sides PathConflict.sides_of PathConflict.rep_of
    PathConflict.content_rep PathConflict.resolve_exec Delta.get Delta.insert_file Delta.join
    Delta.flatten_into Delta.flatten_files Delta.key_eq Delta.change_of Delta.insert_path
    Delta.collect Delta.keys Delta.changes_at Delta.delta_files Delta.delta_between Trees.meta_eq
    Trees.entry_eq Trees.push_blob Trees.keep Trees.path_conflict Trees.record_marker
    Trees.refuse_conflict Trees.record_conflict Trees.take_conflict Trees.merged_meta
    Trees.merge_outcome Trees.merge_contents Trees.both_changed Trees.merge_path Trees.merge_paths
    Trees.merge_files Trees.build Trees.merge_trees_mode Trees.merge_trees
    Trees.merge_trees_recording Authz.goes_on Authz.scope_allows Land.find Land.contains
    Land.redaction_active Land.redactions_active_among Land.changeset_graph Land.file_changes_list
    Land.id_of Land.load_tree Land.conflicts_in Land.rep_paths_of Land.put_land
    Land.land_insert_pending Land.land_settle Land.main_cas_move Ancestry.ancestry Ancestry.unseen
    Ancestry.in_main Chain.walk Chain.walk_steps Chain.chain_of Chain.check_changes
    Chain.check_scope Rebase.fetch_blob Rebase.merge_error Rebase.parent_tree Rebase.least_hex
    Rebase.push_change Rebase.change_blobs Rebase.rep_ids Rebase.gate_ids Rebase.gate
    Rebase.write_tree Rebase.changeset_insert_rows Rebase.merge_node Rebase.new_reps
    Rebase.put_blobs Rebase.row_of Rebase.insert_node Rebase.adopt_or_insert Rebase.write_node
    Rebase.rebased_of Rebase.record_node Rebase.rebase_node Rebase.rebase_chain Execute.replay
    Execute.recorded Execute.settle Execute.main_target Execute.note_of Execute.base_note
    Execute.finish Execute.rebase_onto Execute.land_chain Execute.land_onto Execute.land_new
    Execute.land_in_txn Execute.execute
runs = 0

-- A function of the right type in place of the hash: every id that is computed is one id.
abbrev one_id : Bytes → Bytes
one_id bytes = replicate 32 200

abbrev file_change : Op → Bytes → ℕ → FileChange
file_change op path n = record {
  path = path;
  op = op;
  blob = some (id_of n);
  size = some n;
  exec = some false;
}

abbrev changeset_of : List Bytes → FileChange → Changeset
changeset_of parents c = record {
  repo_id = 1;
  parents = parents;
  author = codes "ann";
  message = codes "work";
  timestamp_ns = 5;
  changes = c ∷ [];
  conflicts = [];
}

abbrev bytes_of : {E : Type 0} → Result E Bytes → Bytes
bytes_of (ok b) = b
bytes_of (err e) = []

abbrev row_for : List Bytes → FileChange → ℕ → ℕ → ChangesetRow
row_for parents c generation root = record {
  canonical = bytes_of (encode ascii (changeset_of parents c));
  author = codes "ann";
  message = codes "work";
  timestamp_ns = 5;
  generation = generation;
  principal = codes "ann";
  root_tree_id = some (id_of root);
  parents = parents;
  changes = c ∷ [];
}

-- The first changeset, a later one that is `main`, and the head, also made on the first.
abbrev rows : ChangesetRows
rows =
    (id_of 1, row_for [] (file_change add (codes "d/a") 11) 0 21)
    ∷ (id_of 2, row_for (id_of 1 ∷ []) (file_change add (codes "b") 12) 1 22)
    ∷ (id_of 3, row_for (id_of 1 ∷ []) (file_change mod' (codes "d/a") 13) 1 23)
    ∷ []

abbrev dir_a : ℕ → MemNode
dir_a n = dir_entry (codes "d") (file_entry (codes "a") (file_of n) no_entries) no_entries

abbrev tables : Tables
tables = record {
  lands = λ p k. none;
  main = some (some (id_of 2));
  main_version = 4;
  changesets = rows;
  trees =
      (id_of 21, dir_a 11)
      ∷ (id_of 22, file_entry (codes "b") (file_of 12) (dir_a 11))
      ∷ (id_of 23, dir_a 13)
      ∷ [];
  redactions = id_of 77 ∷ [];
  cas = [];
}

abbrev command : LandCommand
command = record {
  repo_id = 1;
  principal = codes "ann";
  scope = some (codes "d");
  head = id_of 3;
  key = codes "k";
  base_hint = some (id_of 2);
  record_conflict = false;
}

abbrev settled_of : Result LandError (LandDone × Tables) → LandDone × Tables
settled_of (ok r) = r
settled_of (err e) =
    (record { landed = []; main = []; rebased = 0; note = none; conflicts = [] }, tables)

abbrev landed : LandDone × Tables
landed = settled_of (land_in_txn ascii one_id by_position command tables)

landed_ok : land_in_txn ascii one_id by_position command tables ≡ ok landed
unfolding runs
landed_ok = refl

rebased_one : (landed.0.rebased ≡ 1) × (landed.1.main ≡ some (some (one_id [])))
unfolding runs
rebased_one = (refl, refl)

-- No row has the id that is computed.
rows-Addressed : Addressed ascii one_id rows
unfolding runs
rows-Addressed id row h cs canonical e made =
    let missing : find (one_id []) rows ≡ none = refl in
    let same : one_id [] ≡ id = one_id_of (not (is_empty cs.conflicts)) made in
    let there : find (one_id []) rows ≡ some row =
      subst (λ x. find x rows ≡ some row) (sym same) h in
    absurd cc
  where
    one_id_of : (v2 : Bool) → Validate.id_for_encoded one_id canonical v2 ≡ id → one_id [] ≡ id
    one_id_of true m = m
    one_id_of false m = m

-- The first parent of a row, if it has one that has a row, has a smaller generation.
below_row : ChangesetRow → Option ChangesetRow → Bool
below_row row none = true
below_row row (some parent) = ltb parent.generation row.generation

falls_at : ChangesetRows → ChangesetRow → List Bytes → Bool
falls_at all_rows row [] = true
falls_at all_rows row (p ∷ more) = below_row row (find p all_rows)

falls : ChangesetRows → ChangesetRows → Bool
falls all_rows rest = all (λ (r : Bytes × ChangesetRow). falls_at all_rows r.1 r.1.parents) rest

falls-find :
    (all_rows rest : ChangesetRows) (id : Bytes) (row : ChangesetRow)
    → falls all_rows rest ≡ true
    → find id rest ≡ some row
    → falls_at all_rows row row.parents ≡ true
unfolding falls find
falls-find all_rows [] id row h e = absurd cc
falls-find all_rows ((i, r) ∷ rest) id row h e =
    let (first, later) = and_true (falls_at all_rows r r.parents) (falls all_rows rest) h in
    elim (split_if (bytes_eq id i) _ _ e) [
      | inl (same, e₁) ↦
          let at_row : r ≡ row = some_injective e₁ in
          subst (λ (x : ChangesetRow). falls_at all_rows x x.parents ≡ true) at_row first
      | inr (apart, e₁) ↦ falls-find all_rows rest id row later e₁
    ]
  where
    some_injective : {A : Type 0} {a b : A} → some a ≡ some b → a ≡ b
    some_injective m = cc

falls-Descends : (all_rows : ChangesetRows) → falls all_rows all_rows ≡ true → Descends all_rows
unfolding falls_at below_row
falls-Descends all_rows h id p row parent more here first e =
    let at_row = falls-find all_rows all_rows id row h here in
    let test : falls_at all_rows row (p ∷ more) ≡ true =
      subst (λ ps. falls_at all_rows row ps ≡ true) first at_row in
    let lt : ltb parent.generation row.generation ≡ true = cc in
    ltb→lt parent.generation row.generation lt

rows-falls : falls rows rows ≡ true
unfolding runs falls falls_at below_row
rows-falls = refl

one_id-IsId : (bytes : Bytes) → IsId (one_id bytes)
one_id-IsId bytes = (bytes_of_test (one_id []) refl, refl)

collect-collect_from_example :
    Collect.collect one_id (dir_a 11) ≡ some (collect_from one_id (dir_a 11) [] 0 [])
collect-collect_from_example = collect-collect_from one_id (dir_a 11)

in_main-Explored_example : Explored rows (id_of 2) (Ancestry.in_main rows (id_of 2))
in_main-Explored_example = in_main-Explored rows (id_of 2)

land_in_txn-HistoryKept_example : HistoryKept tables landed
land_in_txn-HistoryKept_example =
    land_in_txn-HistoryKept ascii one_id by_position command tables landed rows-Addressed refl
      landed_ok

land_in_txn-Checked_example :
    (old_main : Bytes) × (tables.main ≡ some (some old_main))
    × (Land.redaction_active tables command.head ≡ false)
    × (Land.redaction_active tables old_main ≡ false)
    × Checked tables command old_main
land_in_txn-Checked_example =
    land_in_txn-Checked ascii one_id by_position command tables landed refl landed_ok

land_in_txn-again_example : land_in_txn ascii one_id by_position command landed.1 ≡ ok landed
land_in_txn-again_example =
    land_in_txn-again ascii one_id by_position command tables landed (id_of 2) one_id-IsId refl refl
      (bytes_of_test (id_of 2) refl) landed_ok

land_in_txn-returns_example : land_in_txn ascii one_id by_position command tables ≢ err out_of_steps
land_in_txn-returns_example =
    land_in_txn-returns ascii one_id by_position command tables (falls-Descends rows rows-falls)

some_same : {A : Type 0} {a b : A} → some a ≡ some b → a ≡ b
some_same m = cc

-- What holds of every listed value holds of the found one.
found_all :
    {A : Type 0} (P : A → Type 0) (rest : List (Bytes × A)) (id : Bytes) (a : A)
    → All (λ (x : Bytes × A). P x.1) rest
    → find id rest ≡ some a
    → P a
unfolding find
found_all P [] id a h e = absurd cc
found_all P ((i, x) ∷ rest) id a (first, h) e = elim (split_if (bytes_eq id i) _ _ e) [
  | inl (same, e₁) ↦ subst P (some_same e₁) first
  | inr (apart, e₁) ↦ found_all P rest id a h e₁
]

dir_a-Ordered : (n : ℕ) → Ordered (dir_a n)
unfolding runs Ordered.Ordered Ordered.Before
dir_a-Ordered n = ((refl, refl), (((refl, refl), (tt, tt)), (tt, tt)))

trees-Ordered : OrderedTrees tables.trees
unfolding runs Ordered.Ordered Ordered.Before
trees-Ordered root node h =
    found_all Ordered tables.trees root node
      (dir_a-Ordered 11, (((refl, refl), ((refl, tt), dir_a-Ordered 11)), (dir_a-Ordered 13, tt))) h

-- Whether the paths of two maps whose files differ are listed.
lists_differences : Files → Files → List Bytes → Bool
lists_differences fs gs paths =
    all (λ p. entry_eq (get p fs) (get p gs) || has p paths) (keys fs ++ keys gs)

all-has :
    (test : Bytes → Bool) (ps : List Bytes) (path : Bytes)
    → all test ps ≡ true
    → has path ps ≡ true
    → test path ≡ true
all-has test [] path h e = absurd cc
all-has test (p ∷ ps) path h e =
    let (first, rest) = and_true (test p) (all test ps) h in
    elim (Bool-cases (bytes_eq path p)) [
      | inl same ↦ subst (λ x. test x ≡ true) (sym (bytes_eq→eq path p same)) first
      | inr apart ↦ all-has test ps path rest (ground arith)
    ]

differences-listed :
    (fs gs : Files) (paths : List Bytes) (path : Bytes)
    → lists_differences fs gs paths ≡ true
    → entry_eq (get path fs) (get path gs) ≡ false
    → has path paths ≡ true
unfolding lists_differences
differences-listed fs gs paths path h differ = elim (Bool-cases (has path (keys fs ++ keys gs))) [
  | inl there ↦
      let test =
        all-has (λ p. entry_eq (get p fs) (get p gs) || has p paths) (keys fs ++ keys gs) path h
          there in
      ground arith
  | inr gone ↦
      let none_of = sym (has-append path (keys fs) (keys gs)) ∙ gone in
      let no_f = get_absent path fs (ground arith) in
      let no_g = get_absent path gs (ground arith) in
      let same : entry_eq (get path fs) (get path gs) ≡ true =
        ap (λ x. entry_eq x (get path gs)) no_f
        ∙ ap (entry_eq none) no_g
        ∙ (unfold entry_eq in refl) in
      absurd cc
]

rows-Recorded : AllRecorded tables
unfolding runs lists_differences
rows-Recorded id row h =
    found_all (Recorded tables) rows id row
      (
        (
          dir_a 11,
          no_entries,
          refl,
          refl,
          λ path. differences-listed (flatten_files (dir_a 11)) [] (codes "d/a" ∷ []) path refl,
        ),
        (
          (
            file_entry (codes "b") (file_of 12) (dir_a 11),
            dir_a 11,
            refl,
            refl,
            λ path.
                differences-listed (flatten_files (file_entry (codes "b") (file_of 12) (dir_a 11)))
                  (flatten_files (dir_a 11)) (codes "b" ∷ []) path refl,
          ),
          (
            (
              dir_a 13,
              dir_a 11,
              refl,
              refl,
              λ path.
                  differences-listed (flatten_files (dir_a 13)) (flatten_files (dir_a 11))
                    (codes "d/a" ∷ []) path refl,
            ),
            tt,
          ),
        ),
      )
      h

land_in_txn-NewInScope_example : NewInScope command.scope tables.changesets landed.1.changesets
land_in_txn-NewInScope_example =
    land_in_txn-NewInScope ascii one_id by_position command tables landed trees-Ordered
      rows-Recorded refl landed_ok
