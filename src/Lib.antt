-- ===== src/Lib.antt =====
-- naatre is server-authoritative source control: a server stores content-addressed blobs, directory
-- trees and changesets, merges concurrent changesets, and keeps conflicts as data. The crates share
-- one vocabulary, crates/naatre-core: every object is an id (ids.rs), every stored tree and changeset
-- is written by one encoder (tree.rs, changeset.rs), every path obeys one grammar (path.rs), and a
-- changeset may carry conflicts that a merge recorded (conflict.rs).
--
-- The files, each for the code it is named after:
--   Prelude: lists, byte strings, tests and results that the others share.
--   Core/Error: the error enums of crates/naatre-core (PathError, EncodeError, DecodeError, CoreError).
--   Core/Words: `to_le_bytes` and `from_le_bytes`, as `le_bytes` and `from_le`.
--   Core/Utf8: `str::from_utf8` and `char_indices`; a string is the list of the bytes of its UTF-8 text.
--   Core/Cursor: `Cursor` and `write_str` of crates/naatre-core/src/changeset.rs; a reader is a
--     function from the bytes left to a result and the bytes left after. Cursor/Reads and
--     Cursor/Consumes hold a rule per reader for the two directions of a round trip.
--   Core/Path: crates/naatre-core/src/path.rs (`validate`, `validate_component`,
--     `check_case_fold_duplicates`). Path/Grammar and Path/Folding hold the conditions.
--   Core/Ids: crates/naatre-core/src/ids.rs (`to_hex`, `from_hex`, `object_id_in`).
--   Core/Conflict: crates/naatre-core/src/conflict.rs (`ConflictRep`, `validate`, `carry`).
--     Conflict/Markers is `marker_bytes`, `marker_shaped` and `marker_opener`.
--   Core/Text: the methods of `str` that those use, on the bytes of a text.
--   Core/Changeset: crates/naatre-core/src/changeset.rs (`encode`, `decode`, `validate`).
--     Changeset/Accepts is what `validate` accepts; the other children are the two round trips.
--   Core/Tree: crates/naatre-core/src/tree.rs (`encode`, `decode`, `validate`).
--   Server/Merge/Lines: crates/naatre-server/src/merge.rs, `merge_lines`; a panic is the result `none`.
--     Lines/Order is the order of the hunks, Lines/Script what a line diff gives, Lines/Applies the loop.
--   Server/Merge/PathConflict: `PathConflict`, `content_rep` and `resolve_exec` of the same file.
--     PathConflict/Recordable is which conflicts `content_rep` represents.
--   Server/Merge/Trees: `merge_trees` and `merge_trees_recording` of the same file. Trees/Step is one path,
--     Trees/Paths the loop, Trees/Replayed the tree built of the merged files, Trees/Whole all of it,
--     Trees/Touched and Trees/Kept the paths that theirs did not touch, in either mode,
--     Trees/Recorded and Trees/Fetched the loop that records conflicts.
--   Server/Merge/Delta: `flatten_files` and `delta_between` of the same file. Delta/Flat compares
--     the flattened files with the tree, by the components that Delta/Parts takes their paths to.
--   Server/TreeDerive: crates/naatre-server/src/tree_derive.rs, `MemNode` as the list of its entries, with
--     `apply`, `lookup` and the walks below them. An error of `apply` drops the node, as its callers do.
--     TreeDerive/Files is what a tree holds at a path; Inserted, Removed, Lookups, Applied and
--     Refused use it.
--     TreeDerive/Ordered is the order of names that the entries keep.
--     TreeDerive/Collect is `collect`, the encoder with a stack of frames, on fuel that counts entries.
--   Server/Land: crates/naatre-server/src/land.rs, with its queries from crates/naatre-server/src/db.rs:
--     the rows of one repository as a record of tables. Land/Ancestry is the search of what `main`
--     contains, whose fuel counts parents; Land/Chain the walk from the head, whose fuel is the head's
--     generation, and the scope check; Land/Rebase one changeset of the chain; Land/Execute the whole
--     land, `execute` with `land_in_txn`, `settle` and `replay`. Land/Steps, Walked, Grown and Landing
--     are what each part does, Land/Stored the trees that are loaded and
--     written, Land/Scoped what the merge of a changeset may touch; Land/History,
--     Gates, Replays, Returns and Written are what that gives.
--   Server/LandJoin: crates/naatre-server/src/land_join.rs, the registry of in-flight lands, with an
--     `Arc` as an address and a `watch` channel as the value that it holds. LandJoin/Leaders is the step
--     relation, LandJoin/Known and LandJoin/Sound what the steps keep, LandJoin/Dropping the
--     two steps of a guard's drop; LandJoin/Joined, LandJoin/Outcomes and LandJoin/Settles are what they give.
--   Server/Examples, Server/TreeExamples, Server/LandJoinExamples,
--     Server/LandExamples: runs at small inputs.
--   Server/Authz: crates/naatre-server/src/authz.rs, `scope_allows`.
--   Cli/Index: crates/naatre-cli/src/wc/index.rs, the stat index as the list of its rows. Index/Rows is
--     one record, Index/RoundTrip all of them, Index/Exact the bytes that are accepted, and Cli/Examples an
--     index of two rows.
--   Core/Examples, Core/TreeExamples, Core/PathExamples, Core/MarkerExamples: runs at small inputs.
--
-- A machine integer is a native number with its bound written out: the typing records of
-- Changeset/Typing and Tree/RoundTrip state what Rust's types give (a byte is below 256, a u64 below
-- 2^64, an id has 32 bytes, a string is UTF-8). Loops over a count read from the input recur on that
-- count, so that there is no fuel there; `decimal` has fuel n + 1 for the digits of n, which are fewer.
--
-- Parameters: the hash function blake3, Unicode normalization and lower case (`Unicode`) and
-- the diff of the crate similar,
-- the fetch of a blob by its id, and, for the registry of in-flight lands, the types of a land's
-- result and of an API error.
-- Not modelled: the HTTP server and its routes, the SQL engine (a land's queries are functions of a
-- record of tables, whose failures are left out), the command line tool but for its index, the file
-- system watcher and the chunked blob store, which are input and output for the greater part.
pub mod Cli
pub mod Core
pub mod Prelude
pub mod Server
