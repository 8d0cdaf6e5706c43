-- ===== src/Server/Merge/Trees/Fetched.antt =====
-- crates/naatre-server/src/merge.rs: `merge_trees_mode` where conflicts are recorded and every blob is
-- fetched.
use naatre.Prelude.{◌≡◌, Bytes, Result, ok}
use naatre.Server.Merge.Lines.{Lines}
use naatre.Server.Merge.PathConflict.{PathConflict}

abbrev IsOk : {E A : Type 0} → Result E A → Type 0
IsOk {A = A} r = (a : A) × (r ≡ ok a)

-- Every blob is fetched.
abbrev pub IsFetch : {E : Type 0} → (Bytes → Result E Bytes) → Type 0
IsFetch fetch = (id : Bytes) → (content : Bytes) × (fetch id ≡ ok content)
