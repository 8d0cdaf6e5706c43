-- ===== src/Server/TreeDerive/Entries.antt =====
-- crates/naatre-server/src/tree_derive.rs: the entries of a directory as a map.
use naatre.Prelude.{
  ◌≡◌, refl, ◌∙◌, arith, false, none, some, Bytes, bytes_eq, bytes_eq_refl, bytes_eq_join,
  bytes_eq_same, if◌then◌else◌, Bool-cases, inl, inr,
}
use naatre.Server.TreeDerive.{
  cons_entry, MemNode, no_entries, file_entry, dir_entry, MemEntry, file, dir, get_entry, put_entry,
  remove_entry,
}

get-cons_entry :
    (q n : Bytes) (e : MemEntry) (rest : MemNode)
    → get_entry q (cons_entry n e rest) ≡ (if bytes_eq q n then some e else get_entry q rest)
unfolding cons_entry get_entry
get-cons_entry q n (file m) rest = refl
get-cons_entry q n (dir child) rest = refl

-- Putting an entry changes the entry of its name, and no other.
pub get-put_entry :
    (q n : Bytes) (e : MemEntry) (node : MemNode)
    → get_entry q (put_entry n e node) ≡ (if bytes_eq q n then some e else get_entry q node)
unfolding get_entry put_entry
get-put_entry q n e no_entries = unfold get_entry in get-cons_entry q n e no_entries
get-put_entry q n e (file_entry p m rest) = ground (
  arith,
  get-put_entry q n e rest,
  get-cons_entry q n e rest,
  get-cons_entry q n e (file_entry p m rest),
  bytes_eq_join q n p,
  bytes_eq_same q n p,
)
get-put_entry q n e (dir_entry p child rest) = ground (
  arith,
  get-put_entry q n e rest,
  get-cons_entry q n e rest,
  get-cons_entry q n e (dir_entry p child rest),
  bytes_eq_join q n p,
  bytes_eq_same q n p,
)

-- Removing a name removes its entry, and no other.
pub get-remove_entry :
    (q n : Bytes) (node : MemNode)
    → get_entry q (remove_entry n node) ≡ (if bytes_eq q n then none else get_entry q node)
unfolding get_entry remove_entry
get-remove_entry q n no_entries = elim (Bool-cases (bytes_eq q n)) [
  | inl same ↦ rw same refl
  | inr other ↦ rw other refl
]
get-remove_entry q n (file_entry p m rest) =
    ground (arith, get-remove_entry q n rest, bytes_eq_join q n p, bytes_eq_same q n p)
get-remove_entry q n (dir_entry p child rest) =
    ground (arith, get-remove_entry q n rest, bytes_eq_join q n p, bytes_eq_same q n p)

-- Other names keep their entries.
pub put_other :
    (q n : Bytes) (e : MemEntry) (node : MemNode)
    → bytes_eq q n ≡ false
    → get_entry q (put_entry n e node) ≡ get_entry q node
put_other q n e node h = get-put_entry q n e node ∙ (rw h refl)

pub put_self :
    (n : Bytes) (e : MemEntry) (node : MemNode) → get_entry n (put_entry n e node) ≡ some e
put_self n e node = get-put_entry n n e node ∙ (rw (bytes_eq_refl n) refl)

pub remove_other :
    (q n : Bytes) (node : MemNode)
    → bytes_eq q n ≡ false
    → get_entry q (remove_entry n node) ≡ get_entry q node
remove_other q n node h = get-remove_entry q n node ∙ (rw h refl)

pub remove_self : (n : Bytes) (node : MemNode) → get_entry n (remove_entry n node) ≡ none
remove_self n node = get-remove_entry n n node ∙ (rw (bytes_eq_refl n) refl)
