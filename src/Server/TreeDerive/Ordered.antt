-- ===== src/Server/TreeDerive/Ordered.antt =====
-- crates/naatre-server/src/tree_derive.rs: the order and the names of the entries of a directory.
use naatre.Prelude.{
  ◌≡◌, refl, sym, subst, true, false, none, some, List, [], ◌∷◌, Bytes, ok, bind, bind-eq-ok,
  ok-injective, All, bytes_eq, bytes_eq→eq, bytes_lt, bytes_lt_total, bytes_lt_trans,
  bytes_lt_irrefl, split_if, is_empty, Bool-cases, Option-cases, inl, inr,
}
use naatre.Core.Path.{split, slash}
use naatre.Server.Authz.Segments.{split_cons}
use naatre.Server.TreeDerive.{
  FileMeta, MemNode, no_entries, file_entry, dir_entry, MemEntry, file, dir, cons_entry, get_entry,
  put_entry, split_last, split_leaf, insert_in, insert_file,
}

-- A name that is one component of a path.
abbrev pub GoodName : Bytes → Type 0
GoodName name = (split name slash ≡ name ∷ []) × (is_empty name ≡ false)

abbrev pub GoodPath : Bytes → Type 0
GoodPath path = All GoodName (split path slash)

-- Every name is after a name.
unfoldable pub Before : Bytes → MemNode → Type 0
Before n no_entries = Unit
Before n (file_entry k m rest) = (bytes_lt n k ≡ true) × Before n rest
Before n (dir_entry k child rest) = (bytes_lt n k ≡ true) × Before n rest

-- The names ascend, and each is one component, at every depth.
unfoldable pub Ordered : MemNode → Type 0
Ordered no_entries = Unit
Ordered (file_entry n m rest) = GoodName n × (Before n rest × Ordered rest)
Ordered (dir_entry n child rest) = GoodName n × (Ordered child × (Before n rest × Ordered rest))

unfoldable pub OrderedEntry : MemEntry → Type 0
OrderedEntry (file m) = Unit
OrderedEntry (dir child) = Ordered child

lt-eq-false : (n k : Bytes) → bytes_lt n k ≡ true → bytes_eq n k ≡ false
lt-eq-false n k h = elim (Bool-cases (bytes_eq n k)) [
  | inl same ↦
      let here : bytes_lt n n ≡ true =
        subst (λ x. bytes_lt n x ≡ true) (sym (bytes_eq→eq n k same)) h in
      let never = bytes_lt_irrefl n in absurd cc
  | inr other ↦ other
]

pub Before-absent : (n : Bytes) (node : MemNode) → Before n node → get_entry n node ≡ none
unfolding Before get_entry
Before-absent n no_entries h = refl
Before-absent n (file_entry k m rest) (lt, h) = rw (lt-eq-false n k lt) (Before-absent n rest h)
Before-absent n (dir_entry k child rest) (lt, h) = rw (lt-eq-false n k lt) (Before-absent n rest h)

Before-lower : (a n : Bytes) (node : MemNode) → bytes_lt a n ≡ true → Before n node → Before a node
unfolding Before
Before-lower a n no_entries lt h = tt
Before-lower a n (file_entry k m rest) lt (first, h) =
    (bytes_lt_trans a n k lt first, Before-lower a n rest lt h)
Before-lower a n (dir_entry k child rest) lt (first, h) =
    (bytes_lt_trans a n k lt first, Before-lower a n rest lt h)

Before-cons :
    (a n : Bytes) (e : MemEntry) (rest : MemNode)
    → bytes_lt a n ≡ true
    → Before a rest
    → Before a (cons_entry n e rest)
unfolding Before cons_entry
Before-cons a n (file m) rest lt h = (lt, h)
Before-cons a n (dir child) rest lt h = (lt, h)

Ordered-cons :
    (n : Bytes) (e : MemEntry) (rest : MemNode)
    → GoodName n
    → OrderedEntry e
    → Before n rest
    → Ordered rest
    → Ordered (cons_entry n e rest)
unfolding Ordered OrderedEntry cons_entry
Ordered-cons n (file m) rest good entry before h = (good, (before, h))
Ordered-cons n (dir child) rest good entry before h = (good, (entry, (before, h)))

Before-put :
    (a n : Bytes) (e : MemEntry) (node : MemNode)
    → bytes_lt a n ≡ true
    → Before a node
    → Before a (put_entry n e node)
unfolding put_entry Before
Before-put a n e no_entries lt h = Before-cons a n e no_entries lt h
Before-put a n e (file_entry k m rest) lt h = elim (Bool-cases (bytes_lt n k)) [
  | inl first ↦ rw first (Before-cons a n e (file_entry k m rest) lt h)
  | inr late ↦ elim (Bool-cases (bytes_eq n k)) [
    | inl same ↦ rw (late, same) (Before-cons a n e rest lt h.1)
    | inr other ↦ rw (late, other) (h.0, Before-put a n e rest lt h.1)
  ]
]
Before-put a n e (dir_entry k child rest) lt h = elim (Bool-cases (bytes_lt n k)) [
  | inl first ↦ rw first (Before-cons a n e (dir_entry k child rest) lt h)
  | inr late ↦ elim (Bool-cases (bytes_eq n k)) [
    | inl same ↦ rw (late, same) (Before-cons a n e rest lt h.1)
    | inr other ↦ rw (late, other) (h.0, Before-put a n e rest lt h.1)
  ]
]

-- Putting an entry of a good name keeps the order.
put-Ordered :
    (n : Bytes) (e : MemEntry) (node : MemNode)
    → GoodName n
    → OrderedEntry e
    → Ordered node
    → Ordered (put_entry n e node)
unfolding put_entry Ordered Before
put-Ordered n e no_entries good entry h = Ordered-cons n e no_entries good entry tt tt
put-Ordered n e (file_entry k m rest) good entry (name, (before, h)) =
    elim (Bool-cases (bytes_lt n k)) [
      | inl first ↦ rw first (
          Ordered-cons n e (file_entry k m rest) good entry
            (first, Before-lower n k rest first before) (name, (before, h)))
      | inr late ↦ elim (Bool-cases (bytes_eq n k)) [
        | inl same ↦
            rw (late, same)
              (Ordered-cons n e rest good entry
                (subst (λ x. Before x rest) (sym (bytes_eq→eq n k same)) before) h)
        | inr other ↦
            rw (late, other)
              (
                name,
                (
                  Before-put k n e rest (bytes_lt_total n k late other) before,
                  put-Ordered n e rest good entry h,
                ),
              )
      ]
    ]
put-Ordered n e (dir_entry k child rest) good entry (name, (below, (before, h))) =
    elim (Bool-cases (bytes_lt n k)) [
      | inl first ↦ rw first (
          Ordered-cons n e (dir_entry k child rest) good entry
            (first, Before-lower n k rest first before) (name, (below, (before, h))))
      | inr late ↦ elim (Bool-cases (bytes_eq n k)) [
        | inl same ↦
            rw (late, same)
              (Ordered-cons n e rest good entry
                (subst (λ x. Before x rest) (sym (bytes_eq→eq n k same)) before) h)
        | inr other ↦
            rw (late, other)
              (
                name,
                (
                  below,
                  (
                    Before-put k n e rest (bytes_lt_total n k late other) before,
                    put-Ordered n e rest good entry h,
                  ),
                ),
              )
      ]
    ]

child-Ordered :
    (n : Bytes) (node child : MemNode)
    → Ordered node
    → get_entry n node ≡ some (dir child)
    → Ordered child
unfolding Ordered get_entry
child-Ordered n no_entries child h e = absurd cc
child-Ordered n (file_entry k m rest) child (name, (before, h)) e =
    elim (split_if (bytes_eq n k) _ _ e) [
      | inl (same, e₁) ↦ absurd cc
      | inr (other, e₁) ↦ child-Ordered n rest child h e₁
    ]
child-Ordered n (dir_entry k c rest) child (name, (below, (before, h))) e =
    elim (split_if (bytes_eq n k) _ _ e) [
      | inl (same, e₁) ↦ let at_child : c ≡ child = cc in subst Ordered at_child below
      | inr (other, e₁) ↦ child-Ordered n rest child h e₁
    ]

insert_in-Ordered :
    (node : MemNode) (dirs : List Bytes) (leaf full : Bytes) (m : FileMeta) (node' : MemNode)
    → All GoodName dirs
    → GoodName leaf
    → Ordered node
    → insert_in node dirs leaf full m ≡ ok node'
    → Ordered node'
unfolding insert_in OrderedEntry Ordered
insert_in-Ordered node [] leaf full m node' good name h e =
    subst Ordered (ok-injective e) (put-Ordered leaf (file m) node name tt h)
insert_in-Ordered node (d ∷ dirs) leaf full m node' (first, good) name h e =
    elim (Option-cases (get_entry d node)) [
      | inl gone ↦
          let made : bind (insert_in no_entries dirs leaf full m)
                (λ c. ok (put_entry d (dir c) node))
              ≡ ok node' =
            cc in
          let (c, below, e₁) = bind-eq-ok (insert_in no_entries dirs leaf full m) _ made in
          subst Ordered (ok-injective e₁) (
            put-Ordered d (dir c) node first
              (insert_in-Ordered no_entries dirs leaf full m c good name tt below) h)
      | inr (file f, there) ↦ absurd cc
      | inr (dir child, there) ↦
          let made : bind (insert_in child dirs leaf full m) (λ c. ok (put_entry d (dir c) node))
              ≡ ok node' =
            cc in
          let (c, below, e₁) = bind-eq-ok (insert_in child dirs leaf full m) _ made in
          subst Ordered (ok-injective e₁) (
            put-Ordered d (dir c) node first
              (insert_in-Ordered child dirs leaf full m c good name
                (child-Ordered d node child h there) below)
              h)
    ]

split_last-good :
    (s : Bytes) (ss : List Bytes)
    → GoodName s
    → All GoodName ss
    → All GoodName (split_last s ss).0 × GoodName (split_last s ss).1
unfolding split_last
split_last-good s [] good h = (tt, good)
split_last-good s (t ∷ ts) good (first, h) =
    let (dirs, leaf) = split_last-good t ts first h in ((good, dirs), leaf)

split_leaf-good :
    (path : Bytes) → GoodPath path → All GoodName (split_leaf path).0 × GoodName (split_leaf path).1
unfolding split_leaf
split_leaf-good path h =
    let (first, rest, e) = split_cons path in
    let parts : All GoodName (first ∷ rest) = subst (All GoodName) e h in
    rw e (split_last-good first rest parts.0 parts.1)

-- Adding a file at a good path keeps the order.
pub insert_file-Ordered :
    (node : MemNode) (path : Bytes) (m : FileMeta) (node' : MemNode)
    → GoodPath path
    → Ordered node
    → insert_file node path m ≡ ok node'
    → Ordered node'
unfolding insert_file
insert_file-Ordered node path m node' good h e =
    let (dirs, leaf) = split_leaf-good path good in
    insert_in-Ordered node (split_leaf path).0 (split_leaf path).1 path m node' dirs leaf h e
