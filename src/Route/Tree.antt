-- ===== src/Route/Tree.antt =====
-- The nodes of the radix tree of pkg/route/tree.go. A handler is a number. The engine registers no
-- empty chain, so an empty chain stands for `nil`. A node has no `parent` here: the search keeps the
-- nodes above the current one. `isLeaf`, which nothing reads, is left out.
use hertz_study.Base.{
  ℕ, Bool, true, false, ◌||◌, ◌&&◌, List, [], ◌∷◌, Bytes, get_or, ◌==◌, if◌then◌else◌,
}

pub data Kind : Type 0 where
  skind pkind akind : Kind

abbrev pub is_skind : Kind → Bool
is_skind Kind.skind = true
is_skind Kind.pkind = false
is_skind Kind.akind = false

abbrev pub slash : ℕ
slash = 47

abbrev pub param_label : ℕ
param_label = 58

abbrev pub any_label : ℕ
any_label = 42

-- What a route leaves at a node.
pub record Entry : Type 0 where
  pub handlers : List ℕ
  pub ppath : Bytes
  pub pnames : List Bytes

abbrev pub no_entry : Entry
no_entry = record { handlers = []; ppath = []; pnames = [] }

abbrev pub any_handler {ℓ} : {A : Type ℓ} → List A → Bool
any_handler [] = false
any_handler (x ∷ xs) = true

abbrev pub is_set : Entry → Bool
is_set e = any_handler e.handlers

-- A node, or `nil`: its kind, prefix, entry, children, `paramChild` and `anyChild`. The last tree is
-- the next one in the list of children that the node stands in.
pub data Tree : Type 0 where
  absent : Tree
  node : Kind → Bytes → Entry → Tree → Tree → Tree → Tree → Tree

-- The field `label`, which `newNode` and `insert` keep equal to the first byte of the prefix.
abbrev pub label_of : Bytes → ℕ
label_of prefix = get_or prefix 0 0

abbrev pub is_present : Tree → Bool
is_present Tree.absent = false
is_present (Tree.node k p e kids pc ac next) = true

abbrev entry_of : Tree → Entry
entry_of Tree.absent = no_entry
entry_of (Tree.node k p e kids pc ac next) = e

abbrev any_child_of : Tree → Tree
any_child_of Tree.absent = Tree.absent
any_child_of (Tree.node k p e kids pc ac next) = ac

-- `findChild`, on the list of children.
unfoldable pub find_child : ℕ → Tree → Tree
find_child l Tree.absent = Tree.absent
find_child l (Tree.node k p e kids pc ac next) =
    if label_of p == l then Tree.node k p e kids pc ac next else find_child l next

-- `cd != nil && (cd.handlers != nil || cd.anyChild != nil)` for the child with a slash.
unfoldable pub slash_child : Tree → Bool
slash_child kids =
    let cd = find_child slash kids in
    is_present cd && (is_set (entry_of cd) || is_present (any_child_of cd))
