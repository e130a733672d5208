-- ===== src/Route/Insert.antt =====
-- `insert` of pkg/route/tree.go. `none` is a panic. `insert` is told
-- here whether it is at the current node or among the children of the node above it.
pub mod Equations
pub mod Grows
pub mod Outcome
pub mod Children
pub mod Split
pub mod Siblings
pub mod Literal
pub mod Pieces
pub mod Extends
use hertz_study.Base.{
  ℕ, zero, suc, ◌+◌, ◌-◌, Bool, true, false, not, ◌||◌, ◌&&◌, List, [], ◌∷◌, ◌++◌, Option, none,
  some, ◌>>=◌, Bytes, length, take, drop, ltb, ◌==◌, if◌then◌else◌,
}
use hertz_study.Route.Tree.{
  Kind, Kind.skind, Kind.pkind, Kind.akind, slash, param_label, any_label, Entry, no_entry, is_set,
  Tree, Tree.absent, Tree.node, label_of, is_present, find_child,
}

-- The index where the search and the prefix part.
unfoldable pub lcp_len : Bytes → Bytes → ℕ
lcp_len [] p = 0
lcp_len (x ∷ s) [] = 0
lcp_len (x ∷ s) (y ∷ p) = let rest = lcp_len s p in if x == y then suc rest else 0

-- `newNode` of a route, without children.
abbrev pub new_leaf : Kind → Bytes → Entry → Tree
new_leaf t s h = node t s h absent absent absent absent

-- At the end of the list of children.
unfoldable pub append_child : Tree → Tree → Tree
append_child absent n = n
append_child (node k p e kids pc ac next) n = node k p e kids pc ac (append_child next n)

-- `lcpLen == 0`: the root before its first route.
abbrev fill_root : Kind → Bytes → Entry → Tree → Tree
fill_root t s h absent = absent
fill_root t s h (node k p e kids pc ac next) =
    if is_set h then node t s h kids pc ac next else node k s e kids pc ac next

-- `lcpLen < prefixLen`: the node gets a parent with the first part of its prefix.
abbrev split_node : ℕ → Kind → Bytes → Entry → Tree → Tree
split_node lcp t s h absent = absent
split_node lcp t s h (node k p e kids pc ac next) =
    let lower : Tree → Tree = node k (drop lcp p) e kids pc ac in
    if lcp == length s
    then node t (take lcp p) h (lower absent) absent absent next
    else node skind (take lcp p) no_entry (lower (new_leaf t (drop lcp s) h)) absent absent next

-- The rest of the path under a node that has no child for it.
abbrev pub add_child : Kind → Bytes → Entry → Tree → Tree
add_child t s h absent = absent
add_child skind s h (node k p e kids pc ac next) =
    node k p e (append_child kids (new_leaf skind s h)) pc ac next
add_child pkind s h (node k p e kids pc ac next) = node k p e kids (new_leaf pkind s h) ac next
add_child akind s h (node k p e kids pc ac next) = node k p e kids pc (new_leaf akind s h) next

-- A node that the whole path reads.
abbrev pub set_entry : Entry → Tree → Option Tree
set_entry h absent = none
set_entry h (node k p e kids pc ac next) =
    if is_set e && is_set h
    then none
    else if is_set h
    then some (node k p h kids pc ac next)
    else some (node k p e kids pc ac next)

-- Which child `findChildWithLabel` gives.
pub data Way : Type 0 where
  to_children to_param to_any to_none : Way

abbrev pub find_child_with_label : ℕ → Tree → Tree → Tree → Way
find_child_with_label l kids pc ac =
    if is_present (find_child l kids)
    then Way.to_children
    else if l == param_label && is_present pc
    then Way.to_param
    else if l == any_label && is_present ac
    then Way.to_any
    else Way.to_none

abbrev pub go_deeper :
    Way → Option Tree → Option Tree → Option Tree → Kind → Bytes → Entry → Tree → Option Tree
go_deeper way kids' pc' ac' t s h absent = none
go_deeper to_children kids' pc' ac' t s h (node k p e kids pc ac next) = do
  x ← kids'
  some (node k p e x pc ac next)
go_deeper to_param kids' pc' ac' t s h (node k p e kids pc ac next) = do
  x ← pc'
  some (node k p e kids x ac next)
go_deeper to_any kids' pc' ac' t s h (node k p e kids pc ac next) = do
  x ← ac'
  some (node k p e kids pc x next)
go_deeper to_none kids' pc' ac' t s h (node k p e kids pc ac next) =
    some (add_child t s h (node k p e kids pc ac next))

-- One pass of the loop at a node, given what the passes below it do with the rest of the path.
abbrev insert_at :
    ℕ → Option Tree → Option Tree → Option Tree → Kind → Bytes → Entry → Tree → Option Tree
insert_at lcp kids' pc' ac' t s h absent = none
insert_at lcp kids' pc' ac' t s h (node k p e kids pc ac next) =
    let rest = drop lcp s in
    let way = find_child_with_label (label_of rest) kids pc ac in
    if lcp == 0
    then some (fill_root t s h (node k p e kids pc ac next))
    else if ltb lcp (length p)
    then some (split_node lcp t s h (node k p e kids pc ac next))
    else if ltb lcp (length s)
    then go_deeper way kids' pc' ac' t rest h (node k p e kids pc ac next)
    else set_entry h (node k p e kids pc ac next)

abbrev pub with_next : Kind → Bytes → Entry → Tree → Tree → Tree → Option Tree → Option Tree
with_next k p e kids pc ac none = none
with_next k p e kids pc ac (some next) = some (node k p e kids pc ac next)

unfoldable pub insert : Bool → Kind → Bytes → Entry → Tree → Option Tree
insert among t s h absent = none
insert among t s h (node k p e kids pc ac next) =
    let lcp = lcp_len s p in
    let rest = drop lcp s in
    let kids' = insert true t rest h kids in
    let pc' = insert false t rest h pc in
    let ac' = insert false t rest h ac in
    let here = insert_at lcp kids' pc' ac' t s h (node k p e kids pc ac next) in
    let there = with_next k p e kids pc ac (insert among t s h next) in
    if among then (if label_of p == label_of s then here else there) else here
