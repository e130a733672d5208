-- ===== src/Route/Find.antt =====
-- `find` of pkg/route/tree.go: one pass of its loop between two of its labels at a time. The
-- capacity of the parameters is left out. A slot that they grow by is empty: the code writes a slot
-- before it reads it.
pub mod Laws
pub mod Nodes
pub mod Refines
pub mod Correct
use hertz_study.Base.{
  ℕ, zero, suc, ◌+◌, ◌-◌, Bool, true, false, ◌||◌, ◌&&◌, List, [], ◌∷◌, ◌++◌, Option, none, some,
  ◌>>=◌, map, Bytes, length, take, drop, set, ltb, if◌then◌else◌,
}
use hertz_study.Route.Tree.{
  Kind, Kind.skind, Kind.pkind, Kind.akind, slash, Entry, is_set, Tree, Tree.absent, Tree.node,
  label_of, is_present, find_child, slash_child,
}
use hertz_study.Route.Text.{starts_with, until_slash, from_slash, is_empty, is_only_slash, nearly}

-- The parameters: a key and a value.
abbrev pub Params : Type 0
Params = List (Bytes × Bytes)

pub record NodeValue : Type 0 where
  pub handlers : List ℕ
  pub tsr : Bool
  pub full_path : Bytes

-- What `find` returns with the parameters it sets; `none` is a panic.
abbrev pub Found : Type 0
Found = Option (NodeValue × Params)

-- The local variables: the nodes above `cn` stand for its `parent` pointers, the nearest first, and
-- the values are those of the parameters, as many as `paramIndex`.
pub record Cursor : Type 0 where
  pub cn : Tree
  pub parents : List Tree
  pub search : Bytes
  pub search_index : ℕ
  pub values : List Bytes
  pub tsr : Bool

-- The start of the loop and its labels `Param` and `Any`.
pub data Place : Type 0 where
  at_node at_param at_any : Place

pub data Step : Type 0 where
  go : Place → Cursor → Step
  stop : Found → Step

-- The keys that the names of the node give; a name without a slot panics.
unfoldable pub name_params : List Bytes → List Bytes → Option Params
name_params [] vs = some (map (λ v. ([], v)) vs)
name_params (n ∷ ns) [] = none
name_params (n ∷ ns) (v ∷ vs) = do some ((n, v) ∷ (← name_params ns vs))

-- The end of the function: `cn` is the node it stopped at, if any.
abbrev pub found_at : Entry → List ℕ → List Bytes → Bool → Found
found_at e hs vs tsr = do
  ps ← name_params e.pnames vs
  some (record { handlers = hs; tsr = tsr; full_path = e.ppath }, ps)

abbrev pub nothing_found : List Bytes → Bool → Found
nothing_found vs tsr =
    some (record { handlers = []; tsr = tsr; full_path = [] }, map (λ v. ([], v)) vs)

abbrev entry_at : Tree → Entry
entry_at absent = record { handlers = []; ppath = []; pnames = [] }
entry_at (node k p e kids pc ac next) = e

-- Goes on at the parent, if there is one.
abbrev pub resume : Place → List Tree → Bytes → ℕ → List Bytes → Bool → Step
resume place [] s i vs tsr = stop (nothing_found vs tsr)
resume place (up ∷ above) s i vs tsr =
    go place
      (record { cn = up; parents = above; search = s; search_index = i; values = vs; tsr = tsr })

-- Without its last element.
unfoldable pub pop : List Bytes → List Bytes
pop [] = []
pop (v ∷ []) = []
pop (v ∷ w ∷ vs) = v ∷ pop (w ∷ vs)

unfoldable pub last_of : List Bytes → Option Bytes
last_of [] = none
last_of (v ∷ []) = some v
last_of (v ∷ w ∷ vs) = last_of (w ∷ vs)

-- `searchIndex -= n` with `search = path[searchIndex:]`, which panics below 0.
abbrev restored : ℕ → ℕ → (ℕ → Step) → Step
restored n i k = if ltb i n then stop none else k (i - n)

-- The end of the loop where no kind is next: the parent is the node it stops at.
abbrev stop_at_parent : List Tree → List Bytes → Bool → Step
stop_at_parent [] vs tsr = stop (nothing_found vs tsr)
stop_at_parent (up ∷ above) vs tsr = stop (found_at (entry_at up) [] vs tsr)

-- The last value that is popped, with what it restores.
abbrev restored_value : Bytes → Option Bytes → Cursor → (Bytes → ℕ → List Bytes → Step) → Step
restored_value path none c k = stop none
restored_value path (some v) c k =
    restored (length v) c.search_index (λ i. k (drop i path) i (pop c.values))

-- `backtrackToNextNodeKind(akind)` and the jump after it.
unfoldable pub backtrack : Bytes → Kind → Bytes → Cursor → Step
backtrack path skind p c =
    restored (length p) c.search_index
      (λ i. resume Place.at_param c.parents (drop i path) i c.values c.tsr)
backtrack path pkind p c =
    restored_value path (last_of c.values) c (λ s i vs. resume Place.at_any c.parents s i vs c.tsr)
backtrack path akind p c =
    restored_value path (last_of c.values) c (λ s i vs. stop_at_parent c.parents vs c.tsr)

-- To the child that was found, or to the label `Param`.
unfoldable pub enter : Tree → Cursor → Step
enter absent c = go Place.at_param c
enter (node k p e kids pc ac next) c =
    go Place.at_node (record c { cn = node k p e kids pc ac next; parents = c.cn ∷ c.parents })

-- The start of the loop once the prefix is read.
unfoldable pub match_children : Entry → Tree → Bytes → Cursor → Step
match_children e kids [] c =
    if is_set e
    then stop (found_at e e.handlers c.values c.tsr)
    else go Place.at_param (record c { tsr = c.tsr || slash_child kids })
match_children e kids (l ∷ s) c =
    enter (find_child l kids) (record c { tsr = c.tsr || (is_only_slash (l ∷ s) && is_set e) })

-- The start of the loop.
unfoldable pub match_node : Kind → Bytes → Entry → Tree → Tree → Cursor → Step
match_node skind p e kids ac c =
    let near = nearly p c.search && (is_set e || is_present ac) in
    let s = drop (length p) c.search in
    if starts_with p c.search
    then match_children e kids s (record c { search = s; search_index = c.search_index + length p })
    else resume Place.at_param c.parents c.search c.search_index c.values (c.tsr || near)
match_node pkind p e kids ac c = match_children e kids c.search c
match_node akind p e kids ac c = match_children e kids c.search c

module _ (value_of : Bytes → Bytes) where
  -- The label `Param` where there is a path left.
  unfoldable pub match_param : Tree → Cursor → Step
  match_param absent c = go Place.at_any c
  match_param (node k p e kids pc ac next) c =
      let s = from_slash c.search in
      let ends = is_empty s && slash_child kids in
      go Place.at_node (record {
        cn = node k p e kids pc ac next;
        parents = c.cn ∷ c.parents;
        search = s;
        search_index = c.search_index + length (until_slash c.search);
        values = c.values ++ value_of (until_slash c.search) ∷ [];
        tsr = c.tsr || ends;
      })

  -- The write to the slot `len(cn.pnames) - 1`, which panics where there is none.
  unfoldable pub set_last_named : List Bytes → List Bytes → Bytes → Option (List Bytes)
  set_last_named [] vs v = none
  set_last_named (n ∷ ns) vs v =
      if ltb (length ns) (length vs + 1) then some (set (vs ++ [] ∷ []) (length ns) v) else none

  -- The label `Any` at a node that has an any child.
  abbrev take_rest : Entry → Cursor → Found
  take_rest e c =
      set_last_named e.pnames c.values (value_of c.search) >>= λ vs. found_at e e.handlers vs c.tsr

  unfoldable pub match_any : Bytes → Kind → Bytes → Tree → Cursor → Step
  match_any path k p absent c = backtrack path k p c
  match_any path k p (node k' p' e kids pc ac next) c = stop (take_rest e c)

  abbrev param_unless_empty : Bytes → Tree → Cursor → Step
  param_unless_empty [] pc c = go Place.at_any c
  param_unless_empty (l ∷ s) pc c = match_param pc c

  abbrev step_on : Bytes → Place → Tree → Cursor → Step
  step_on path place absent c = stop none
  step_on path at_node (node k p e kids pc ac next) c = match_node k p e kids ac c
  step_on path at_param (node k p e kids pc ac next) c = param_unless_empty c.search pc c
  step_on path at_any (node k p e kids pc ac next) c = match_any path k p ac c

  -- What the loop does next at a place.
  abbrev pub step : Bytes → Place → Cursor → Step
  step path place c = step_on path place c.cn c

  -- At most `fuel` steps; `none` where they do not suffice.
  unfoldable pub run : Bytes → ℕ → Step → Option Found
  run path fuel (Step.stop r) = some r
  run path zero (Step.go place c) = none
  run path (suc fuel) (Step.go place c) = run path fuel (step path place c)

  abbrev start : Tree → Bytes → Step
  start root path = go Place.at_node (record {
    cn = root;
    parents = [];
    search = path;
    search_index = 0;
    values = [];
    tsr = false;
  })

  -- `find` at the root of the tree.
  unfoldable pub find : ℕ → Tree → Bytes → Option Found
  find fuel root path = run path fuel (start root path)

-- What `find` stores for a part of the path: `query_unescape` stands for `url.QueryUnescape`, which
-- gives nothing on an error.
unfoldable pub stored_value : (Bytes → Option Bytes) → Bool → Bytes → Bytes
stored_value query_unescape unescape part =
    if unescape then elim (query_unescape part) [ none ↦ part | some v ↦ v ] else part
