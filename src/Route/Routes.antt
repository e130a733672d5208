-- ===== src/Route/Routes.antt =====
-- What the router of pkg/route/tree.go promises: the routes of a tree are a list of shapes with what
-- was registered for them, and a path finds the first one whose shape it has. None of it is in the
-- source.
pub mod Laws
pub mod Parts
pub mod First
pub mod Names
pub mod Handlers
use hertz_study.Base.{
  ℕ, zero, suc, Bool, true, false, List, [], ◌∷◌, ◌++◌, Option, none, some, map, Bytes, ◌==◌,
  if◌then◌else◌,
}
use hertz_study.Route.Tree.{param_label, any_label, Entry, is_set, Tree, Tree.absent, Tree.node}
use hertz_study.Route.Text.{until_slash, from_slash}

-- The path of a route without the names of its wildcards, and its entry.
abbrev pub Route : Type 0
Route = Bytes × Entry

-- What a path finds, with the values of its wildcards.
abbrev pub Hit : Type 0
Hit = Option (Entry × List Bytes)

abbrev pub with_values : List Bytes → Hit → Hit
with_values vs none = none
with_values vs (some (e, ws)) = some (e, vs ++ ws)

abbrev pub or_hit : Hit → Hit → Hit
or_hit none y = y
or_hit (some x) y = some x

abbrev pub with_value : Bytes → Option (List Bytes) → Option (List Bytes)
with_value v none = none
with_value v (some ws) = some (v ∷ ws)

abbrev pub hit_or : Entry → Option (List Bytes) → Hit → Hit
hit_or e none rest = rest
hit_or e (some vs) rest = some (e, vs)

abbrev pub prepend : Bytes → Route → Route
prepend p (shape, e) = (p ++ shape, e)

abbrev pub own_route : Entry → List Route
own_route e = if is_set e then ([], e) ∷ [] else []

abbrev pub any_route : Tree → List Route
any_route absent = []
any_route (node k p e kids pc ac next) = (p, e) ∷ []

-- The routes of a node, or of all children of a list, in the order of their priority.
unfoldable pub routes : Bool → Tree → List Route
routes among absent = []
routes among (node k p e kids pc ac next) =
    let below = own_route e ++ (routes true kids ++ (routes false pc ++ any_route ac)) in
    let there = routes true next in map (prepend p) below ++ (if among then there else [])

-- Those that start below a node, once its prefix is read.
unfoldable pub inner_routes : Tree → List Route
inner_routes absent = []
inner_routes (node k p e kids pc ac next) =
    own_route e ++ (routes true kids ++ (routes false pc ++ any_route ac))

module _ (value_of : Bytes → Bytes) where
  -- A `:` takes what is left up to the next slash and a `*` all of it; any other byte is itself.
  unfoldable pub match_shape : Bytes → Bytes → Option (List Bytes)
  match_shape [] [] = some []
  match_shape [] (l ∷ s) = none
  match_shape (c ∷ shape) [] = if c == any_label then some (value_of [] ∷ []) else none
  match_shape (c ∷ shape) (l ∷ s) =
      let value = value_of (until_slash (l ∷ s)) in
      let param = with_value value (match_shape shape (from_slash (l ∷ s))) in
      let literal = match_shape shape s in
      if c == param_label
      then param
      else if c == any_label
      then some (value_of (l ∷ s) ∷ [])
      else if c == l
      then literal
      else none

  unfoldable pub first_match : List Route → Bytes → Hit
  first_match [] s = none
  first_match ((shape, e) ∷ rs) s = hit_or e (match_shape shape s) (first_match rs s)
