-- ===== src/Route/AddRoute/Answers.antt =====
-- What a router of pkg/route/tree.go answers after its routes are added.
use mathlib.Core.List.{Perm, Mem, mem-map_of_mem, ne-nil_of_mem}
use mathlib.Core.List.Perm
use hertz_study.Base.{
  ◌≡◌, ◌≢◌, refl, sym, ap, subst, ◌∙◌, inl, inr, ℕ, ◌≤◌, false, List, [], ◌∷◌, Option, none, some,
  map, Bytes, arith,
}
use hertz_study.Route.Tree.{any_handler, Tree}
use hertz_study.Route.Routes.{Route, Hit, routes, match_shape, first_match}
use hertz_study.Route.Routes.Handlers.{HitHasHandlers, hit-HasHandlers, first_match-Mem}
use hertz_study.Route.AddRoute.Router.{IsTree, new_root}
use hertz_study.Route.AddRoute.Shape.{shape_of, entry_for}
use hertz_study.Route.AddRoute.Register.{add_routes, route_for, Registers, add_routes-Registers}
use hertz_study.Route.Find.{Params, NodeValue, find, stored_value}
use hertz_study.Route.Find.Correct.{Answers, find-first_match}

-- With enough fuel `find` returns the value and the parameters.
abbrev pub Finds : (Bytes → Option Bytes) → Tree → Bytes → NodeValue → Params → Type 0
Finds query_unescape root path v ps =
    (enough : ℕ) × ((fuel : ℕ)
      → enough ≤ fuel
      → find (stored_value query_unescape false) fuel root path ≡ some (some (v, ps)))

pub registered_tree :
    (rs : List (Bytes × List ℕ)) (root : Tree) → rs ≢ [] → Registers rs root → IsTree root
unfolding routes
registered_tree [] root some_route registers = absurd (some_route refl)
registered_tree (r ∷ rs) root some_route (inr tree, same) = tree
registered_tree (r ∷ rs) root some_route (inl new, same) =
    let none_left : [] ≡ map route_for (r ∷ rs) =
      Perm.nil-eq (subst (λ t. Perm (routes false t) (map route_for (r ∷ rs))) new same) in
    ground arith

-- A router without routes is given some routes by `addRoute`, one after the other, and none of the
-- calls panics. Then there is one order of these routes such that for every path `find`, without
-- `unescape` and with enough fuel, returns the handlers and the path of the first route in this order that
-- the path matches, and a parameter with its name and its value for each wildcard of the route; where
-- no route matches it returns no handlers, no path and no parameters. A `:` matches the bytes up to
-- the next slash where a byte is left, a `*` what is left.
pub registered-Answers :
    (query_unescape : Bytes → Option Bytes) (rs : List (Bytes × List ℕ)) (root : Tree)
    → rs ≢ []
    → add_routes rs new_root ≡ some root
    → (order : List Route) × Perm order (map route_for rs)
      × ((path : Bytes)
          → (v : NodeValue) × (ps : Params) × Finds query_unescape root path v ps
            × Answers (first_match (λ part. part) order path) v ps)
registered-Answers query_unescape rs root some_route returns =
    let registers = add_routes-Registers rs root returns in
    let (formed, rooted, present) = registered_tree rs root some_route registers in
    (
      routes false root,
      registers.1,
      λ path.
          let (enough, v, ps, runs, answers) =
            find-first_match query_unescape root path formed present in
          (v, ps, (enough, runs), answers),
    )

-- After calls of `addRoute` on a router without routes, none of which panics, `find`, without
-- `unescape` and with enough fuel, returns handlers for every path that matches one of the routes.
pub registered_found :
    (query_unescape : Bytes → Option Bytes) (rs : List (Bytes × List ℕ)) (root : Tree)
    (path route : Bytes) (h : List ℕ)
    → add_routes rs new_root ≡ some root
    → Mem (route, h) rs
    → match_shape (λ part. part) (shape_of route) path ≢ none
    → (v : NodeValue) × (ps : Params) × Finds query_unescape root path v ps × (v.handlers ≢ [])
registered_found query_unescape rs root path route h returns mem matches =
    let registers = add_routes-Registers rs root returns in
    let (formed, rooted, present) = registered_tree rs root (ne-nil_of_mem mem) registers in
    let (enough, v, ps, runs, answers) = find-first_match query_unescape root path formed present in
    let listed : Mem (route_for (route, h)) (routes false root) =
      Perm.subset (Perm.symm registers.1) _ (mem-map_of_mem route_for mem) in
    let hit = first_match (λ part. part) (routes false root) path in
    (
      v,
      ps,
      (enough, runs),
      answered hit v ps
          (first_match-Mem (λ part. part) (routes false root) (shape_of route) (entry_for route h)
            path listed matches)
          (hit-HasHandlers (λ part. part) root path formed) answers,
    )
  where
    answered :
        (hit : Hit) (v : NodeValue) (ps : Params)
        → hit ≢ none
        → HitHasHandlers hit
        → Answers hit v ps
        → v.handlers ≢ []
    answered none v ps some_hit has answers none_left = absurd (some_hit refl)
    answered (some (e, vs)) v ps some_hit has (handlers, full_path, names, values) none_left =
        ground (arith, has, ap any_handler (sym handlers ∙ none_left))
