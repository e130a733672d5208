-- ===== src/Route/AddRoute/Register.antt =====
-- A router that `addRoute` of pkg/route/tree.go builds route by route, and what `find` makes of it.
use mathlib.Core.List.{Perm, perm_middle}
use mathlib.Core.List.Perm
use mathlib.Core.Option.{some-injective}
use hertz_study.Base.{
  ◌≡◌, refl, sym, ap, subst, ◌∙◌, inl, inr, ℕ, false, List, [], ◌∷◌, ◌++◌, Option, none, some,
  ◌>>=◌, map, Bytes, Option-cases, append-nil, arith,
}
use hertz_study.Route.Tree.{Tree}
use hertz_study.Route.Routes.{Route, routes}
use hertz_study.Route.Insert.Grows.{Inserted}
use hertz_study.Route.AddRoute.{add_route}
use hertz_study.Route.AddRoute.Router.{IsTree, IsRouter, new_root}
use hertz_study.Route.AddRoute.Places.{Added}
use hertz_study.Route.AddRoute.Shape.{shape_of, entry_for}
use hertz_study.Route.AddRoute.Laws.{add_route_lem}

-- The calls of `addRoute`, in their order.
unfoldable pub add_routes : List (Bytes × List ℕ) → Tree → Option Tree
add_routes [] root = some root
add_routes ((path, h) ∷ rs) root = add_route path h root >>= add_routes rs

abbrev pub route_for : Bytes × List ℕ → Route
route_for (path, h) = (shape_of path, entry_for path h)

Inserted-Perm : (r : Route) (xs ys : List Route) → Inserted r xs ys → Perm ys (r ∷ xs)
Inserted-Perm r xs ys (a, b, before, after) =
    subst (λ l. Perm l (r ∷ xs)) (sym after)
      (subst (λ l. Perm (a ++ r ∷ b) (r ∷ l)) (sym before) (perm_middle a b))

-- The registered routes, in the order in which the search tries them.
abbrev pub Registers : List (Bytes × List ℕ) → Tree → Type 0
Registers rs root = IsRouter root × Perm (routes false root) (map route_for rs)

none_is_not : (t : Tree) → none ≡ some t → ⊥
none_is_not t h = ground arith

add_route-Registers :
    (done : List Route) (path : Bytes) (h : List ℕ) (root root' : Tree)
    → IsRouter root
    → Perm (routes false root) done
    → add_route path h root ≡ some root'
    → IsTree root' × Perm (routes false root') (route_for (path, h) ∷ done)
add_route-Registers done path h root root' router same returns =
    elim (add_route_lem path h root router) [
      | inl (invalid, panics) ↦ absurd (none_is_not root' (sym panics ∙ returns))
      | inr (valid, added) ↦
          let (tree, inserted) =
            subst (Added (shape_of path) (entry_for path h) root) returns added in
          (
            tree,
            Perm.trans (Inserted-Perm (route_for (path, h)) _ _ inserted)
                (Perm.cons (route_for (path, h)) same),
          )
    ]

add_routes_from :
    (rs : List (Bytes × List ℕ)) (done : List Route) (root root' : Tree)
    → IsRouter root
    → Perm (routes false root) done
    → add_routes rs root ≡ some root'
    → IsRouter root' × Perm (routes false root') (map route_for rs ++ done)
unfolding add_routes
add_routes_from [] done root root' router same returns =
    let eq : root ≡ root' = some-injective root root' returns in
    (subst IsRouter eq router, subst (λ t. Perm (routes false t) done) eq same)
add_routes_from ((path, h) ∷ rs) done root root' router same returns =
    elim (Option-cases (add_route path h root)) [
      | inl panics ↦
          absurd (none_is_not root' (sym (ap (λ r. r >>= add_routes rs) panics) ∙ returns))
      | inr (next, adds) ↦
          let r = route_for (path, h) in
          let (tree, same') = add_route-Registers done path h root next router same adds in
          let returns' = sym (ap (λ x. x >>= add_routes rs) adds) ∙ returns in
          let (router', all) = add_routes_from rs (r ∷ done) next root' (inr tree) same' returns' in
          (router', Perm.trans all (perm_middle (map route_for rs) done))
    ]

new_routes : routes false new_root ≡ []
unfolding routes
new_routes = refl

-- Where calls of `addRoute` on a router without routes do not panic, they leave a router whose tree is
-- empty or well-formed, and the routes of the tree are the registered ones, each as often as it was
-- registered, in some order.
pub add_routes-Registers :
    (rs : List (Bytes × List ℕ)) (root : Tree)
    → add_routes rs new_root ≡ some root
    → Registers rs root
add_routes-Registers rs root returns =
    let none_yet = subst (λ l. Perm (routes false new_root) l) new_routes (Perm.refl _) in
    let (router, all) = add_routes_from rs [] new_root root (inl refl) none_yet returns in
    (router, subst (Perm (routes false root)) (append-nil (map route_for rs)) all)
