-- ===== src/Route/AddRoute/Laws.antt =====
-- `addRoute` of pkg/route/tree.go adds one route, or panics.
use mathlib.Core.List.{cons-ne-nil}
use hertz_study.Base.{
  ◌≡◌, refl, ◌⊎◌, inl, inr, ℕ, Bool, true, false, List, [], ◌∷◌, none, Bytes, ◌==◌, ==_iff, ◌&&◌,
  Bool-cases, arith,
}
use hertz_study.Route.Tree.{slash, any_handler, Tree}
use hertz_study.Route.Routes.Names.{wildcards}
use hertz_study.Route.AddRoute.{Reading.in_static, check_path_valid, add_from, add_route}
use hertz_study.Route.AddRoute.Router.{IsRouter}
use hertz_study.Route.AddRoute.Shape.{shape_from, names_from, shape_of, entry_for}
use hertz_study.Route.AddRoute.Places.{Added}
use hertz_study.Route.AddRoute.Loop.{count_literal, slash-IsLiteral, adds}

Added-path :
    (c : ℕ) (path : Bytes) (h : List ℕ) (root : Tree)
    → (c == slash) ≡ true
    → any_handler h ≡ true
    → IsRouter root
    → Added
        (shape_of (c ∷ path))
        (entry_for (c ∷ path) h)
        root
        (add_from in_static (c ∷ path) [] [] h (c ∷ path) root)
unfolding add_from shape_from names_from
Added-path c path h root is some_h router =
    let (not_param, not_any) = slash-IsLiteral c is in
    let count : wildcards (c ∷ []) ≡ 0 = count_literal c (not_param, not_any) in
    let at_slash = (==_iff c slash).0 is in
    rw (not_param, not_any)
      (adds in_static path (c ∷ []) [] h (c ∷ path) root some_h
        (inl (router, ((not_param, not_any), tt), at_slash, cons-ne-nil c [])) (not_any, tt)
        (omega (arith, count)))

and_left : (a b : Bool) → (a && b) ≡ true → a ≡ true
and_left a b h = ground arith

and_right : (a b : Bool) → (a && b) ≡ true → b ≡ true
and_right a b h = ground arith

-- `addRoute` on a router whose tree is empty or well-formed panics where `checkPathValid` does or where
-- no handler is given. Else it panics only where the tree has a route of the same shape, which is the
-- path without the names of its wildcards; and where it does not panic, the tree is well-formed again
-- and its routes are those before with the new one, with its handlers, path and names, among them.
pub add_route_lem :
    (path : Bytes) (h : List ℕ) (root : Tree)
    → IsRouter root
    → (((check_path_valid path && any_handler h) ≡ false) × (add_route path h root ≡ none))
      ⊎ (((check_path_valid path && any_handler h) ≡ true)
          × Added (shape_of path) (entry_for path h) root (add_route path h root))
unfolding add_route check_path_valid
add_route_lem [] h root router = inl (refl, refl)
add_route_lem (c ∷ path) h root router =
    elim (Bool-cases (check_path_valid (c ∷ path) && any_handler h)) [
      | inr invalid ↦ inl (invalid, rw invalid refl)
      | inl valid ↦ inr (
        valid,
        rw valid (
            Added-path c path h root (and_left (c == slash) _ (and_left _ (any_handler h) valid))
              (and_right _ (any_handler h) valid) router),
      )
    ]
