-- ===== src/Route/Engine/Laws.antt =====
-- `addRoute` of pkg/route/engine.go: the router of the method gets the route, the others stay.
use hertz_study.Base.{
  ◌≡◌, ◌≢◌, refl, sym, ap, subst, ◌∙◌, ◌⊎◌, inl, inr, ℕ, ◌≤◌, Bool, true, false, ◌&&◌, List, [],
  ◌∷◌, ◌++◌, Option, none, some, ◌>>=◌, Bytes, Bool-cases, Option-cases, arith, All-append,
}
use hertz_study.Route.Tree.{any_handler, Tree}
use hertz_study.Route.Routes.{Route, routes}
use hertz_study.Route.Insert.Grows.{Inserted, Registered}
use hertz_study.Route.AddRoute.{add_route, check_path_valid}
use hertz_study.Route.AddRoute.Router.{IsTree, IsRouter, new_root}
use hertz_study.Route.AddRoute.Places.{Added}
use hertz_study.Route.AddRoute.Shape.{shape_of, entry_for}
use hertz_study.Route.AddRoute.Laws.{add_route_lem}
use hertz_study.Route.Engine.{
  MethodTrees, get, Engine, set_root, count_params, larger, starts_with_slash, some_method,
  engine_add_route,
}
use hertz_study.Route.Engine.Promise.{HaveTrees, get-HaveTrees}
use hertz_study.Route.Engine.Routers.{
  set_root-HaveTrees, get-set_root, get-set_root_other, set_root-concat, get-concat,
  get-concat_other, larger_lem, with_router-new, with_router-old,
}

-- The routes of a method.
abbrev method_routes : Option Tree → List Route
method_routes none = []
method_routes (some root) = routes false root

-- What `addRoute` leaves.
abbrev AddedTo : Bytes → Bytes → List ℕ → Engine → Engine → Type 0
AddedTo method path h engine engine' =
    HaveTrees engine'.trees
    × Inserted (shape_of path, entry_for path h) (method_routes (get engine.trees method))
        (method_routes (get engine'.trees method))
    × ((m : Bytes) → m ≢ method → get engine'.trees m ≡ get engine.trees m)
    × (count_params path ≤ engine'.max_params)
    × (engine.max_params ≤ engine'.max_params)

abbrev finish : Bytes → Bytes → Engine → MethodTrees → Tree → Option Engine
finish method path engine trees root' = some (record {
  trees = set_root trees method root';
  max_params = larger (count_params path) engine.max_params;
})

abbrev guards : Bytes → Bytes → List ℕ → Bool
guards method path h = starts_with_slash path && some_method method && any_handler h

engine_add_route-new :
    (method path : Bytes) (h : List ℕ) (engine : Engine)
    → guards method path h ≡ true
    → get engine.trees method ≡ none
    → engine_add_route method path h engine ≡ (
        add_route path h new_root
        >>= finish method path engine (engine.trees ++ (method, new_root) ∷ []))
unfolding engine_add_route
engine_add_route-new method path h engine on none_has =
    rw (on, with_router-new engine.trees method none_has) refl

engine_add_route-old :
    (method path : Bytes) (h : List ℕ) (engine : Engine) (root : Tree)
    → guards method path h ≡ true
    → get engine.trees method ≡ some root
    → engine_add_route method path h engine
      ≡ (add_route path h root >>= finish method path engine engine.trees)
unfolding engine_add_route
engine_add_route-old method path h engine root on has =
    rw (on, with_router-old engine.trees method root has) refl

engine_add_route-off :
    (method path : Bytes) (h : List ℕ) (engine : Engine)
    → guards method path h ≡ false
    → engine_add_route method path h engine ≡ none
unfolding engine_add_route
engine_add_route-off method path h engine off = rw off refl

-- A panic with its reason, or what the call leaves.
abbrev pub AddsOrPanics : Bytes → Bytes → List ℕ → Engine → Option Engine → Type 0
AddsOrPanics method path h engine r =
    ((r ≡ none)
      × (((starts_with_slash path && some_method method && any_handler h && check_path_valid path)
            ≡ false)
          ⊎ Registered (shape_of path) (method_routes (get engine.trees method))))
    ⊎ ((engine' : Engine) × (r ≡ some engine') × AddedTo method path h engine engine')

-- What the list of routers has to do for the rest.
abbrev Holds : Bytes → Engine → MethodTrees → Tree → Type 0
Holds method engine trees root' =
    HaveTrees (set_root trees method root')
    × (get (set_root trees method root') method ≡ some root')
    × ((m : Bytes) → m ≢ method → get (set_root trees method root') m ≡ get engine.trees m)

invalid_guards :
    (a b c d : Bool) → (a && b && c) ≡ true → (d && c) ≡ false → (a && b && c && d) ≡ false
invalid_guards a b c d on invalid = ground arith

adds_or_panics :
    (method path : Bytes) (h : List ℕ) (engine : Engine) (trees : MethodTrees) (root : Tree)
    → guards method path h ≡ true
    → IsRouter root
    → routes false root ≡ method_routes (get engine.trees method)
    → ((root' : Tree) → IsTree root' → Holds method engine trees root')
    → AddsOrPanics method path h engine (add_route path h root >>= finish method path engine trees)
adds_or_panics method path h engine trees root on router same holds =
    let go : Tree → Option Engine = finish method path engine trees in
    elim (add_route_lem path h root router) [
      | inl (invalid, panics) ↦ inl (
        ap (λ r. r >>= go) panics,
        inl (
            invalid_guards (starts_with_slash path) (some_method method) (any_handler h)
              (check_path_valid path) on invalid),
      )
      | inr (valid, added) ↦ elim (Option-cases (add_route path h root)) [
        | inl panics ↦ inl (
          ap (λ r. r >>= go) panics,
          inr (
              subst (Registered (shape_of path)) same
                (subst (Added (shape_of path) (entry_for path h) root) panics added)),
        )
        | inr (root', adds) ↦
            let (tree, inserted) =
              subst (Added (shape_of path) (entry_for path h) root) adds added in
            let (have, got, others) = holds root' tree in
            let r : Route = (shape_of path, entry_for path h) in
            let (count, most) = larger_lem (count_params path) engine.max_params in
            inr (
              record {
                trees = set_root trees method root';
                max_params = larger (count_params path) engine.max_params;
              },
              ap (λ x. x >>= go) adds,
              (
                have,
                subst (λ t. Inserted r (method_routes (get engine.trees method)) (method_routes t))
                    (sym got) (subst (λ xs. Inserted r xs (routes false root')) same inserted),
                others,
                count,
                most,
              ),
            )
      ]
    ]

new_routes : routes false new_root ≡ []
unfolding routes
new_routes = refl

-- Where every router of the engine has a well-formed tree, `addRoute` panics only for a path without a
-- slash at its start, an empty method, no handler, a path that `checkPathValid` refuses, or a route of
-- the same shape for the method. Else the trees are well-formed again, the router of the method has its
-- routes and the new one, the routers of other methods stay, and `maxParams` is as large as before and
-- as the number of wildcards of the path in 16 bits.
pub engine_add_route_lem :
    (method path : Bytes) (h : List ℕ) (engine : Engine)
    → HaveTrees engine.trees
    → AddsOrPanics method path h engine (engine_add_route method path h engine)
engine_add_route_lem method path h engine have =
    let goal : Option Engine → Type 0 = AddsOrPanics method path h engine in
    elim (Bool-cases (guards method path h)) [
      | inr off ↦ inl (
        engine_add_route-off method path h engine off,
        inl (ap (λ b. b && check_path_valid path) off),
      )
      | inl on ↦ elim (Option-cases (get engine.trees method)) [
        | inl none_has ↦ subst goal (sym (engine_add_route-new method path h engine on none_has)) (
            adds_or_panics method path h engine (engine.trees ++ (method, new_root) ∷ []) new_root
              on (inl refl) (new_routes ∙ sym (ap method_routes none_has))
              (λ root' tree.
                let eq = sym (set_root-concat engine.trees method new_root root' none_has) in
                (
                  subst HaveTrees eq (
                      All-append (λ router. IsTree router.1) engine.trees ((method, root') ∷ [])
                        have (tree, tt)),
                  get-set_root (engine.trees ++ (method, new_root) ∷ []) method new_root root'
                      (get-concat engine.trees method new_root none_has),
                  λ m other.
                      get-set_root_other (engine.trees ++ (method, new_root) ∷ []) method m root'
                        other
                      ∙ get-concat_other engine.trees method m new_root other,
                )))
        | inr (root, has) ↦
            subst goal (sym (engine_add_route-old method path h engine root on has)) (
              adds_or_panics method path h engine engine.trees root on
                (inr (get-HaveTrees engine.trees method root have has)) (sym (ap method_routes has))
                (λ root' tree. (
                  set_root-HaveTrees engine.trees method root' have tree,
                  get-set_root engine.trees method root root' has,
                  λ m other. get-set_root_other engine.trees method m root' other,
                )))
      ]
    ]
