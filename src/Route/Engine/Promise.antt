-- ===== src/Route/Engine/Promise.antt =====
-- What `ServeHTTP` of pkg/route/engine.go promises. It is not in the source.
use mathlib.Core.Option.{some-injective}
use hertz_study.Base.{
  ◌≡◌, ◌≢◌, refl, sym, ap, subst, ◌∙◌, inl, inr, Bool, true, false, ◌&&◌, [], ◌∷◌, Option, none,
  some, Bytes, bytes_equal, if◌then◌else◌, Bool-cases, arith, All,
}
use hertz_study.Route.Tree.{Tree}
use hertz_study.Route.Routes.{Hit, routes, first_match}
use hertz_study.Route.AddRoute.Router.{IsTree}
use hertz_study.Route.Find.{NodeValue}
use hertz_study.Route.Find.Correct.{Answers}
use hertz_study.Route.Engine.{
  MethodTrees, get, Options, Served, Served.handled, Served.redirected_slash,
  Served.redirected_fixed, Served.bad_request, Served.method_not_allowed, Served.not_found,
  starts_with_slash,
}

abbrev pub HaveTrees : MethodTrees → Type 0
HaveTrees trees = All (λ router. IsTree router.1) trees

abbrev pub hit_in : Tree → Bytes → Hit
hit_in root path = first_match (λ part. part) (routes false root) path

abbrev pub is_hit : Hit → Bool
is_hit none = false
is_hit (some x) = true

abbrev pub hit_of : Option Tree → Bytes → Hit
hit_of none path = none
hit_of (some root) path = hit_in root path

-- The first route of the method's router that the path matches.
abbrev pub routed : MethodTrees → Bytes → Bytes → Hit
routed trees method path = hit_of (get trees method) path

-- Whether the path matches a route of a router of another method.
unfoldable pub other_hit : MethodTrees → Bytes → Bytes → Bool
other_hit [] method path = false
other_hit ((m, root) ∷ trees) method path =
    let rest = other_hit trees method path in
    if bytes_equal m method then rest else if is_hit (hit_in root path) then true else rest

-- What is promised of the answer.
abbrev pub Serves : Options → MethodTrees → Bytes → Bytes → Served → Type 0
Serves options trees method path (handled h full_path ps) =
    (v : NodeValue) × (routed trees method path ≢ none)
    × Answers (routed trees method path) v ps
    × (v.handlers ≡ h)
    × (v.full_path ≡ full_path)
Serves options trees method path redirected_slash =
    (routed trees method path ≡ none) × (options.redirect_trailing_slash ≡ true)
Serves options trees method path redirected_fixed =
    (routed trees method path ≡ none) × (options.redirect_fixed_path ≡ true)
Serves options trees method path bad_request = starts_with_slash path ≡ false
Serves options trees method path method_not_allowed =
    (routed trees method path ≡ none)
    × (options.handle_method_not_allowed ≡ true)
    × (other_hit trees method path ≡ true)
Serves options trees method path not_found =
    (routed trees method path ≡ none)
    × (options.handle_method_not_allowed ≡ true → other_hit trees method path ≡ false)

pub if_some : (b x : Bool) → (if b then some true else some x) ≡ some (if b then true else x)
if_some true x = refl
if_some false x = refl

pub both : (a b c : Bool) → (a && (b && c)) ≡ true → c ≡ true
both a b c h = ground arith

pub middle : (a b c : Bool) → (a && (b && c)) ≡ true → b ≡ true
middle a b c h = ground arith

pub some_is_not {ℓ} : {A : Type ℓ} (x : A) → some x ≡ none → ⊥
some_is_not x h = ground arith

pub get-HaveTrees :
    (trees : MethodTrees) (method : Bytes) (root : Tree)
    → HaveTrees trees
    → get trees method ≡ some root
    → IsTree root
unfolding get
get-HaveTrees [] method root have found = ground arith
get-HaveTrees ((m, root') ∷ trees) method root (tree, have) found =
    elim (Bool-cases (bytes_equal m method)) [
      | inl is ↦
          subst IsTree
            (some-injective root' root
              (sym (ap (λ b. if b then some root' else get trees method) is) ∙ found))
            tree
      | inr is_not ↦
          get-HaveTrees trees method root have
            (sym (ap (λ b. if b then some root' else get trees method) is_not) ∙ found)
    ]
