-- ===== src/Route/Routes/Handlers.antt =====
-- Every route of a well-formed tree has handlers, and a path that has the shape of a route finds one.
use mathlib.Core.HLevel.{⊥_prop}
use mathlib.Core.List.{Mem, not-mem-nil, eq-or-mem_of_mem-cons}
use mathlib.Core.Logic.Or
use hertz_study.Base.{
  ◌≡◌, ◌≢◌, refl, ap, ◌∙◌, inl, inr, ℕ, suc, Bool, true, false, List, [], ◌∷◌, Option, none, some,
  map, Bytes, if◌then◌else◌, Bool-cases, arith, All, All-append,
}
use hertz_study.Route.Tree.{
  Kind, Kind.skind, Kind.pkind, Entry, is_set, Tree, Tree.absent, Tree.node,
}
use hertz_study.Route.Formed.{AnyFormed, Formed}
use hertz_study.Route.Routes.{
  Route, Hit, hit_or, prepend, own_route, any_route, routes, match_shape, first_match,
}

abbrev HasHandlers : Route → Type 0
HasHandlers r = is_set r.1 ≡ true

All-prepend :
    (p : Bytes) (rs : List Route) → All HasHandlers rs → All HasHandlers (map (prepend p) rs)
All-prepend p [] h = tt
All-prepend p (r ∷ rs) (is, h) = (is, All-prepend p rs h)

All-own : (e : Entry) → All HasHandlers (own_route e)
All-own e = elim (Bool-cases (is_set e)) [ inl is ↦ rw is (is, tt) | inr is_not ↦ rw is_not tt ]

All-any : (n : ℕ) (ac : Tree) → AnyFormed n ac → All HasHandlers (any_route ac)
All-any n absent h = tt
All-any n (node k p e kids pc ac next) (pre, is, named) = (is, tt)

All-if : (b : Bool) (rs : List Route) → All HasHandlers rs → All HasHandlers (if b then rs else [])
All-if true rs h = h
All-if false rs h = tt

routes-HasHandlers :
    (among : Bool) (t : Tree) (n : ℕ) (want : Kind)
    → Formed n want t
    → All HasHandlers (routes among t)
unfolding Formed routes
routes-HasHandlers among absent n want formed = tt
routes-HasHandlers among (node k p e kids pc ac next) n want
      (same, pre, names, own, fk, fp, fa, fn) =
    let P = HasHandlers in
    let below = All-append P (own_route e) _ (All-own e) (
      All-append P (routes true kids) _ (routes-HasHandlers true kids n skind fk) (
        All-append P (routes false pc) _ (routes-HasHandlers false pc (suc n) pkind fp)
          (All-any n ac fa))) in
    All-append P (map (prepend p) _) _ (All-prepend p _ below)
      (All-if among (routes true next) (routes-HasHandlers true next n want fn))

-- What a hit has.
abbrev pub HitHasHandlers : Hit → Type 0
HitHasHandlers none = Unit
HitHasHandlers (some (e, vs)) = is_set e ≡ true

HitHasHandlers-hit_or :
    (e : Entry) (o : Option (List Bytes)) (x : Hit)
    → is_set e ≡ true
    → HitHasHandlers x
    → HitHasHandlers (hit_or e o x)
HitHasHandlers-hit_or e none x is h = h
HitHasHandlers-hit_or e (some vs) x is h = is

module _ (value_of : Bytes → Bytes) where
  first_match-HasHandlers :
      (rs : List Route) (s : Bytes)
      → All HasHandlers rs
      → HitHasHandlers (first_match value_of rs s)
  unfolding first_match
  first_match-HasHandlers [] s h = tt
  first_match-HasHandlers ((shape, e) ∷ rs) s (is, h) =
      HitHasHandlers-hit_or e (match_shape value_of shape s) _ is (first_match-HasHandlers rs s h)

  pub hit-HasHandlers :
      (t : Tree) (s : Bytes)
      → Formed 0 skind t
      → HitHasHandlers (first_match value_of (routes false t) s)
  hit-HasHandlers t s formed =
      first_match-HasHandlers (routes false t) s (routes-HasHandlers false t 0 skind formed)

  -- A route of the list that matches keeps the list from having no match.
  pub first_match-Mem :
      (rs : List Route) (shape : Bytes) (e : Entry) (s : Bytes)
      → Mem (shape, e) rs
      → match_shape value_of shape s ≢ none
      → first_match value_of rs s ≢ none
  unfolding first_match
  first_match-Mem [] shape e s mem matches no_hit = not-mem-nil mem
  first_match-Mem ((shape', e') ∷ rs) shape e s mem matches no_hit =
      let (missed, rest) = no_hit_either e' (match_shape value_of shape' s) _ no_hit in
      Or.elim ⊥_prop (eq-or-mem_of_mem-cons mem)
        (λ here. matches (ap (λ r. match_shape value_of r.0 s) here ∙ missed))
        (λ there. first_match-Mem rs shape e s there matches rest)
    where
      no_hit_either :
          (e : Entry) (o : Option (List Bytes)) (x : Hit)
          → hit_or e o x ≡ none
          → (o ≡ none) × (x ≡ none)
      no_hit_either e none x h = (refl, h)
      no_hit_either e (some vs) x h = ground arith
