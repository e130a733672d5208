-- ===== src/Route/Routes/Parts.antt =====
-- What the parts of a node of a well-formed tree find, by the recursive search and by their routes.
use hertz_study.Base.{
  ◌≡◌, refl, sym, ap, subst, ◌∙◌, ap₂, inl, inr, ℕ, Bool, true, false, ◌&&◌, List, [], ◌∷◌, ◌++◌,
  none, some, map, Bytes, length, drop, ◌==◌, if◌then◌else◌, Bool-cases, arith, append-nil,
}
use hertz_study.Route.Tree.{
  Kind, Kind.skind, Kind.pkind, Kind.akind, param_label, any_label, Entry, is_set, Tree,
  Tree.absent, Tree.node, label_of, find_child, is_present,
}
use hertz_study.Route.Text.{starts_with, until_slash, from_slash}
use hertz_study.Route.Formed.{HasPrefix, AnyFormed, Formed}
use hertz_study.Route.Seek.{try_param, try_any, seek}
use hertz_study.Route.Routes.{
  Route, Hit, with_values, or_hit, hit_or, prepend, own_route, any_route, routes, inner_routes,
  match_shape, first_match,
}
use hertz_study.Route.Routes.Laws.{
  first_match-append, first_match_static, first_match_param, first_match_param_empty,
  with_values_append,
}

pub own_unset : (e : Entry) (rs : List Route) → is_set e ≡ false → own_route e ++ rs ≡ rs
own_unset e rs is_not = rw is_not refl

pub or_hit-none : (x : Hit) → or_hit x none ≡ x
or_hit-none none = refl
or_hit-none (some y) = refl

node_is_present :
    (k : Kind) (p : Bytes) (e : Entry) (kids pc ac next : Tree)
    → node k p e kids pc ac next ≡ absent
    → ⊥
node_is_present k p e kids pc ac next h = ground (arith, ap is_present h)

-- The routes that a search of a tree of a kind goes through.
abbrev pub sought : Bool → Kind → Tree → List Route
sought among skind t = routes among t
sought among pkind t = inner_routes t
sought among akind t = []

module _ (value_of : Bytes → Bytes) where
  -- What the search of a tree finds is what its routes give.
  abbrev pub Finds : Bool → Kind → Tree → Bytes → Type 0
  Finds among want t s =
      (vs : List Bytes) (tsr : Bool)
      → (seek value_of among t s vs tsr).0
        ≡ with_values vs (first_match value_of (sought among want t) s)

  match_rest : (s : Bytes) → match_shape value_of (any_label ∷ []) s ≡ some (value_of s ∷ [])
  unfolding match_shape
  match_rest [] = refl
  match_rest (l ∷ s) = refl

  pub any_hit :
      (ac : Tree) (n : ℕ) (s : Bytes) (vs : List Bytes) (tsr : Bool)
      → AnyFormed n ac
      → (try_any value_of ac s vs tsr).0 ≡ with_values vs (first_match value_of (any_route ac) s)
  unfolding try_any first_match
  any_hit absent n s vs tsr h = refl
  any_hit (node k p e kids pc ac next) n s vs tsr (pre, set, named) =
      let whole : match_shape value_of p s ≡ some (value_of s ∷ []) =
        ap (λ q. match_shape value_of q s) pre ∙ match_rest s in
      subst (λ o. some (e, vs ++ value_of s ∷ []) ≡ with_values vs (hit_or e o none)) (sym whole)
        refl

  param_routes :
      (pc : Tree) (n : ℕ)
      → Formed n pkind pc
      → routes false pc ≡ map (prepend (param_label ∷ [])) (inner_routes pc)
  unfolding Formed routes inner_routes
  param_routes absent n h = refl
  param_routes (node k p e kids pc ac next) n (same, pre, names, own, fk, fp, fa, fn) =
      append-nil _ ∙ ap (λ q. map (prepend q) (inner_routes (node k p e kids pc ac next))) pre

  absent_routes : (s : Bytes) → first_match value_of (routes false absent) s ≡ none
  unfolding routes first_match
  absent_routes s = refl

  pub param_hit :
      (pc : Tree) (n l : ℕ) (s : Bytes) (vs : List Bytes) (tsr : Bool)
      → Formed n pkind pc
      → Finds false pkind pc (from_slash (l ∷ s))
      → (try_param value_of pc (seek value_of false pc) (l ∷ s) vs tsr).0
        ≡ with_values vs (first_match value_of (routes false pc) (l ∷ s))
  unfolding try_param
  param_hit absent n l s vs tsr h finds = ap (with_values vs) (sym (absent_routes (l ∷ s)))
  param_hit (node k p e kids pc ac next) n l s vs tsr h finds =
      let t = node k p e kids pc ac next in
      let v = value_of (until_slash (l ∷ s)) in
      finds (vs ++ v ∷ []) _
      ∙ sym (with_values_append value_of vs (v ∷ []) _)
      ∙ ap (with_values vs) (
          sym (
            ap (λ rs. first_match value_of rs (l ∷ s)) (param_routes t n h)
            ∙ first_match_param value_of l (inner_routes t) s))

  -- No child of a list is left where the path is at its end.
  pub kids_empty :
      (kids : Tree) (n : ℕ)
      → Formed n skind kids
      → first_match value_of (routes true kids) [] ≡ none
  unfolding Formed routes inner_routes first_match starts_with
  kids_empty absent n h = refl
  kids_empty (node k [] e kids pc ac next) n
        (same, (nonempty, literals), names, own, fk, fp, fa, fn) =
      absurd (nonempty refl)
  kids_empty (node k (x ∷ p) e kids pc ac next) n
        (same, (nonempty, literals), names, own, fk, fp, fa, fn) =
      let rs = inner_routes (node k (x ∷ p) e kids pc ac next) in
      first_match-append value_of _ (routes true next) []
      ∙ ap₂ or_hit (first_match_static value_of (x ∷ p) _ [] literals) (kids_empty next n fn)

  pub other_label :
      (p : Bytes) (rs : List Route) (l : ℕ) (s : Bytes)
      → HasPrefix skind p
      → (label_of p == l) ≡ false
      → first_match value_of (map (prepend p) rs) (l ∷ s) ≡ none
  unfolding starts_with
  other_label [] rs l s (nonempty, literals) off = absurd (nonempty refl)
  other_label (x ∷ p) rs l s (nonempty, literals) off =
      let off' : (x == l && starts_with p s) ≡ false = ap (λ b. b && starts_with p s) off in
      first_match_static value_of (x ∷ p) rs (l ∷ s) literals
      ∙ ap (λ b. if b then first_match value_of rs (drop (length p) s) else none) off'

  -- Nor one whose label is another byte than the next one.
  pub kids_other :
      (kids : Tree) (n l : ℕ) (s : Bytes)
      → Formed n skind kids
      → find_child l kids ≡ absent
      → first_match value_of (routes true kids) (l ∷ s) ≡ none
  unfolding Formed routes inner_routes first_match find_child
  kids_other absent n l s h other = refl
  kids_other (node k p e kids pc ac next) n l s (same, pre, names, own, fk, fp, fa, fn) other =
      let t = node k p e kids pc ac next in
      let rest = find_child l next in
      elim (Bool-cases (label_of p == l)) [
        | inl is ↦ absurd (
            node_is_present k p e kids pc ac next
              (sym (ap (λ b. if b then t else rest) is) ∙ other))
        | inr is_not ↦
            let there =
              kids_other next n l s fn (sym (ap (λ b. if b then t else rest) is_not) ∙ other) in
            first_match-append value_of (map (prepend p) (inner_routes t)) (routes true next)
              (l ∷ s)
            ∙ ap₂ or_hit (other_label p (inner_routes t) l s pre is_not) there
      ]

  pub own_match :
      (e : Entry) (rs : List Route)
      → is_set e ≡ true
      → first_match value_of (own_route e ++ rs) [] ≡ some (e, [])
  unfolding first_match match_shape
  own_match e rs is = rw is refl

  pub own_other :
      (e : Entry) (rs : List Route) (l : ℕ) (s : Bytes)
      → first_match value_of (own_route e ++ rs) (l ∷ s) ≡ first_match value_of rs (l ∷ s)
  unfolding first_match match_shape
  own_other e rs l s = elim (Bool-cases (is_set e)) [
    | inl is ↦ rw is refl
    | inr is_not ↦ rw is_not refl
  ]

  pub param_empty :
      (pc : Tree) (n : ℕ) → Formed n pkind pc → first_match value_of (routes false pc) [] ≡ none
  param_empty pc n h =
      ap (λ rs. first_match value_of rs []) (param_routes pc n h)
      ∙ first_match_param_empty value_of (inner_routes pc)
