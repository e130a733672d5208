-- ===== src/Route/Routes/Names.antt =====
-- A route of a well-formed tree has a name for every value that a match gives.
use hertz_study.Base.{
  ◌≡◌, refl, sym, ap, subst, ◌∙◌, inl, inr, ℕ, suc, ◌+◌, Bool, true, false, List, [], ◌∷◌, ◌++◌,
  Option, none, some, map, Bytes, length, ◌==◌, if◌then◌else◌, Bool-cases, arith, All, All-append,
}
use hertz_study.Route.Tree.{
  Kind.skind, Kind.pkind, param_label, any_label, Entry, is_set, Tree, Tree.absent, Tree.node,
}
use hertz_study.Route.Text.{from_slash}
use hertz_study.Route.Formed.{IsLiteral, HasNames, AnyFormed, Formed}
use hertz_study.Route.Routes.{
  Route, Hit, with_value, hit_or, prepend, own_route, any_route, routes, match_shape, first_match,
}

-- The values that a shape takes.
unfoldable pub wildcards : Bytes → ℕ
wildcards [] = 0
wildcards (c ∷ shape) =
    let rest = wildcards shape in
    if c == param_label then suc rest else if c == any_label then 1 else rest

abbrev Named : ℕ → Route → Type 0
Named n (shape, e) = length e.pnames ≡ n + wildcards shape

pub wildcards_literals :
    (p shape : Bytes) → All IsLiteral p → wildcards (p ++ shape) ≡ wildcards shape
unfolding wildcards
wildcards_literals [] shape h = refl
wildcards_literals (c ∷ p) shape ((not_param, not_any), h) =
    rw (not_param, not_any) (wildcards_literals p shape h)

Named-literals :
    (n : ℕ) (p : Bytes) (rs : List Route)
    → All IsLiteral p
    → All (Named n) rs
    → All (Named n) (map (prepend p) rs)
Named-literals n p [] h g = tt
Named-literals n p ((shape, e) ∷ rs) h (named, g) =
    (omega (arith, named, wildcards_literals p shape h), Named-literals n p rs h g)

Named-param :
    (n : ℕ) (rs : List Route)
    → All (Named (suc n)) rs
    → All (Named n) (map (prepend (param_label ∷ [])) rs)
unfolding wildcards
Named-param n [] g = tt
Named-param n ((shape, e) ∷ rs) (named, g) = (omega (arith, named), Named-param n rs g)

Named-own :
    (n : ℕ) (e : Entry) → (is_set e ≡ true → length e.pnames ≡ n) → All (Named n) (own_route e)
unfolding wildcards
Named-own n e names = elim (Bool-cases (is_set e)) [
  | inl is ↦ rw is (omega (arith, names is), tt)
  | inr is_not ↦ rw is_not tt
]

Named-any : (n : ℕ) (ac : Tree) → AnyFormed n ac → All (Named n) (any_route ac)
unfolding wildcards
Named-any n absent h = tt
Named-any n (node k p e kids pc ac next) (pre, set, named) =
    let one : wildcards p ≡ 1 = ap wildcards pre in (omega (arith, named, one), tt)

All-below :
    (n : ℕ) (e : Entry) (ac : Tree) (rs qs : List Route)
    → HasNames n e
    → AnyFormed n ac
    → All (Named n) rs
    → All (Named n) qs
    → All (Named n) (own_route e ++ (rs ++ (qs ++ any_route ac)))
All-below n e ac rs qs names fa hr hq =
    All-append (Named n) (own_route e) _ (Named-own n e names)
      (All-append (Named n) rs _ hr (All-append (Named n) qs _ hq (Named-any n ac fa)))

All-among :
    (n : ℕ) (among : Bool) (mine rest : List Route)
    → All (Named n) mine
    → All (Named n) rest
    → All (Named n) (mine ++ (if among then rest else []))
All-among n true mine rest h g = All-append (Named n) mine rest h g
All-among n false mine rest h g = All-append (Named n) mine [] h tt

-- As a list of children, and as a `paramChild`.
routes-Named :
    (t : Tree) (n : ℕ)
    → (Formed n skind t → (among : Bool) → All (Named n) (routes among t))
      × (Formed (suc n) pkind t → (among : Bool) → All (Named n) (routes among t))
unfolding Formed routes
routes-Named absent n = (λ h among. tt, λ h among. tt)
routes-Named (node k p e kids pc ac next) n =
    let below : List Route =
      own_route e ++ (routes true kids ++ (routes false pc ++ any_route ac)) in
    (
      λ h among.
          let (same, (some_byte, literals), names, own, fk, fp, fa, fn) = h in
          let all =
            All-below n e ac (routes true kids) (routes false pc) names fa
              ((routes-Named kids n).0 fk true) ((routes-Named pc n).1 fp false) in
          All-among n among (map (prepend p) below) (routes true next)
            (Named-literals n p below literals all) ((routes-Named next n).0 fn true),
      λ h among.
          let (same, pre, names, own, fk, fp, fa, fn) = h in
          let all =
            All-below (suc n) e ac (routes true kids) (routes false pc) names fa
              ((routes-Named kids (suc n)).0 fk true) ((routes-Named pc (suc n)).1 fp false) in
          let mine : All (Named n) (map (prepend p) below) =
            subst (λ q. All (Named n) (map (prepend q) below)) (sym pre)
              (Named-param n below all) in
          All-among n among (map (prepend p) below) (routes true next) mine
            ((routes-Named next n).1 fn true),
    )

abbrev HasCount : ℕ → Option (List Bytes) → Type 0
HasCount n none = Unit
HasCount n (some vs) = length vs ≡ n

HasCount-with_value :
    (n : ℕ) (v : Bytes) (o : Option (List Bytes)) → HasCount n o → HasCount (suc n) (with_value v o)
HasCount-with_value n v none h = tt
HasCount-with_value n v (some vs) h = ap suc h

HasCount-if :
    (b : Bool) (n : ℕ) (o : Option (List Bytes)) → HasCount n o → HasCount n (if b then o else none)
HasCount-if true n o h = h
HasCount-if false n o h = tt

-- The names of what is found fit its values.
abbrev pub HitNamed : Hit → Type 0
HitNamed none = Unit
HitNamed (some (e, vs)) = length e.pnames ≡ length vs

HitNamed-hit_or :
    (e : Entry) (o : Option (List Bytes)) (x : Hit) (n : ℕ)
    → length e.pnames ≡ n
    → HasCount n o
    → HitNamed x
    → HitNamed (hit_or e o x)
HitNamed-hit_or e none x n named count h = h
HitNamed-hit_or e (some vs) x n named count h = named ∙ sym count

module _ (value_of : Bytes → Bytes) where
  match_shape-HasCount :
      (shape s : Bytes) → HasCount (wildcards shape) (match_shape value_of shape s)
  unfolding match_shape wildcards
  match_shape-HasCount [] [] = refl
  match_shape-HasCount [] (l ∷ s) = tt
  match_shape-HasCount (c ∷ shape) [] = elim (Bool-cases (c == any_label)) [
    | inl is ↦ let not_param : (c == param_label) ≡ false = ground arith in rw (not_param, is) refl
    | inr is_not ↦ rw is_not tt
  ]
  match_shape-HasCount (c ∷ shape) (l ∷ s) = elim (Bool-cases (c == param_label)) [
    | inl is ↦ rw is (
        HasCount-with_value (wildcards shape) _ _ (match_shape-HasCount shape (from_slash (l ∷ s))))
    | inr not_param ↦ elim (Bool-cases (c == any_label)) [
      | inl is ↦ rw (not_param, is) refl
      | inr not_any ↦
          rw (not_param, not_any)
            (HasCount-if (c == l) (wildcards shape) _ (match_shape-HasCount shape s))
    ]
  ]

  first_match-HitNamed :
      (rs : List Route) (s : Bytes) → All (Named 0) rs → HitNamed (first_match value_of rs s)
  unfolding first_match
  first_match-HitNamed [] s h = tt
  first_match-HitNamed ((shape, e) ∷ rs) s (named, h) =
      HitNamed-hit_or e (match_shape value_of shape s) (first_match value_of rs s) (wildcards shape)
        (omega (arith, named)) (match_shape-HasCount shape s) (first_match-HitNamed rs s h)

  pub routes-HitNamed :
      (t : Tree) (s : Bytes) → Formed 0 skind t → HitNamed (first_match value_of (routes false t) s)
  routes-HitNamed t s h = first_match-HitNamed (routes false t) s ((routes-Named t 0).0 h false)
