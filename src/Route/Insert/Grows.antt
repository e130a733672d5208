-- ===== src/Route/Insert/Grows.antt =====
-- What registering a route does to a list of routes.
use hertz_study.Base.{
  ◌≡◌, refl, sym, ap, ◌∙◌, ◌⊎◌, inl, inr, true, false, List, [], ◌∷◌, ◌++◌, map, Bytes,
  append_assoc, append-nil, Bool-cases,
}
use hertz_study.Route.Tree.{Kind, Entry, is_set}
use hertz_study.Route.Insert.{new_leaf}
use hertz_study.Route.Routes.{Route, prepend, own_route, routes}

-- The second list is the first one with the route at some place.
abbrev pub Inserted : Route → List Route → List Route → Type 0
Inserted r xs ys = (a : List Route) × (b : List Route) × (xs ≡ a ++ b) × (ys ≡ a ++ r ∷ b)

-- A route of the shape is in the list.
abbrev pub Registered : Bytes → List Route → Type 0
Registered s ys = (e : Entry) × (xs : List Route) × Inserted (s, e) xs ys

-- An insertion without handlers changes no route.
abbrev pub Grown : Entry → Bytes → List Route → List Route → Type 0
Grown h s xs ys = ((is_set h ≡ true) × Inserted (s, h) xs ys) ⊎ ((is_set h ≡ false) × (ys ≡ xs))

Inserted-left :
    (r : Route) (zs xs ys : List Route) → Inserted r xs ys → Inserted r (zs ++ xs) (zs ++ ys)
Inserted-left r zs xs ys (a, b, before, after) = (
  zs ++ a,
  b,
  ap (◌++◌ zs) before ∙ sym (append_assoc zs a b),
  ap (◌++◌ zs) after ∙ sym (append_assoc zs a (r ∷ b)),
)

Inserted-right :
    (r : Route) (zs xs ys : List Route) → Inserted r xs ys → Inserted r (xs ++ zs) (ys ++ zs)
Inserted-right r zs xs ys (a, b, before, after) = (
  a,
  b ++ zs,
  ap (λ l. l ++ zs) before ∙ append_assoc a b zs,
  ap (λ l. l ++ zs) after ∙ append_assoc a (r ∷ b) zs,
)

map-append :
    (p : Bytes) (xs ys : List Route)
    → map (prepend p) (xs ++ ys) ≡ map (prepend p) xs ++ map (prepend p) ys
map-append p [] ys = refl
map-append p (x ∷ xs) ys = ap (◌∷◌ (prepend p x)) (map-append p xs ys)

Inserted-map :
    (p s : Bytes) (e : Entry) (xs ys : List Route)
    → Inserted (s, e) xs ys
    → Inserted (p ++ s, e) (map (prepend p) xs) (map (prepend p) ys)
Inserted-map p s e xs ys (a, b, before, after) = (
  map (prepend p) a,
  map (prepend p) b,
  ap (map (prepend p)) before ∙ map-append p a b,
  ap (map (prepend p)) after ∙ map-append p a ((s, e) ∷ b),
)

module _ (h : Entry) (s : Bytes) (zs xs ys : List Route) where
  pub Grown-left : Grown h s xs ys → Grown h s (zs ++ xs) (zs ++ ys)
  Grown-left (inl (is, g)) = inl (is, Inserted-left (s, h) zs xs ys g)
  Grown-left (inr (is_not, g)) = inr (is_not, ap (◌++◌ zs) g)

  pub Grown-right : Grown h s xs ys → Grown h s (xs ++ zs) (ys ++ zs)
  Grown-right (inl (is, g)) = inl (is, Inserted-right (s, h) zs xs ys g)
  Grown-right (inr (is_not, g)) = inr (is_not, ap (λ l. l ++ zs) g)

pub Registered-left : (s : Bytes) (zs ys : List Route) → Registered s ys → Registered s (zs ++ ys)
Registered-left s zs ys (e, xs', g) = (e, zs ++ xs', Inserted-left (s, e) zs xs' ys g)

pub Registered-right : (s : Bytes) (zs ys : List Route) → Registered s ys → Registered s (ys ++ zs)
Registered-right s zs ys (e, xs', g) = (e, xs' ++ zs, Inserted-right (s, e) zs xs' ys g)

pub Grown-map :
    (h : Entry) (p s : Bytes) (xs ys : List Route)
    → Grown h s xs ys
    → Grown h (p ++ s) (map (prepend p) xs) (map (prepend p) ys)
Grown-map h p s xs ys (inl (is, g)) = inl (is, Inserted-map p s h xs ys g)
Grown-map h p s xs ys (inr (is_not, g)) = inr (is_not, ap (map (prepend p)) g)

pub Registered-map :
    (p s : Bytes) (ys : List Route) → Registered s ys → Registered (p ++ s) (map (prepend p) ys)
Registered-map p s ys (e, xs', g) = (e, map (prepend p) xs', Inserted-map p s e xs' ys g)

-- The entry of a node that had none.
pub Grown-own :
    (h e : Entry) (rs : List Route)
    → is_set e ≡ false
    → Grown h [] (own_route e ++ rs) (own_route h ++ rs)
Grown-own h e rs off = elim (Bool-cases (is_set h)) [
  | inl is ↦ inl (is, ([], rs, rw off refl, rw is refl))
  | inr is_not ↦ inr (is_not, rw (off, is_not) refl)
]

pub Registered-own :
    (e : Entry) (rs : List Route) → is_set e ≡ true → Registered [] (own_route e ++ rs)
Registered-own e rs is = rw is (e, rs, ([], rs, refl, refl))

pub Grown-leaf : (h : Entry) (k : Kind) (s : Bytes) → Grown h s [] (routes false (new_leaf k s h))
unfolding routes
Grown-leaf h k s = elim (Bool-cases (is_set h)) [
  | inl is ↦ inl (is, ([], [], refl, rw is (ap (λ q. (q, h) ∷ []) (append-nil s))))
  | inr is_not ↦ inr (is_not, rw is_not refl)
]
