-- ===== src/Route/Routes/Laws.antt =====
-- The first match in the lists of routes that a node puts together.
use hertz_study.Base.{
  ◌≡◌, refl, sym, ap, ◌∙◌, ℕ, Bool, true, false, ◌&&◌, List, [], ◌∷◌, ◌++◌, Option, none, some, map,
  Bytes, length, drop, ◌==◌, if◌then◌else◌, All, append_assoc,
}
use hertz_study.Route.Tree.{param_label, Entry}
use hertz_study.Route.Text.{starts_with, until_slash, from_slash}
use hertz_study.Route.Formed.{IsLiteral}
use hertz_study.Route.Routes.{
  Route, Hit, with_values, or_hit, with_value, hit_or, prepend, match_shape, first_match,
}

if_and {ℓ} :
    {A : Type ℓ} (a b : Bool) (x y : Option A)
    → x ≡ (if b then y else none)
    → (if a then x else none) ≡ (if a && b then y else none)
if_and true b x y h = h
if_and false b x y h = refl

if_same {ℓ} : {A : Type ℓ} (b : Bool) (n : A) → n ≡ (if b then n else n)
if_same true n = refl
if_same false n = refl

module _ (value_of : Bytes → Bytes) where
  pub first_match-append :
      (a b : List Route) (s : Bytes)
      → first_match value_of (a ++ b) s
        ≡ or_hit (first_match value_of a s) (first_match value_of b s)
  unfolding first_match
  first_match-append [] b s = refl
  first_match-append ((shape, e) ∷ a) b s =
      rw (first_match-append a b s) (hit_or_or_hit e (match_shape value_of shape s) _ _)
    where
      hit_or_or_hit :
          (e : Entry) (o : Option (List Bytes)) (x y : Hit)
          → hit_or e o (or_hit x y) ≡ or_hit (hit_or e o x) y
      hit_or_or_hit e none x y = refl
      hit_or_or_hit e (some vs) x y = refl

  match_literal :
      (c l : ℕ) (shape s : Bytes)
      → IsLiteral c
      → match_shape value_of (c ∷ shape) (l ∷ s)
        ≡ (if c == l then match_shape value_of shape s else none)
  unfolding match_shape
  match_literal c l shape s (not_param, not_any) = rw (not_param, not_any)

  match_none : (c : ℕ) (shape : Bytes) → IsLiteral c → match_shape value_of (c ∷ shape) [] ≡ none
  unfolding match_shape
  match_none c shape (not_param, not_any) = rw not_any refl

  match_literals :
      (p shape s : Bytes)
      → All IsLiteral p
      → match_shape value_of (p ++ shape) s
        ≡ (if starts_with p s then match_shape value_of shape (drop (length p) s) else none)
  unfolding starts_with
  match_literals [] shape s h = refl
  match_literals (c ∷ p) shape [] (h, hs) = match_none c (p ++ shape) h
  match_literals (c ∷ p) shape (l ∷ s) (h, hs) =
      match_literal c l (p ++ shape) s h
      ∙ if_and (c == l) (starts_with p s) _ _ (match_literals p shape s hs)

  pub first_match_static :
      (p : Bytes) (rs : List Route) (s : Bytes)
      → All IsLiteral p
      → first_match value_of (map (prepend p) rs) s
        ≡ (if starts_with p s then first_match value_of rs (drop (length p) s) else none)
  unfolding first_match
  first_match_static p [] s h = if_same (starts_with p s) none
  first_match_static p ((shape, e) ∷ rs) s h =
      rw (match_literals p shape s h, first_match_static p rs s h) (if_hit (starts_with p s) _ _ _)
    where
      if_hit :
          (b : Bool) (e : Entry) (o : Option (List Bytes)) (x : Hit)
          → hit_or e (if b then o else none) (if b then x else none)
            ≡ (if b then hit_or e o x else none)
      if_hit true e o x = refl
      if_hit false e o x = refl

  pub first_match_param :
      (l : ℕ) (rs : List Route) (s : Bytes)
      → first_match value_of (map (prepend (param_label ∷ [])) rs) (l ∷ s)
        ≡ with_values
            (value_of (until_slash (l ∷ s)) ∷ [])
            (first_match value_of rs (from_slash (l ∷ s)))
  unfolding first_match match_shape
  first_match_param l [] s = refl
  first_match_param l ((shape, e) ∷ rs) s =
      rw (first_match_param l rs s)
        (hit_with e (match_shape value_of shape (from_slash (l ∷ s))) _ _)
    where
      hit_with :
          (e : Entry) (o : Option (List Bytes)) (x : Hit) (v : Bytes)
          → hit_or e (with_value v o) (with_values (v ∷ []) x) ≡ with_values (v ∷ []) (hit_or e o x)
      hit_with e none x v = refl
      hit_with e (some vs) x v = refl

  pub first_match_param_empty :
      (rs : List Route) → first_match value_of (map (prepend (param_label ∷ [])) rs) [] ≡ none
  unfolding first_match match_shape
  first_match_param_empty [] = refl
  first_match_param_empty ((shape, e) ∷ rs) = first_match_param_empty rs

  pub with_values_append :
      (vs ws : List Bytes) (x : Hit) → with_values vs (with_values ws x) ≡ with_values (vs ++ ws) x
  with_values_append vs ws none = refl
  with_values_append vs ws (some (e, us)) = ap (λ xs. some (e, xs)) (sym (append_assoc vs ws us))

  pub with_values_or :
      (vs : List Bytes) (x y : Hit)
      → with_values vs (or_hit x y) ≡ or_hit (with_values vs x) (with_values vs y)
  with_values_or vs none y = refl
  with_values_or vs (some (e, ws)) y = refl
