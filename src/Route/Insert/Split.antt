-- ===== src/Route/Insert/Split.antt =====
-- `insert` of pkg/route/tree.go where a node is split.
use mathlib.Core.List.{cons-ne-nil}
use hertz_study.Base.{
  ◌≡◌, ◌≢◌, refl, sym, ap, ap₂, subst, ◌∙◌, inl, inr, ℕ, Bool, true, false, List, [], ◌∷◌, ◌++◌,
  map, Bytes, ◌==◌, if◌then◌else◌, append-nil, append_assoc, arith, All, All-take, All-drop,
  take-length, drop-length, length,
}
use hertz_study.Route.Tree.{
  Kind, Kind.skind, Entry, no_entry, Tree, Tree.absent, Tree.node, label_of, find_child,
}
use hertz_study.Route.Formed.{IsLiteral, HasNames, Formed}
use hertz_study.Route.Routes.{Route, prepend, own_route, routes, inner_routes}
use hertz_study.Route.Insert.{new_leaf}
use hertz_study.Route.Insert.Grows.{
  Grown, Grown-left, Grown-right, Grown-map, Grown-leaf, Grown-own,
}
use hertz_study.Route.Insert.Outcome.{Boundary, GoodHere, Keeps-node}
use hertz_study.Route.Insert.Children.{leaf-Formed}

map-prepend :
    (p q : Bytes) (rs : List Route)
    → map (prepend p) (map (prepend q) rs) ≡ map (prepend (p ++ q)) rs
map-prepend p q [] = refl
map-prepend p q ((shape, e) ∷ rs) =
    ap₂ ◌∷◌ (ap (λ s. (s, e)) (sym (append_assoc p q shape))) (map-prepend p q rs)

literals-left : (s q : Bytes) → All IsLiteral (s ++ q) → All IsLiteral s
literals-left s q h =
    subst (All IsLiteral) (take-length s q) (All-take IsLiteral (length s) (s ++ q) h)

pub literals-right : (s q : Bytes) → All IsLiteral (s ++ q) → All IsLiteral q
literals-right s q h =
    subst (All IsLiteral) (drop-length s q) (All-drop IsLiteral (length s) (s ++ q) h)

pub label-append : (s q : Bytes) → s ≢ [] → label_of (s ++ q) ≡ label_of s
label-append [] q some_byte = absurd (some_byte refl)
label-append (x ∷ s) q some_byte = refl

-- The routes of a node whose prefix is cut in two.
cut_routes :
    (s q : Bytes) (k : Kind) (e : Entry) (kids pc ac next : Tree) (b : Bool)
    → map (prepend s) (map (prepend q) (inner_routes (node k q e kids pc ac next)) ++ [] ++ [])
        ++ (if b then routes true next else [])
      ≡ routes b (node k (s ++ q) e kids pc ac next)
unfolding routes inner_routes
cut_routes s q k e kids pc ac next b =
    ap (λ rs. rs ++ (if b then routes true next else []))
      (ap (map (prepend s)) (append-nil _ ∙ append-nil _) ∙ map-prepend s q _)

above-Grown :
    (s q : Bytes) (k : Kind) (e h : Entry) (kids pc ac next : Tree) (b : Bool)
    → Grown h s
        (routes b (node k (s ++ q) e kids pc ac next))
        (routes b (node skind s h (node k q e kids pc ac absent) absent absent next))
unfolding routes inner_routes
above-Grown s q k e h kids pc ac next b =
    let below = map (prepend q) (inner_routes (node k q e kids pc ac next)) ++ [] in
    let rest : List Route = if b then routes true next else [] in
    let grown =
      Grown-right h (s ++ []) rest _ _
        (Grown-map h s [] _ _ (Grown-own h no_entry (below ++ []) refl)) in
    subst
      (λ p.
        Grown h p (routes b (node k (s ++ q) e kids pc ac next))
          (map (prepend s) (own_route h ++ (below ++ [])) ++ rest))
      (append-nil s)
      (subst (λ rs. Grown h (s ++ []) rs (map (prepend s) (own_route h ++ (below ++ [])) ++ rest))
        (cut_routes s q k e kids pc ac next b) grown)

-- The path ends within the prefix.
pub GoodHere-above :
    (n : ℕ) (k : Kind) (s q : Bytes) (y : ℕ) (e h : Entry) (kids pc ac next : Tree)
    → s ≢ []
    → Formed n skind (node k (s ++ y ∷ q) e kids pc ac next)
    → HasNames n h
    → GoodHere n skind
        (node k (s ++ y ∷ q) e kids pc ac next)
        skind
        s
        h
        (node skind s h (node k (y ∷ q) e kids pc ac absent) absent absent next)
unfolding Formed Boundary find_child
GoodHere-above n k s q y e h kids pc ac next some_byte formed named =
    let (same, (some_byte', literals), names, own, fk, fp, fa, fn) = formed in
    let lower : Formed n skind (node k (y ∷ q) e kids pc ac absent) =
      (same, (cons-ne-nil y q, literals-right s (y ∷ q) literals), names, refl, fk, fp, fa, tt) in
    let own' : find_child (label_of s) next ≡ absent =
      subst (λ l. find_child l next ≡ absent) (label-append s (y ∷ q) some_byte) own in
    (
      (refl, (some_byte, literals-left s (y ∷ q) literals), named, own', lower, tt, tt, fn),
      Keeps-node k skind (s ++ y ∷ q) s e h kids pc ac (node k (y ∷ q) e kids pc ac absent) absent
          absent next (label-append s (y ∷ q) some_byte),
      above-Grown s (y ∷ q) k e h kids pc ac next,
      inr ([], sym (append-nil s), inl refl),
      refl,
    )

fork-Grown :
    (c q : Bytes) (k : Kind) (s : Bytes) (e h : Entry) (kids pc ac next : Tree) (b : Bool)
    → Grown h (c ++ s) (routes b (node k (c ++ q) e kids pc ac next)) (
        routes b
          (node skind c no_entry (node k q e kids pc ac (new_leaf skind s h)) absent absent next))
unfolding routes inner_routes
fork-Grown c q k s e h kids pc ac next b =
    let below = map (prepend q) (inner_routes (node k q e kids pc ac next)) in
    let rest : List Route = if b then routes true next else [] in
    let leaf = routes false (new_leaf skind s h) in
    let grown = Grown-right h (c ++ s) rest _ _ (
      Grown-map h c s _ _
        (Grown-right h s [] _ _ (Grown-left h s below [] leaf (Grown-leaf h skind s)))) in
    subst (λ rs. Grown h (c ++ s) rs (map (prepend c) (below ++ leaf ++ []) ++ rest))
      (cut_routes c q k e kids pc ac next b) grown

-- The path and the prefix part.
pub GoodHere-fork :
    (n : ℕ) (k : Kind) (c s q : Bytes) (x y : ℕ) (e h : Entry) (kids pc ac next : Tree)
    → c ≢ []
    → (x == y) ≡ false
    → All IsLiteral (x ∷ s)
    → Formed n skind (node k (c ++ y ∷ q) e kids pc ac next)
    → HasNames n h
    → GoodHere n skind (node k (c ++ y ∷ q) e kids pc ac next) skind (c ++ x ∷ s) h (
        node skind c no_entry
          (node k (y ∷ q) e kids pc ac (new_leaf skind (x ∷ s) h))
          absent
          absent
          next)
unfolding Formed Boundary find_child
GoodHere-fork n k c s q x y e h kids pc ac next some_byte differ path_literals formed named =
    let (same, (some_byte', literals), names, own, fk, fp, fa, fn) = formed in
    let leaf = new_leaf skind (x ∷ s) h in
    let lower : Formed n skind (node k (y ∷ q) e kids pc ac leaf) = (
      same,
      (cons-ne-nil y q, literals-right c (y ∷ q) literals),
      names,
      ap (λ b. if b then leaf else absent) differ,
      fk,
      fp,
      fa,
      leaf-Formed n skind (x ∷ s) h (cons-ne-nil x s, path_literals) named,
    ) in
    let own' : find_child (label_of c) next ≡ absent =
      subst (λ l. find_child l next ≡ absent) (label-append c (y ∷ q) some_byte) own in
    let differ' : (y == x) ≡ false = ground arith in
    (
      (
        refl,
        (some_byte, literals-left c (y ∷ q) literals),
        λ no. ground arith,
        own',
        lower,
        tt,
        tt,
        fn,
      ),
      Keeps-node k skind (c ++ y ∷ q) c e no_entry kids pc ac (node k (y ∷ q) e kids pc ac leaf)
          absent absent next (label-append c (y ∷ q) some_byte),
      fork-Grown c (y ∷ q) k (x ∷ s) e h kids pc ac next,
      inr (x ∷ s, refl, inr (inl (inr (differ', inl ([], sym (append-nil (x ∷ s)), inl refl))))),
      refl,
    )
