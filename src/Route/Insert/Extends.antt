-- ===== src/Route/Insert/Extends.antt =====
-- `insert` of pkg/route/tree.go for a path that goes on one piece after a boundary of the tree.
use mathlib.Core.List.{cons-ne-nil}
use hertz_study.Base.{
  ◌≡◌, ◌≢◌, refl, sym, ap, subst, ◌∙◌, inl, inr, ℕ, suc, true, false, [], ◌∷◌, ◌++◌, Bytes, ◌==◌,
  ==_refl, ==_iff, if◌then◌else◌, Bool-cases, append-nil, append_assoc, arith, All,
}
use hertz_study.Route.Tree.{
  Kind, Kind.skind, Kind.pkind, param_label, Entry, Tree, Tree.absent, Tree.node, label_of,
  is_present, find_child,
}
use hertz_study.Route.Formed.{IsLiteral, Formed}
use hertz_study.Route.Routes.Names.{wildcards, wildcards_literals}
use hertz_study.Route.Insert.{
  Way.to_children, Way.to_param, Way.to_none, find_child_with_label, insert,
}
use hertz_study.Route.Insert.Equations.{insert_way}
use hertz_study.Route.Insert.Outcome.{
  BoundaryAt, Boundary, GrowsHere, GrowsAmong, GrowsAmong-kids, GrowsHere-kids, GrowsHere-param,
}
use hertz_study.Route.Insert.Split.{label-append}
use hertz_study.Route.Insert.Siblings.{GrowsAmong-here, GrowsAmong-next}
use hertz_study.Route.Insert.Literal.{way_children}
use hertz_study.Route.Insert.Pieces.{
  IsPiece, NamesFor, wildcard_child, not_literal_param, way_param, GrowsHere-piece,
}

-- A boundary among children starts with the label of one of them.
Boundary-label :
    (n : ℕ) (t : Tree) (s : Bytes)
    → Formed n skind t
    → Boundary true t s
    → (l : ℕ) × (s' : Bytes) × (s ≡ l ∷ s') × (is_present (find_child l t) ≡ true)
unfolding Formed Boundary find_child
Boundary-label n absent s formed b = absurd b
Boundary-label n (node k [] e kids pc ac next) s formed b = absurd (formed.1.0 refl)
Boundary-label n (node k (x ∷ p) e kids pc ac next) s formed (inl (s', eq, more)) =
    (x, p ++ s', eq, rw (==_refl x) refl)
Boundary-label n (node k (x ∷ p) e kids pc ac next) s formed (inr (off, b)) =
    let (same, pre, names, own, fk, fp, fa, fn) = formed in
    let (l, s', eq, has) = Boundary-label n next s fn b in
    (l, s', eq, elim (Bool-cases (x == l)) [ inl is ↦ rw is refl | inr is_not ↦ rw is_not has ])

module _ (t : Kind) (y : Bytes) (h : Entry) (piece : IsPiece t y h) where
  -- The path `x` is a boundary, and `insert` goes on with the piece.
  abbrev ExtendsKids : Tree → ℕ → Type 0
  ExtendsKids tree n =
      (x : Bytes)
      → Boundary true tree x
      → NamesFor n (x ++ y) h
      → GrowsAmong n tree t (x ++ y) h (insert true t (x ++ y) h tree)

  abbrev ExtendsParam : Tree → ℕ → Type 0
  ExtendsParam tree n =
      (x : Bytes)
      → Boundary false tree x
      → NamesFor n (x ++ y) h
      → GrowsHere (suc n) pkind tree t (x ++ y) h (insert false t (x ++ y) h tree)

  abbrev Extended : ℕ → Kind → Tree → Bytes → Type 0
  Extended n want tree s = GrowsHere n want tree t s h (insert false t s h tree)

  extends_kids :
      (n : ℕ) (want k : Kind) (p : Bytes) (e : Entry) (kids pc ac next : Tree) (l : ℕ) (s : Bytes)
      → p ≢ []
      → Formed n want (node k p e kids pc ac next)
      → is_present (find_child l kids) ≡ true
      → GrowsAmong n kids t (l ∷ s) h (insert true t (l ∷ s) h kids)
      → Extended n want (node k p e kids pc ac next) (p ++ l ∷ s)
  extends_kids n want k p e kids pc ac next l s some_byte formed has grows =
      let way = way_children l kids pc ac has in
      subst (GrowsHere n want (node k p e kids pc ac next) t (p ++ l ∷ s) h)
        (sym (insert_way t k p e h kids pc ac next l s to_children some_byte way))
        (GrowsHere-kids n want k t p (l ∷ s) e h kids pc ac next _ formed
          (GrowsAmong-kids n kids t (l ∷ s) h _ grows))

  extends_param :
      (n : ℕ) (want k : Kind) (p : Bytes) (e : Entry) (kids pc ac next : Tree) (s : Bytes)
      → p ≢ []
      → Formed n want (node k p e kids pc ac next)
      → Formed n skind kids
      → is_present pc ≡ true
      → Extended (suc n) pkind pc (param_label ∷ s)
      → Extended n want (node k p e kids pc ac next) (p ++ param_label ∷ s)
  extends_param n want k p e kids pc ac next s some_byte formed fk has grows =
      let way : find_child_with_label param_label kids pc ac ≡ to_param =
        way_param kids pc ac (wildcard_child n param_label kids not_literal_param fk)
        ∙ ap (λ b. if b then to_param else to_none) has in
      subst (GrowsHere n want (node k p e kids pc ac next) t (p ++ param_label ∷ s) h)
        (sym (insert_way t k p e h kids pc ac next param_label s to_param some_byte way))
        (GrowsHere-param n want k t p (param_label ∷ s) e h kids pc ac next _ formed grows)

  -- A boundary at or below a `paramChild`.
  param-Boundary :
      (n : ℕ) (pc : Tree) (x : Bytes)
      → Formed (suc n) pkind pc
      → Boundary false pc x
      → (s : Bytes) × (x ≡ param_label ∷ s) × (is_present pc ≡ true)
  unfolding Formed Boundary
  param-Boundary n absent x formed b = absurd b
  param-Boundary n (node k p e kids pc ac next) x formed (s, eq, more) =
      (s, eq ∙ ap (λ q. q ++ s) formed.1, refl)

  node_extends :
      (n : ℕ) (want k : Kind) (p : Bytes) (e : Entry) (kids pc ac next : Tree) (x : Bytes)
      → p ≢ []
      → Formed n want (node k p e kids pc ac next)
      → ExtendsKids kids n
      → ExtendsParam pc n
      → BoundaryAt (Boundary true kids) (Boundary false pc) p x
      → ((s : Bytes) → x ≡ p ++ s → NamesFor n (s ++ y) h)
      → Extended n want (node k p e kids pc ac next) (x ++ y)
  unfolding Formed
  node_extends n want k p e kids pc ac next x some_byte formed in_kids in_param (s, eq, inl ends)
        named =
      let at_end : x ++ y ≡ p ++ y = ap (λ q. q ++ y) (eq ∙ ap (λ q. p ++ q) ends ∙ append-nil p) in
      let named' : NamesFor n y h = subst (λ q. NamesFor n (q ++ y) h) ends (named s eq) in
      subst (Extended n want (node k p e kids pc ac next)) (sym at_end)
        (GrowsHere-piece n want k t p y e h kids pc ac next some_byte formed piece named')
  node_extends n want k p e kids pc ac next x some_byte formed in_kids in_param (s, eq, inr (inl b))
        named =
      let (same, pre, names, own, fk, fp, fa, fn) = formed in
      let (l, s', eq', has) = Boundary-label n kids s fk b in
      let whole : x ++ y ≡ p ++ l ∷ (s' ++ y) =
        ap (λ q. q ++ y) (eq ∙ ap (λ q. p ++ q) eq') ∙ append_assoc p (l ∷ s') y in
      let grows = in_kids s b (named s eq) in
      subst (Extended n want (node k p e kids pc ac next)) (sym whole) (
        extends_kids n want k p e kids pc ac next l (s' ++ y) some_byte formed has
          (subst (λ q. GrowsAmong n kids t (q ++ y) h (insert true t (q ++ y) h kids)) eq' grows))
  node_extends n want k p e kids pc ac next x some_byte formed in_kids in_param (s, eq, inr (inr b))
        named =
      let (same, pre, names, own, fk, fp, fa, fn) = formed in
      let (s', eq', has) = param-Boundary n pc s fp b in
      let whole : x ++ y ≡ p ++ param_label ∷ (s' ++ y) =
        ap (λ q. q ++ y) (eq ∙ ap (λ q. p ++ q) eq') ∙ append_assoc p (param_label ∷ s') y in
      subst (Extended n want (node k p e kids pc ac next)) (sym whole) (
        extends_param n want k p e kids pc ac next (s' ++ y) some_byte formed fk has
          (subst (λ q. Extended (suc n) pkind pc (q ++ y)) eq' (in_param s b (named s eq))))

  names_below :
      (n : ℕ) (p x s : Bytes)
      → All IsLiteral p
      → x ≡ p ++ s
      → NamesFor n (x ++ y) h
      → NamesFor n (s ++ y) h
  names_below n p x s literals eq named is =
      let whole : x ++ y ≡ p ++ (s ++ y) = ap (λ q. q ++ y) eq ∙ append_assoc p s y in
      let count : wildcards (x ++ y) ≡ wildcards (s ++ y) =
        ap wildcards whole ∙ wildcards_literals p (s ++ y) literals in
      omega (arith, named is, count)

  names_below_param :
      (n : ℕ) (x s : Bytes)
      → x ≡ param_label ∷ s
      → NamesFor n (x ++ y) h
      → NamesFor (suc n) (s ++ y) h
  unfolding wildcards
  names_below_param n x s eq named is =
      let count : wildcards (x ++ y) ≡ suc (wildcards (s ++ y)) = ap (λ q. wildcards (q ++ y)) eq in
      omega (arith, named is, count)

  same_label : (p x s : Bytes) → p ≢ [] → x ≡ p ++ s → label_of p ≡ label_of (x ++ y)
  same_label p x s some_byte eq =
      sym (label-append p (s ++ y) some_byte)
      ∙ ap label_of (sym (append_assoc p s y) ∙ ap (λ q. q ++ y) (sym eq))

  -- From the root on.
  root_extends :
      (n : ℕ) (k : Kind) (p : Bytes) (e : Entry) (kids pc ac next : Tree) (x : Bytes)
      → Formed n skind (node k p e kids pc ac next)
      → ExtendsKids kids n
      → ExtendsParam pc n
      → BoundaryAt (Boundary true kids) (Boundary false pc) p x
      → NamesFor n (x ++ y) h
      → Extended n skind (node k p e kids pc ac next) (x ++ y)
  unfolding Formed
  root_extends n k p e kids pc ac next x formed in_kids in_param here named =
      let (same, (some_byte, literals), names, own, fk, fp, fa, fn) = formed in
      node_extends n skind k p e kids pc ac next x some_byte formed in_kids in_param here
        (λ s eq. names_below n p x s literals eq named)

  kids_extend :
      (n : ℕ) (k : Kind) (p : Bytes) (e : Entry) (kids pc ac next : Tree)
      → Formed n skind (node k p e kids pc ac next)
      → ExtendsKids kids n
      → ExtendsParam pc n
      → ExtendsKids next n
      → ExtendsKids (node k p e kids pc ac next) n
  unfolding Formed Boundary
  kids_extend n k p e kids pc ac next formed in_kids in_param in_next x (inl (s, eq, more)) named =
      let (same, (some_byte, literals), names, own, fk, fp, fa, fn) = formed in
      let label : (label_of p == label_of (x ++ y)) ≡ true =
        (==_iff (label_of p) (label_of (x ++ y))).1 (same_label p x s some_byte eq) in
      GrowsAmong-here n k t p (x ++ y) e h kids pc ac next formed label
        (root_extends n k p e kids pc ac next x formed in_kids in_param (s, eq, more) named)
  kids_extend n k p e kids pc ac next formed in_kids in_param in_next x (inr (off, b)) named =
      let (same, pre, names, own, fk, fp, fa, fn) = formed in
      let (l, s, eq, has) = Boundary-label n next x fn b in
      let some_x : x ≢ [] = λ none_has. cons-ne-nil l s (sym eq ∙ none_has) in
      let off' : (label_of p == label_of (x ++ y)) ≡ false =
        ap (λ c. label_of p == c) (label-append x y some_x) ∙ off in
      GrowsAmong-next n k t p (x ++ y) e h kids pc ac next formed off' (in_next x b named)

  param_extends :
      (n : ℕ) (k : Kind) (p : Bytes) (e : Entry) (kids pc ac next : Tree)
      → Formed (suc n) pkind (node k p e kids pc ac next)
      → ExtendsKids kids (suc n)
      → ExtendsParam pc (suc n)
      → ExtendsParam (node k p e kids pc ac next) n
  unfolding Formed Boundary
  param_extends n k p e kids pc ac next formed in_kids in_param x here named =
      let (same, pre, names, own, fk, fp, fa, fn) = formed in
      let some_byte : p ≢ [] = λ none_has. cons-ne-nil param_label [] (sym pre ∙ none_has) in
      node_extends (suc n) pkind k p e kids pc ac next x some_byte formed in_kids in_param here
        (λ s eq. names_below_param n x s (eq ∙ ap (λ q. q ++ s) pre) named)

  extends :
      (tree : Tree) (n : ℕ)
      → (Formed n skind tree → ExtendsKids tree n)
        × (Formed (suc n) pkind tree → ExtendsParam tree n)
  unfolding Formed Boundary
  extends absent n = (λ formed x b. absurd b, λ formed x b. absurd b)
  extends (node k p e kids pc ac next) n = (
    λ formed.
        let (same, pre, names, own, fk, fp, fa, fn) = formed in
        kids_extend n k p e kids pc ac next formed ((extends kids n).0 fk) ((extends pc n).1 fp)
          ((extends next n).0 fn),
    λ formed.
        let (same, pre, names, own, fk, fp, fa, fn) = formed in
        param_extends n k p e kids pc ac next formed ((extends kids (suc n)).0 fk)
          ((extends pc (suc n)).1 fp),
  )

  pub GrowsHere-extends :
      (root : Tree) (x : Bytes)
      → Formed 0 skind root
      → Boundary false root x
      → NamesFor 0 (x ++ y) h
      → GrowsHere 0 skind root t (x ++ y) h (insert false t (x ++ y) h root)
  unfolding Formed Boundary
  GrowsHere-extends absent x formed b named = absurd b
  GrowsHere-extends (node k p e kids pc ac next) x formed b named =
      let (same, pre, names, own, fk, fp, fa, fn) = formed in
      root_extends 0 k p e kids pc ac next x formed ((extends kids 0).0 fk) ((extends pc 0).1 fp) b
        named
