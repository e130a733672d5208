-- ===== src/Route/Insert/Literal.antt =====
-- `insert` of pkg/route/tree.go for what a path has between its wildcards.
use mathlib.Core.List.{cons-ne-nil}
use hertz_study.Base.{
  ◌≡◌, ◌≢◌, refl, sym, ap, subst, ◌∙◌, inl, inr, ℕ, true, false, [], ◌∷◌, ◌++◌, Option, Bytes, ◌==◌,
  if◌then◌else◌, Bool-cases, append-nil, arith, All,
}
use hertz_study.Route.Tree.{
  Kind, Kind.skind, Entry, Tree, Tree.absent, Tree.node, label_of, is_present, find_child,
}
use hertz_study.Route.Formed.{IsLiteral, HasNames, Formed}
use hertz_study.Route.Insert.{Way.to_children, Way.to_none, find_child_with_label, insert}
use hertz_study.Route.Insert.Equations.{
  Parts, parts, insert_way, insert_same, insert_above, insert_fork,
}
use hertz_study.Route.Insert.Outcome.{
  GrowsHere, GrowsAmong, GrowsAmong-kids, GrowsHere-kids, GrowsHere-set,
}
use hertz_study.Route.Insert.Children.{GrowsHere-static}
use hertz_study.Route.Insert.Split.{GoodHere-above, GoodHere-fork, literals-right}
use hertz_study.Route.Insert.Siblings.{GrowsAmong-here, GrowsAmong-next}

absent_of : (t : Tree) → is_present t ≡ false → t ≡ absent
absent_of absent h = refl
absent_of (node k p e kids pc ac next) h = ground arith

-- A child has the label of the path.
abbrev KidsLiteral : ℕ → Tree → Entry → Type 0
KidsLiteral n kids h =
    (s : Bytes)
    → s ≢ []
    → All IsLiteral s
    → is_present (find_child (label_of s) kids) ≡ true
    → GrowsAmong n kids skind s h (insert true skind s h kids)

pub way_children :
    (l : ℕ) (kids pc ac : Tree)
    → is_present (find_child l kids) ≡ true
    → find_child_with_label l kids pc ac ≡ to_children
way_children l kids pc ac has = rw has refl

way_none :
    (l : ℕ) (kids pc ac : Tree)
    → is_present (find_child l kids) ≡ false
    → IsLiteral l
    → find_child_with_label l kids pc ac ≡ to_none
way_none l kids pc ac has (not_param, not_any) = rw (has, not_param, not_any) refl

-- The path goes on with a literal below a node.
pub GrowsHere-literal :
    (n : ℕ) (want k : Kind) (p : Bytes) (e h : Entry) (kids pc ac next : Tree) (l : ℕ) (s : Bytes)
    → p ≢ []
    → Formed n want (node k p e kids pc ac next)
    → All IsLiteral (l ∷ s)
    → HasNames n h
    → KidsLiteral n kids h
    → GrowsHere n want
        (node k p e kids pc ac next)
        skind
        (p ++ l ∷ s)
        h
        (insert false skind (p ++ l ∷ s) h (node k p e kids pc ac next))
GrowsHere-literal n want k p e h kids pc ac next l s some_byte formed literals named in_kids =
    let t = node k p e kids pc ac next in
    let goal : Option Tree → Type 0 = GrowsHere n want t skind (p ++ l ∷ s) h in
    elim (Bool-cases (is_present (find_child l kids))) [
      | inl has ↦
          subst goal
            (sym (
              insert_way skind k p e h kids pc ac next l s to_children some_byte
                (way_children l kids pc ac has)))
            (GrowsHere-kids n want k skind p (l ∷ s) e h kids pc ac next _ formed (
              GrowsAmong-kids n kids skind (l ∷ s) h _
                (in_kids (l ∷ s) (cons-ne-nil l s) literals has)))
      | inr has_not ↦
          subst goal
            (sym (
              insert_way skind k p e h kids pc ac next l s to_none some_byte
                (way_none l kids pc ac has_not literals.0)))
            (GrowsHere-static n want k p (l ∷ s) e h kids pc ac next formed
              (cons-ne-nil l s, literals) named (absent_of _ has_not))
    ]

fork_label :
    (c : Bytes) (x y : ℕ) (s q : Bytes)
    → (x == y) ≡ false
    → c ≡ []
    → (label_of (c ++ y ∷ q) == label_of (c ++ x ∷ s)) ≡ true
    → ⊥
fork_label [] x y s q differ none_has same = ground arith
fork_label (z ∷ c) x y s q differ none_has same = cons-ne-nil z c none_has

-- At a static node that shares the first byte.
pub GrowsHere-static_path :
    (n : ℕ) (k : Kind) (p s : Bytes) (e h : Entry) (kids pc ac next : Tree)
    → s ≢ []
    → All IsLiteral s
    → (label_of p == label_of s) ≡ true
    → Formed n skind (node k p e kids pc ac next)
    → HasNames n h
    → KidsLiteral n kids h
    → Parts s p
    → GrowsHere n skind
        (node k p e kids pc ac next)
        skind
        s
        h
        (insert false skind s h (node k p e kids pc ac next))
unfolding Formed
GrowsHere-static_path n k p s e h kids pc ac next some_byte literals same formed named in_kids
      (inl ([], eq)) =
    let (is_static, (some_prefix, static), names, own, fk, fp, fa, fn) = formed in
    let t = node k p e kids pc ac next in
    subst (λ q. GrowsHere n skind t skind q h (insert false skind q h t)) (sym (eq ∙ append-nil p))
      (subst (GrowsHere n skind t skind p h)
        (sym (insert_same skind k p e h kids pc ac next some_prefix))
        (GrowsHere-set n skind k skind p e h kids pc ac next formed named))
GrowsHere-static_path n k p s e h kids pc ac next some_byte literals same formed named in_kids
      (inl (l ∷ s', eq)) =
    let (is_static, (some_prefix, static), names, own, fk, fp, fa, fn) = formed in
    let t = node k p e kids pc ac next in
    subst (λ q. GrowsHere n skind t skind q h (insert false skind q h t)) (sym eq)
      (GrowsHere-literal n skind k p e h kids pc ac next l s' some_prefix formed
        (literals-right p (l ∷ s') (subst (All IsLiteral) eq literals)) named in_kids)
GrowsHere-static_path n k p s e h kids pc ac next some_byte literals same formed named in_kids
      (inr (inl (y, q, eq))) =
    let t : Bytes → Tree = λ p'. node k p' e kids pc ac next in
    subst (λ p'. GrowsHere n skind (t p') skind s h (insert false skind s h (t p'))) (sym eq)
      (subst (GrowsHere n skind (t (s ++ y ∷ q)) skind s h)
        (sym (insert_above skind k s q y e h kids pc ac next some_byte))
        (GoodHere-above n k s q y e h kids pc ac next some_byte
          (subst (λ p'. Formed n skind (t p')) eq formed) named))
GrowsHere-static_path n k p s e h kids pc ac next some_byte literals same formed named in_kids
      (inr (inr (c, x, s', y, q, differ, eq, eq'))) =
    let t : Bytes → Tree = λ p'. node k p' e kids pc ac next in
    let common : c ≢ [] = λ none_has. fork_label c x y s' q differ none_has (
      subst (λ p'. (label_of p' == label_of (c ++ x ∷ s')) ≡ true) eq'
        (subst (λ z. (label_of p == label_of z) ≡ true) eq same)) in
    subst (λ p'. GrowsHere n skind (t p') skind s h (insert false skind s h (t p'))) (sym eq')
      (subst
        (λ z.
          GrowsHere n skind (t (c ++ y ∷ q)) skind z h (insert false skind z h (t (c ++ y ∷ q))))
        (sym eq)
        (subst (GrowsHere n skind (t (c ++ y ∷ q)) skind (c ++ x ∷ s') h)
          (sym (insert_fork skind k c s' q x y e h kids pc ac next common differ))
          (GoodHere-fork n k c s' q x y e h kids pc ac next common differ
            (literals-right c (x ∷ s') (subst (All IsLiteral) eq literals))
            (subst (λ p'. Formed n skind (t p')) eq' formed) named)))

-- Among the children of a node.
pub kids_literal :
    (n : ℕ) (kids : Tree) (h : Entry) → Formed n skind kids → HasNames n h → KidsLiteral n kids h
unfolding Formed find_child
kids_literal n absent h formed named s some_byte literals has = ground arith
kids_literal n (node k p e kids pc ac next) h formed named s some_byte literals has =
    let (same, pre, names, own, fk, fp, fa, fn) = formed in
    let t = node k p e kids pc ac next in
    elim (Bool-cases (label_of p == label_of s)) [
      | inl is ↦ GrowsAmong-here n k skind p s e h kids pc ac next formed is (
          GrowsHere-static_path n k p s e h kids pc ac next some_byte literals is formed named
            (kids_literal n kids h fk named) (parts s p))
      | inr off ↦ GrowsAmong-next n k skind p s e h kids pc ac next formed off (
          kids_literal n next h fn named s some_byte literals
            (sym (ap (λ b. is_present (if b then t else find_child (label_of s) next)) off) ∙ has))
    ]
