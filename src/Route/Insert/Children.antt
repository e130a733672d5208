-- ===== src/Route/Insert/Children.antt =====
-- `insert` of pkg/route/tree.go where a node gets a new child.
use hertz_study.Base.{
  ◌≡◌, refl, sym, ap, subst, ◌∙◌, inl, inr, ℕ, suc, true, false, [], ◌∷◌, ◌++◌, some, Bytes, ◌==◌,
  if◌then◌else◌, Bool-cases, append-nil, append_assoc, arith, length,
}
use hertz_study.Route.Tree.{
  Kind, Kind.skind, Kind.pkind, Kind.akind, param_label, any_label, Entry, is_set, Tree,
  Tree.absent, Tree.node, label_of, is_present, find_child,
}
use hertz_study.Route.Formed.{HasPrefix, HasNames, Formed}
use hertz_study.Route.Routes.{own_route, any_route, routes, inner_routes}
use hertz_study.Route.Insert.{new_leaf, append_child, add_child}
use hertz_study.Route.Insert.Grows.{Grown, Grown-left, Grown-right, Grown-leaf}
use hertz_study.Route.Insert.Outcome.{Boundary, GrowsHere, GrowsHere-kids, routes-Grown, Keeps-node}

-- The label of a path that no child has differs from that of the first child.
pub other_label :
    (l : ℕ) (k : Kind) (p : Bytes) (e : Entry) (kids pc ac next : Tree)
    → find_child l (node k p e kids pc ac next) ≡ absent
    → ((label_of p == l) ≡ false) × (find_child l next ≡ absent)
unfolding find_child
other_label l k p e kids pc ac next h =
    let t = node k p e kids pc ac next in
    let rest = find_child l next in
    elim (Bool-cases (label_of p == l)) [
      | inl is ↦
          let found : t ≡ absent = sym (ap (λ b. if b then t else rest) is) ∙ h in
          ground (arith, ap is_present found)
      | inr is_not ↦ (is_not, sym (ap (λ b. if b then t else rest) is_not) ∙ h)
    ]

find_child-append :
    (kids : Tree) (s : Bytes) (h : Entry) (l : ℕ)
    → find_child l kids ≡ absent
    → (label_of s == l) ≡ false
    → find_child l (append_child kids (new_leaf skind s h)) ≡ absent
unfolding find_child append_child
find_child-append absent s h l none_has differs =
    ap (λ b. if b then new_leaf skind s h else absent) differs
find_child-append (node k p e kids pc ac next) s h l none_has differs =
    let (off, rest) = other_label l k p e kids pc ac next none_has in
    let t = append_child next (new_leaf skind s h) in
    ap (λ b. if b then node k p e kids pc ac t else find_child l t) off
    ∙ find_child-append next s h l rest differs

pub leaf-Formed :
    (n : ℕ) (k : Kind) (s : Bytes) (h : Entry)
    → HasPrefix k s
    → HasNames n h
    → Formed n k (new_leaf k s h)
unfolding Formed find_child
leaf-Formed n k s h pre named = (refl, pre, named, refl, tt, tt, tt, tt)

append_child-Formed :
    (n : ℕ) (kids : Tree) (s : Bytes) (h : Entry)
    → HasPrefix skind s
    → HasNames n h
    → Formed n skind kids
    → find_child (label_of s) kids ≡ absent
    → Formed n skind (append_child kids (new_leaf skind s h))
unfolding Formed append_child
append_child-Formed n absent s h pre named formed none_has = leaf-Formed n skind s h pre named
append_child-Formed n (node k p e kids pc ac next) s h pre named formed none_has =
    let (same, pre', names, own, fk, fp, fa, fn) = formed in
    let (off, rest) = other_label (label_of s) k p e kids pc ac next none_has in
    let differs : (label_of s == label_of p) ≡ false = ground arith in
    (
      same,
      pre',
      names,
      find_child-append next s h (label_of p) own differs,
      fk,
      fp,
      fa,
      append_child-Formed n next s h pre named fn rest,
    )

append_child-routes :
    (kids : Tree) (s : Bytes) (h : Entry)
    → routes true (append_child kids (new_leaf skind s h))
      ≡ routes true kids ++ routes false (new_leaf skind s h)
unfolding routes append_child
append_child-routes absent s h = refl
append_child-routes (node k p e kids pc ac next) s h =
    ap (◌++◌ _) (append_child-routes next s h) ∙ sym (append_assoc _ (routes true next) _)

append_child-Boundary :
    (kids : Tree) (s : Bytes) (h : Entry)
    → find_child (label_of s) kids ≡ absent
    → Boundary true (append_child kids (new_leaf skind s h)) s
unfolding Boundary append_child
append_child-Boundary absent s h none_has = inl ([], sym (append-nil s), inl refl)
append_child-Boundary (node k p e kids pc ac next) s h none_has =
    let (off, rest) = other_label (label_of s) k p e kids pc ac next none_has in
    inr (off, append_child-Boundary next s h rest)

-- A static child.
pub GrowsHere-static :
    (n : ℕ) (want k : Kind) (p s : Bytes) (e h : Entry) (kids pc ac next : Tree)
    → Formed n want (node k p e kids pc ac next)
    → HasPrefix skind s
    → HasNames n h
    → find_child (label_of s) kids ≡ absent
    → GrowsHere n want
        (node k p e kids pc ac next)
        skind
        (p ++ s)
        h
        (some (add_child skind s h (node k p e kids pc ac next)))
unfolding Formed
GrowsHere-static n want k p s e h kids pc ac next formed pre named none_has =
    let (same, pre', names, own, fk, fp, fa, fn) = formed in
    let grown : Grown h s (routes true kids)
        (routes true (append_child kids (new_leaf skind s h))) =
      subst (λ rs. Grown h s (routes true kids) rs) (sym (append_child-routes kids s h))
        (subst (λ rs. Grown h s rs (routes true kids ++ routes false (new_leaf skind s h)))
          (append-nil (routes true kids))
          (Grown-left h s (routes true kids) _ _ (Grown-leaf h skind s))) in
    GrowsHere-kids n want k skind p s e h kids pc ac next
      (some (append_child kids (new_leaf skind s h))) formed
      (
        append_child-Formed n kids s h pre named fk none_has,
        grown,
        inr (append_child-Boundary kids s h none_has),
      )

-- A `paramChild`.
pub GrowsHere-new_param :
    (n : ℕ) (want k : Kind) (p : Bytes) (e h : Entry) (kids ac next : Tree)
    → Formed n want (node k p e kids absent ac next)
    → HasNames (suc n) h
    → GrowsHere n want
        (node k p e kids absent ac next)
        pkind
        (p ++ param_label ∷ [])
        h
        (some (add_child pkind (param_label ∷ []) h (node k p e kids absent ac next)))
unfolding Formed Boundary inner_routes routes
GrowsHere-new_param n want k p e h kids ac next formed named =
    let (same, pre', names, own, fk, fp, fa, fn) = formed in
    let s = param_label ∷ [] in
    let leaf = new_leaf pkind s h in
    (
      (same, pre', names, own, fk, leaf-Formed (suc n) pkind s h refl named, fa, fn),
      Keeps-node k k p p e e kids absent ac kids leaf ac next refl,
      routes-Grown k p e h e kids absent ac kids leaf ac next s (
          Grown-left h s (own_route e) _ _ (
            Grown-left h s (routes true kids) _ _
              (Grown-right h s (any_route ac) _ _ (Grown-leaf h pkind s)))),
      inr (s, refl, inr (inr ([], refl, inl refl))),
      refl,
    )

-- An `anyChild`.
pub GrowsHere-new_any :
    (n : ℕ) (want k : Kind) (p : Bytes) (e h : Entry) (kids pc next : Tree)
    → Formed n want (node k p e kids pc absent next)
    → is_set h ≡ true
    → length h.pnames ≡ suc n
    → GrowsHere n want
        (node k p e kids pc absent next)
        akind
        (p ++ any_label ∷ [])
        h
        (some (add_child akind (any_label ∷ []) h (node k p e kids pc absent next)))
unfolding Formed inner_routes
GrowsHere-new_any n want k p e h kids pc next formed is named =
    let (same, pre', names, own, fk, fp, fa, fn) = formed in
    let s = any_label ∷ [] in
    let leaf = new_leaf akind s h in
    (
      (same, pre', names, own, fk, fp, (refl, is, named), fn),
      Keeps-node k k p p e e kids pc absent kids pc leaf next refl,
      routes-Grown k p e h e kids pc absent kids pc leaf next s (
          Grown-left h s (own_route e) _ _ (
            Grown-left h s (routes true kids) _ _
              (Grown-left h s (routes false pc) _ _ (inl (is, ([], [], refl, refl)))))),
      inl refl,
      refl,
    )
