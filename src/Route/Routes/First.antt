-- ===== src/Route/Routes/First.antt =====
-- The recursive search of a well-formed tree finds the first of its routes that matches.
use hertz_study.Base.{
  ◌≡◌, refl, sym, ap, subst, ◌∙◌, ap₂, inl, inr, ℕ, suc, Bool, true, false, ◌||◌, ◌&&◌, List, [],
  ◌∷◌, ◌++◌, none, some, map, Bytes, length, drop, ◌==◌, if◌then◌else◌, Bool-cases, ==_iff, All,
  append-nil,
}
use hertz_study.Route.Tree.{
  Kind, Kind.skind, Kind.pkind, Entry, is_set, Tree, Tree.absent, Tree.node, label_of, find_child,
  slash_child, is_present,
}
use hertz_study.Route.Text.{starts_with, from_slash, is_only_slash, nearly}
use hertz_study.Route.Formed.{IsLiteral, AnyFormed, Formed}
use hertz_study.Route.Seek.{Answer, or_else, try_param, try_any, visit_rest, visit, seek}
use hertz_study.Route.Routes.{
  Hit, with_values, or_hit, prepend, any_route, routes, inner_routes, first_match,
}
use hertz_study.Route.Routes.Laws.{first_match-append, first_match_static, with_values_or}
use hertz_study.Route.Routes.Parts.{
  own_unset, or_hit-none, Finds, any_hit, param_hit, kids_empty, other_label, kids_other, own_match,
  own_other, param_empty,
}

or_else-hit :
    (a : Answer) (f : Bool → Answer) (x y : Hit)
    → a.0 ≡ x
    → ((t : Bool) → (f t).0 ≡ y)
    → (or_else a f).0 ≡ or_hit x y
or_else-hit (none, t) f x y h g = subst (λ z. (f t).0 ≡ or_hit z y) h (g t)
or_else-hit (some z, t) f x y h g = subst (λ w. some z ≡ or_hit w y) h refl

module _ (value_of : Bytes → Bytes) where
  -- At a node whose prefix is read.
  end_hit :
      (k : Kind) (p : Bytes) (e : Entry) (kids pc ac next : Tree) (n : ℕ) (vs : List Bytes)
      (tsr : Bool)
      → Formed n skind kids
      → Formed (suc n) pkind pc
      → AnyFormed n ac
      → (visit_rest value_of e kids pc ac
          (seek value_of true kids)
          (seek value_of false pc)
          []
          vs
          tsr).0
        ≡ with_values vs (first_match value_of (inner_routes (node k p e kids pc ac next)) [])
  unfolding visit_rest inner_routes
  end_hit k p e kids pc ac next n vs tsr fk fp fa =
      let tsr0 = tsr || slash_child kids in
      let rs = routes true kids ++ (routes false pc ++ any_route ac) in
      elim (Bool-cases (is_set e)) [
        | inl is ↦
            ap (λ b. (if b then (some (e, vs), tsr) else try_any value_of ac [] vs tsr0).0) is
            ∙ ap (λ ws. some (e, ws)) (sym (append-nil vs))
            ∙ ap (with_values vs) (sym (own_match value_of e rs is))
        | inr is_not ↦
            ap (λ b. (if b then (some (e, vs), tsr) else try_any value_of ac [] vs tsr0).0) is_not
            ∙ any_hit value_of ac n [] vs tsr0 fa
            ∙ ap (with_values vs) (
                sym (
                  ap (λ xs. first_match value_of xs []) (own_unset e rs is_not)
                  ∙ first_match-append value_of (routes true kids) _ []
                  ∙ ap₂ or_hit (kids_empty value_of kids n fk) (
                      first_match-append value_of (routes false pc) (any_route ac) []
                      ∙ ap (λ x. or_hit x (first_match value_of (any_route ac) []))
                          (param_empty value_of pc (suc n) fp))))
      ]

  byte_hit :
      (k : Kind) (p : Bytes) (e : Entry) (kids pc ac next : Tree) (n l : ℕ) (s : Bytes)
      (vs : List Bytes) (tsr : Bool)
      → Formed (suc n) pkind pc
      → AnyFormed n ac
      → ((l : ℕ) (s' : Bytes) → Finds value_of true skind kids (l ∷ s'))
      → ((s' : Bytes) → Finds value_of false pkind pc s')
      → (visit_rest value_of e kids pc ac
          (seek value_of true kids)
          (seek value_of false pc)
          (l ∷ s)
          vs
          tsr).0
        ≡ with_values vs (first_match value_of (inner_routes (node k p e kids pc ac next)) (l ∷ s))
  unfolding visit_rest inner_routes
  byte_hit k p e kids pc ac next n l s vs tsr fp fa in_kids in_param =
      let tsr0 = tsr || (is_only_slash (l ∷ s) && is_set e) in
      or_else-hit (seek value_of true kids (l ∷ s) vs tsr0) _
        (with_values vs (first_match value_of (routes true kids) (l ∷ s)))
        (with_values vs (first_match value_of (routes false pc ++ any_route ac) (l ∷ s)))
        (in_kids l s vs tsr0)
        (λ t.
          or_else-hit (try_param value_of pc (seek value_of false pc) (l ∷ s) vs t)
            (try_any value_of ac (l ∷ s) vs)
            (with_values vs (first_match value_of (routes false pc) (l ∷ s)))
            (with_values vs (first_match value_of (any_route ac) (l ∷ s)))
            (param_hit value_of pc (suc n) l s vs t fp (in_param (from_slash (l ∷ s))))
            (λ t'. any_hit value_of ac n (l ∷ s) vs t' fa)
          ∙ sym (with_values_or value_of vs _ _)
          ∙ ap (with_values vs)
              (sym (first_match-append value_of (routes false pc) (any_route ac) (l ∷ s))))
      ∙ sym (with_values_or value_of vs _ _)
      ∙ ap (with_values vs) (
          sym (
            first_match-append value_of (routes true kids) (routes false pc ++ any_route ac)
              (l ∷ s)))
      ∙ ap (with_values vs) (sym (own_other value_of e _ l s))

  rest_hit :
      (k : Kind) (p : Bytes) (e : Entry) (kids pc ac next : Tree) (n : ℕ) (s : Bytes)
      (vs : List Bytes) (tsr : Bool)
      → Formed n skind kids
      → Formed (suc n) pkind pc
      → AnyFormed n ac
      → ((l : ℕ) (s' : Bytes) → Finds value_of true skind kids (l ∷ s'))
      → ((s' : Bytes) → Finds value_of false pkind pc s')
      → (visit_rest value_of e kids pc ac
          (seek value_of true kids)
          (seek value_of false pc)
          s
          vs
          tsr).0
        ≡ with_values vs (first_match value_of (inner_routes (node k p e kids pc ac next)) s)
  rest_hit k p e kids pc ac next n [] vs tsr fk fp fa in_kids in_param =
      end_hit k p e kids pc ac next n vs tsr fk fp fa
  rest_hit k p e kids pc ac next n (l ∷ s) vs tsr fk fp fa in_kids in_param =
      byte_hit k p e kids pc ac next n l s vs tsr fp fa in_kids in_param

  visit_hit :
      (p : Bytes) (e : Entry) (kids pc ac next : Tree) (n : ℕ) (s : Bytes) (vs : List Bytes)
      (tsr : Bool)
      → All IsLiteral p
      → Formed n skind kids
      → Formed (suc n) pkind pc
      → AnyFormed n ac
      → ((l : ℕ) (s' : Bytes) → Finds value_of true skind kids (l ∷ s'))
      → ((s' : Bytes) → Finds value_of false pkind pc s')
      → (visit value_of skind p e kids pc ac
          (seek value_of true kids)
          (seek value_of false pc)
          s
          vs
          tsr).0
        ≡ with_values vs (
            first_match value_of
              (map (prepend p) (inner_routes (node skind p e kids pc ac next)))
              s)
  unfolding visit
  visit_hit p e kids pc ac next n s vs tsr literals fk fp fa in_kids in_param =
      let static =
        first_match_static value_of p (inner_routes (node skind p e kids pc ac next)) s literals in
      let inside =
        visit_rest value_of e kids pc ac (seek value_of true kids) (seek value_of false pc)
          (drop (length p) s) vs tsr in
      let outside : Answer = (none, tsr || (nearly p s && (is_set e || is_present ac))) in
      let below =
        first_match value_of (inner_routes (node skind p e kids pc ac next)) (drop (length p) s) in
      elim (Bool-cases (starts_with p s)) [
        | inl is ↦
            ap (λ b. (if b then inside else outside).0) is
            ∙ rest_hit skind p e kids pc ac next n (drop (length p) s) vs tsr fk fp fa in_kids
                in_param
            ∙ ap (with_values vs) (sym (static ∙ ap (λ b. if b then below else none) is))
        | inr is_not ↦
            ap (λ b. (if b then inside else outside).0) is_not
            ∙ ap (with_values vs) (sym (static ∙ ap (λ b. if b then below else none) is_not))
      ]

  root_hit :
      (k : Kind) (p : Bytes) (e : Entry) (kids pc ac next : Tree) (n : ℕ)
      → Formed n skind (node k p e kids pc ac next)
      → ((l : ℕ) (s : Bytes) → Finds value_of true skind kids (l ∷ s))
      → ((s : Bytes) → Finds value_of false pkind pc s)
      → (s : Bytes) (vs : List Bytes) (tsr : Bool)
      → (seek value_of false (node k p e kids pc ac next) s vs tsr).0
        ≡ with_values vs
            (first_match value_of (map (prepend p) (inner_routes (node k p e kids pc ac next))) s)
  unfolding Formed seek inner_routes
  root_hit k p e kids pc ac next n (same, (some_byte, literals), names, own, fk, fp, fa, fn) in_kids
        in_param s vs tsr =
      ap
        (λ k'.
          (visit value_of k' p e kids pc ac (seek value_of true kids) (seek value_of false pc) s vs
            tsr).0)
        same
      ∙ visit_hit p e kids pc ac next n s vs tsr literals fk fp fa in_kids in_param

  kids_hit :
      (k : Kind) (p : Bytes) (e : Entry) (kids pc ac next : Tree) (n : ℕ)
      → Formed n skind (node k p e kids pc ac next)
      → ((l : ℕ) (s : Bytes) → Finds value_of true skind kids (l ∷ s))
      → ((s : Bytes) → Finds value_of false pkind pc s)
      → ((l : ℕ) (s : Bytes) → Finds value_of true skind next (l ∷ s))
      → (l : ℕ) (s : Bytes) → Finds value_of true skind (node k p e kids pc ac next) (l ∷ s)
  unfolding Formed seek routes inner_routes
  kids_hit k p e kids pc ac next n h in_kids in_param in_next l s vs tsr =
      let (same, pre, names, own, fk, fp, fa, fn) = h in
      let t = node k p e kids pc ac next in
      let here = seek value_of false t (l ∷ s) vs tsr in
      let there = seek value_of true next (l ∷ s) vs tsr in
      let mine = map (prepend p) (inner_routes t) in
      let both = first_match-append value_of mine (routes true next) (l ∷ s) in
      elim (Bool-cases (label_of p == l)) [
        | inl is ↦
            let same_label = (==_iff (label_of p) l).0 is in
            let others =
              kids_other value_of next n l s fn
                (ap (λ x. find_child x next) (sym same_label) ∙ own) in
            ap (λ b. (if b then here else there).0) is
            ∙ root_hit k p e kids pc ac next n h in_kids in_param (l ∷ s) vs tsr
            ∙ ap (with_values vs) (
                sym (both ∙ ap (or_hit (first_match value_of mine (l ∷ s))) others ∙ or_hit-none _))
        | inr is_not ↦
            ap (λ b. (if b then here else there).0) is_not
            ∙ in_next l s vs tsr
            ∙ ap (with_values vs) (
                sym (
                  both
                  ∙ ap (λ x. or_hit x (first_match value_of (routes true next) (l ∷ s)))
                      (other_label value_of p (inner_routes t) l s pre is_not)))
      ]

  inner_hit :
      (k : Kind) (p : Bytes) (e : Entry) (kids pc ac next : Tree) (n : ℕ)
      → Formed n pkind (node k p e kids pc ac next)
      → ((l : ℕ) (s : Bytes) → Finds value_of true skind kids (l ∷ s))
      → ((s : Bytes) → Finds value_of false pkind pc s)
      → (s : Bytes) → Finds value_of false pkind (node k p e kids pc ac next) s
  unfolding Formed seek visit
  inner_hit k p e kids pc ac next n (same, pre, names, own, fk, fp, fa, fn) in_kids in_param s vs
        tsr =
      ap
        (λ k'.
          (visit value_of k' p e kids pc ac (seek value_of true kids) (seek value_of false pc) s vs
            tsr).0)
        same
      ∙ rest_hit k p e kids pc ac next n s vs tsr fk fp fa in_kids in_param

  -- What holds of a tree as the root, as a list of children and as a `paramChild`.
  abbrev FindsAs : Tree → ℕ → Type 0
  FindsAs t n =
      (Formed n skind t → (l : ℕ) (s : Bytes) → Finds value_of true skind t (l ∷ s))
      × (Formed n pkind t → (s : Bytes) → Finds value_of false pkind t s)

  finds : (t : Tree) (n : ℕ) → FindsAs t n
  unfolding seek routes inner_routes first_match Formed
  finds absent n = (λ h l s vs tsr. refl, λ h s vs tsr. refl)
  finds (node k p e kids pc ac next) n = (
    λ h.
        let (same, pre, names, own, fk, fp, fa, fn) = h in
        kids_hit k p e kids pc ac next n h ((finds kids n).0 fk) ((finds pc (suc n)).1 fp)
          ((finds next n).0 fn),
    λ h.
        let (same, pre, names, own, fk, fp, fa, fn) = h in
        inner_hit k p e kids pc ac next n h ((finds kids n).0 fk) ((finds pc (suc n)).1 fp),
  )

  with_no_values : (x : Hit) → with_values [] x ≡ x
  with_no_values none = refl
  with_no_values (some (e, vs)) = refl

  -- The search of a well-formed tree finds what the list of its routes gives.
  pub seek-first_match :
      (t : Tree) (s : Bytes) (tsr : Bool)
      → Formed 0 skind t
      → (seek value_of false t s [] tsr).0 ≡ first_match value_of (routes false t) s
  unfolding Formed routes inner_routes seek first_match
  seek-first_match absent s tsr h = refl
  seek-first_match (node k p e kids pc ac next) s tsr h =
      let (same, pre, names, own, fk, fp, fa, fn) = h in
      let here = map (prepend p) (inner_routes (node k p e kids pc ac next)) in
      root_hit k p e kids pc ac next 0 h ((finds kids 0).0 fk) ((finds pc 1).1 fp) s [] tsr
      ∙ with_no_values (first_match value_of here s)
      ∙ ap (λ rs. first_match value_of rs s) (sym (append-nil here))
