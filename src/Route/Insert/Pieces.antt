-- ===== src/Route/Insert/Pieces.antt =====
-- `insert` of pkg/route/tree.go for a path that goes on one piece after the end of a node.
use mathlib.Core.List.{cons-ne-nil}
use hertz_study.Base.{
  ◌≡◌, ◌≢◌, refl, sym, ap, subst, ◌∙◌, inl, inr, ℕ, suc, ◌+◌, true, false, [], ◌∷◌, ◌++◌, none,
  some, ◌>>=◌, Bytes, length, ◌==◌, ==_iff, if◌then◌else◌, Bool-cases, append-nil, arith, All,
}
use hertz_study.Route.Tree.{
  Kind, Kind.skind, Kind.pkind, Kind.akind, param_label, any_label, Entry, is_set, Tree,
  Tree.absent, Tree.node, is_present, find_child,
}
use hertz_study.Route.Formed.{IsLiteral, HasNames, Formed}
use hertz_study.Route.Routes.{own_route, routes, inner_routes}
use hertz_study.Route.Routes.Names.{wildcards, wildcards_literals}
use hertz_study.Route.Insert.{Way.to_param, Way.to_any, Way.to_none, find_child_with_label, insert}
use hertz_study.Route.Insert.Equations.{insert_way, insert_same}
use hertz_study.Route.Insert.Grows.{Registered-left}
use hertz_study.Route.Insert.Outcome.{
  GrowsHere, GrowsHere-param, GrowsHere-set, set_entry-taken, routes-Taken,
}
use hertz_study.Route.Insert.Children.{GrowsHere-new_param, GrowsHere-new_any}
use hertz_study.Route.Insert.Literal.{GrowsHere-literal, kids_literal}

-- What a path goes on with, for the kind of the node that `insert` makes for it.
abbrev pub IsPiece : Kind → Bytes → Entry → Type 0
IsPiece skind y h = (y ≢ []) × All IsLiteral y
IsPiece pkind y h = y ≡ param_label ∷ []
IsPiece akind y h = (y ≡ any_label ∷ []) × (is_set h ≡ true)

-- The entry has a name for each wildcard of the path, `n` of them above.
abbrev pub NamesFor : ℕ → Bytes → Entry → Type 0
NamesFor n s h = is_set h ≡ true → length h.pnames ≡ n + wildcards s

pub wildcard_child :
    (n c : ℕ) (kids : Tree) → (IsLiteral c → ⊥) → Formed n skind kids → find_child c kids ≡ absent
unfolding Formed find_child
wildcard_child n c absent wild formed = refl
wildcard_child n c (node k [] e kids pc ac next) wild
      (same, (some_byte, literals), names, own, fk, fp, fa, fn) =
    absurd (some_byte refl)
wildcard_child n c (node k (x ∷ p) e kids pc ac next) wild
      (same, (some_byte, literals), names, own, fk, fp, fa, fn) =
    elim (Bool-cases (x == c)) [
      | inl is ↦ absurd (wild (subst IsLiteral ((==_iff x c).0 is) literals.0))
      | inr off ↦
          ap (λ b. if b then node k (x ∷ p) e kids pc ac next else find_child c next) off
          ∙ wildcard_child n c next wild fn
    ]

pub not_literal_param : IsLiteral param_label → ⊥
not_literal_param (a, b) = ground arith

not_literal_any : IsLiteral any_label → ⊥
not_literal_any (a, b) = ground arith

pub way_param :
    (kids pc ac : Tree)
    → find_child param_label kids ≡ absent
    → find_child_with_label param_label kids pc ac ≡ (if is_present pc then to_param else to_none)
way_param kids pc ac h = rw h refl

way_any :
    (kids pc ac : Tree)
    → find_child any_label kids ≡ absent
    → find_child_with_label any_label kids pc ac ≡ (if is_present ac then to_any else to_none)
way_any kids pc ac h = rw h refl

-- A parameter after the end of a node.
param_piece :
    (n : ℕ) (want k : Kind) (p : Bytes) (e h : Entry) (kids pc ac next : Tree)
    → p ≢ []
    → Formed n want (node k p e kids pc ac next)
    → HasNames (suc n) h
    → GrowsHere n want
        (node k p e kids pc ac next)
        pkind
        (p ++ param_label ∷ [])
        h
        (insert false pkind (p ++ param_label ∷ []) h (node k p e kids pc ac next))
unfolding Formed
param_piece n want k p e h kids absent ac next some_byte formed named =
    let (same, pre, names, own, fk, fp, fa, fn) = formed in
    let t = node k p e kids absent ac next in
    let way = way_param kids absent ac (wildcard_child n param_label kids not_literal_param fk) in
    subst (GrowsHere n want t pkind (p ++ param_label ∷ []) h)
      (sym (insert_way pkind k p e h kids absent ac next param_label [] to_none some_byte way))
      (GrowsHere-new_param n want k p e h kids ac next formed named)
param_piece n want k p e h kids (node k' p' e' kids' pc' ac' next') ac next some_byte formed named =
    let (same, pre, names, own, fk, fp, fa, fn) = formed in
    let (same', pre', names', own', fk', fp', fa', fn') = fp in
    let pc = node k' p' e' kids' pc' ac' next' in
    let t = node k p e kids pc ac next in
    let s = param_label ∷ [] in
    let way = way_param kids pc ac (wildcard_child n param_label kids not_literal_param fk) in
    let some_prefix : p' ≢ [] = λ h. cons-ne-nil param_label [] (sym pre' ∙ h) in
    let at_pc : GrowsHere (suc n) pkind pc pkind s h (insert false pkind s h pc) =
      subst (λ q. GrowsHere (suc n) pkind pc pkind q h (insert false pkind q h pc)) pre'
        (subst (GrowsHere (suc n) pkind pc pkind p' h)
          (sym (insert_same pkind k' p' e' h kids' pc' ac' next' some_prefix))
          (GrowsHere-set (suc n) pkind k' pkind p' e' h kids' pc' ac' next' fp named)) in
    subst (GrowsHere n want t pkind (p ++ s) h)
      (sym (insert_way pkind k p e h kids pc ac next param_label [] to_param some_byte way))
      (GrowsHere-param n want k pkind p s e h kids pc ac next _ formed at_pc)

-- The rest of the path after the end of a node.
any_piece :
    (n : ℕ) (want k : Kind) (p : Bytes) (e h : Entry) (kids pc ac next : Tree)
    → p ≢ []
    → Formed n want (node k p e kids pc ac next)
    → is_set h ≡ true
    → length h.pnames ≡ suc n
    → GrowsHere n want
        (node k p e kids pc ac next)
        akind
        (p ++ any_label ∷ [])
        h
        (insert false akind (p ++ any_label ∷ []) h (node k p e kids pc ac next))
unfolding Formed inner_routes
any_piece n want k p e h kids pc absent next some_byte formed is named =
    let (same, pre, names, own, fk, fp, fa, fn) = formed in
    let t = node k p e kids pc absent next in
    let way = way_any kids pc absent (wildcard_child n any_label kids not_literal_any fk) in
    subst (GrowsHere n want t akind (p ++ any_label ∷ []) h)
      (sym (insert_way akind k p e h kids pc absent next any_label [] to_none some_byte way))
      (GrowsHere-new_any n want k p e h kids pc next formed is named)
any_piece n want k p e h kids pc (node k' p' e' kids' pc' ac' next') next some_byte formed is
      named =
    let (same, pre, names, own, fk, fp, (pre', is', named'), fn) = formed in
    let ac = node k' p' e' kids' pc' ac' next' in
    let t = node k p e kids pc ac next in
    let s = any_label ∷ [] in
    let way = way_any kids pc ac (wildcard_child n any_label kids not_literal_any fk) in
    let some_prefix : p' ≢ [] = λ h. cons-ne-nil any_label [] (sym pre' ∙ h) in
    let taken : insert false akind s h ac ≡ none =
      subst (λ q. insert false akind q h ac ≡ none) pre'
        (insert_same akind k' p' e' h kids' pc' ac' next' some_prefix
          ∙ set_entry-taken k' p' e' h kids' pc' ac' next' is' is) in
    subst (GrowsHere n want t akind (p ++ s) h)
      (sym (
        insert_way akind k p e h kids pc ac next any_label [] to_any some_byte way
        ∙ ap (λ r. r >>= λ x. some (node k p e kids pc x next)) taken))
      (routes-Taken k p e h kids pc ac next s (
        is,
        Registered-left s (own_route e) _ (
            Registered-left s (routes true kids) _ (
              Registered-left s (routes false pc) _
                (e', [], ([], [], refl, ap (λ q. (q, e') ∷ []) pre')))),
      ))

-- Any piece after the end of a node.
pub GrowsHere-piece :
    (n : ℕ) (want k t : Kind) (p y : Bytes) (e h : Entry) (kids pc ac next : Tree)
    → p ≢ []
    → Formed n want (node k p e kids pc ac next)
    → IsPiece t y h
    → NamesFor n y h
    → GrowsHere n want
        (node k p e kids pc ac next)
        t
        (p ++ y)
        h
        (insert false t (p ++ y) h (node k p e kids pc ac next))
unfolding Formed wildcards
GrowsHere-piece n want k skind p [] e h kids pc ac next some_byte formed (some_y, literals) named =
    absurd (some_y refl)
GrowsHere-piece n want k skind p (l ∷ y) e h kids pc ac next some_byte formed (some_y, literals)
      named =
    let (same, pre, names, own, fk, fp, fa, fn) = formed in
    let none_more : wildcards ((l ∷ y) ++ []) ≡ 0 = wildcards_literals (l ∷ y) [] literals in
    let count : wildcards (l ∷ y) ≡ 0 = ap wildcards (sym (append-nil (l ∷ y))) ∙ none_more in
    let named' : HasNames n h = λ is. omega (arith, named is, count) in
    GrowsHere-literal n want k p e h kids pc ac next l y some_byte formed literals named'
      (kids_literal n kids h fk named')
GrowsHere-piece n want k pkind p y e h kids pc ac next some_byte formed is_param named =
    subst
      (λ q.
        GrowsHere n want (node k p e kids pc ac next) pkind (p ++ q) h
          (insert false pkind (p ++ q) h (node k p e kids pc ac next)))
      (sym is_param)
      (param_piece n want k p e h kids pc ac next some_byte formed (λ is.
        let count : wildcards y ≡ 1 = ap wildcards is_param in omega (arith, named is, count)))
GrowsHere-piece n want k akind p y e h kids pc ac next some_byte formed (is_any, is) named =
    subst
      (λ q.
        GrowsHere n want (node k p e kids pc ac next) akind (p ++ q) h
          (insert false akind (p ++ q) h (node k p e kids pc ac next)))
      (sym is_any)
      (any_piece n want k p e h kids pc ac next some_byte formed is
        (let count : wildcards y ≡ 1 = ap wildcards is_any in omega (arith, named is, count)))
