-- ===== src/Route/Find/Nodes.antt =====
-- The loop of `find` of pkg/route/tree.go, node by node, against the recursive search.
use hertz_study.Base.{
  ◌≡◌, refl, sym, ap, subst, ◌∙◌, inl, inr, ℕ, suc, ◌+◌, ◌-◌, Bool, true, false, ◌||◌, ◌&&◌, List,
  [], ◌∷◌, ◌++◌, none, some, ◌>>=◌, Bytes, length, drop, ltb, Bool-cases, arith, length-append,
}
use hertz_study.Route.Tree.{
  Kind, Kind.skind, Kind.pkind, Kind.akind, Entry, is_set, Tree, Tree.absent, Tree.node, label_of,
  find_child, slash_child,
}
use hertz_study.Route.Text.{starts_with, until_slash, from_slash, is_empty, is_only_slash}
use hertz_study.Route.Seek.{Answer, try_param, try_any, visit_rest, visit, seek}
use hertz_study.Route.Find.{
  Place.at_node, Place.at_param, Place.at_any, Step, Step.go, Step.stop, found_at, resume,
  backtrack, enter, match_children, match_node, match_param, match_any,
}
use hertz_study.Route.Find.Laws.{
  AnyShaped, at, pop-concat, last_of-concat, drop-add, drop-until_slash, set_last_named_lem, Gives,
  stop-Gives, Goes, Goes-or_else, Goes-step,
}

-- Backtracking from a node of the kind that was entered at the search `s` ends at `k`.
abbrev pub Back : Bytes → Kind → List Tree → ℕ → List Bytes → Bytes → (Bool → Step) → Type 0
Back path skind above i vs s k = (tsr : Bool) → resume at_param above s i vs tsr ≡ k tsr
Back path pkind above i vs s k =
    (t : Tree) (p s' : Bytes) (tsr : Bool) → backtrack path pkind p (at t above s' i vs tsr) ≡ k tsr
Back path akind above i vs s k = ⊥

-- The child that the search enters, if any.
abbrev choose : Bool → ℕ → Tree → Tree
choose true l t = find_child l t
choose false l t = t

abbrev arrive : (Bool → Step) → Tree → List Tree → Bytes → ℕ → List Bytes → Bool → Step
arrive k absent above s i vs tsr = k tsr
arrive k (node kd p e kids pc ac next) above s i vs tsr =
    go at_node (at (node kd p e kids pc ac next) above s i vs tsr)

backtrack_param :
    (path q s s' : Bytes) (t up : Tree) (above : List Tree) (i n : ℕ) (vs : List Bytes) (v : Bytes)
    (tsr : Bool)
    → drop i path ≡ s
    → length v ≡ n
    → backtrack path pkind q (at t (up ∷ above) s' (i + n) (vs ++ v ∷ []) tsr)
      ≡ go at_any (at up above s i vs tsr)
unfolding backtrack
backtrack_param path q s s' t up above i n vs v tsr at_s len =
    let inside : ltb (i + n) n ≡ false = ground arith in
    let back : i + n - n ≡ i = omega arith in
    rw (last_of-concat vs v, pop-concat vs v, len, inside, back, at_s)

backtrack_static :
    (path p s s' : Bytes) (t : Tree) (above : List Tree) (i : ℕ) (vs : List Bytes) (tsr : Bool)
    → drop i path ≡ s
    → backtrack path skind p (at t above s' (i + length p) vs tsr)
      ≡ resume at_param above s i vs tsr
unfolding backtrack
backtrack_static path p s s' t above i vs tsr at_s =
    let inside : ltb (i + length p) (length p) ≡ false = ground arith in
    let back : i + length p - length p ≡ i = omega arith in rw (inside, back, at_s)

module _ (value_of : Bytes → Bytes) (keeps : (v : Bytes) → length (value_of v) ≡ length v)
    (path : Bytes) where
  -- The search of a tree does what the loop does from where it enters the tree.
  abbrev pub Enters : Bool → Tree → ℕ → Kind → Type 0
  Enters among t n want =
      (above : List Tree) (s : Bytes) (i : ℕ) (vs : List Bytes) (tsr : Bool) (k : Bool → Step)
      → drop i path ≡ s
      → length vs ≡ n
      → Back path want above i vs s k
      → Goes value_of path (arrive k (choose among (label_of s) t) above s i vs tsr)
          (seek value_of among t s vs tsr) k

  -- From the label `Any`.
  any-Goes :
      (kd : Kind) (p : Bytes) (e : Entry) (kids pc ac next : Tree) (above : List Tree) (s : Bytes)
      (i : ℕ) (vs : List Bytes) (tsr : Bool) (k : Bool → Step)
      → AnyShaped (length vs) ac
      → ((tsr' : Bool)
          → backtrack path kd p (at (node kd p e kids pc ac next) above s i vs tsr') ≡ k tsr')
      → Goes value_of path
          (go at_any (at (node kd p e kids pc ac next) above s i vs tsr))
          (try_any value_of ac s vs tsr)
          k
  unfolding match_any try_any
  any-Goes kd p e kids pc absent next above s i vs tsr k shaped back =
      Goes-step value_of path at_any _ (none, tsr) k
        (λ r g. subst (λ x. Gives value_of path x r) (sym (back tsr)) g)
  any-Goes kd p e kids pc (node k' p' e' kids' pc' ac' next') next above s i vs tsr k shaped back =
      Goes-step value_of path at_any _ (some (e', vs ++ value_of s ∷ []), tsr) k
        (subst
          (λ o.
            Gives value_of path (stop (o >>= λ ws. found_at e' e'.handlers ws tsr))
              (found_at e' e'.handlers (vs ++ value_of s ∷ []) tsr))
          (sym (set_last_named_lem value_of e'.pnames vs (value_of s) shaped))
          (stop-Gives value_of path _))

  -- From the label `Param` at a path that is left.
  param-Goes :
      (p : Bytes) (kd : Kind) (e : Entry) (kids pc ac next : Tree) (above : List Tree) (l : ℕ)
      (s : Bytes) (i : ℕ) (vs : List Bytes) (tsr : Bool)
      → drop i path ≡ l ∷ s
      → Enters false pc (suc (length vs)) pkind
      → Goes value_of path
          (go at_param (at (node kd p e kids pc ac next) above (l ∷ s) i vs tsr))
          (try_param value_of pc (seek value_of false pc) (l ∷ s) vs tsr)
          (λ tsr'. go at_any (at (node kd p e kids pc ac next) above (l ∷ s) i vs tsr'))
  unfolding match_param try_param
  param-Goes p kd e kids absent ac next above l s i vs tsr at_s enters =
      Goes-step value_of path at_param _ (none, tsr)
        (λ tsr'. go at_any (at (node kd p e kids absent ac next) above (l ∷ s) i vs tsr'))
        (λ r g. g)
  param-Goes p kd e kids (node k' p' e' kids' pc' ac' next') ac next above l s i vs tsr at_s
        enters =
      let up = node kd p e kids (node k' p' e' kids' pc' ac' next') ac next in
      let v = value_of (until_slash (l ∷ s)) in
      let n = length (until_slash (l ∷ s)) in
      let read : drop (i + n) path ≡ from_slash (l ∷ s) =
        drop-add i n path ∙ ap (drop n) at_s ∙ drop-until_slash (l ∷ s) in
      Goes-step value_of path at_param _ _ _ (
        enters (up ∷ above) (from_slash (l ∷ s)) (i + n) (vs ++ v ∷ [])
          (tsr || (is_empty (from_slash (l ∷ s)) && slash_child kids'))
          (λ tsr'. go at_any (at up above (l ∷ s) i vs tsr')) read
          (omega (arith, length-append vs (v ∷ [])))
          (λ t q s' tsr'.
            backtrack_param path q (l ∷ s) s' t up above i n vs v tsr' at_s
              (keeps (until_slash (l ∷ s)))))

  enter-Goes :
      (child t : Tree) (above : List Tree) (s : Bytes) (i : ℕ) (vs : List Bytes) (tsr : Bool)
      (a : Answer)
      → Goes value_of path
          (arrive (λ x. go at_param (at t above s i vs x)) child (t ∷ above) s i vs tsr)
          a
          (λ x. go at_param (at t above s i vs x))
      → Goes value_of path
          (enter child (at t above s i vs tsr))
          a
          (λ x. go at_param (at t above s i vs x))
  unfolding enter
  enter-Goes absent t above s i vs tsr a h = h
  enter-Goes (node kd p e kids pc ac next) t above s i vs tsr a h = h

  -- From a node whose prefix is read, the path left being `s`.
  rest-Goes :
      (kd : Kind) (p : Bytes) (e : Entry) (kids pc ac next : Tree) (above : List Tree) (s : Bytes)
      (i : ℕ) (vs : List Bytes) (tsr : Bool) (k : Bool → Step)
      → drop i path ≡ s
      → AnyShaped (length vs) ac
      → Enters true kids (length vs) skind
      → Enters false pc (suc (length vs)) pkind
      → ((s' : Bytes) (tsr' : Bool)
          → backtrack path kd p (at (node kd p e kids pc ac next) above s' i vs tsr') ≡ k tsr')
      → Goes value_of path
          (match_children e kids s (at (node kd p e kids pc ac next) above s i vs tsr))
          (visit_rest value_of e kids pc ac
            (seek value_of true kids)
            (seek value_of false pc)
            s
            vs
            tsr)
          k
  unfolding match_children visit_rest
  rest-Goes kd p e kids pc ac next above [] i vs tsr k at_s any in_kids in_param back =
      let t = node kd p e kids pc ac next in
      let tsr0 = tsr || slash_child kids in
      elim (Bool-cases (is_set e)) [
        | inl is ↦ rw is (stop-Gives value_of path (found_at e e.handlers vs tsr))
        | inr not_set ↦ rw not_set (
            Goes-step value_of path at_param (at t above [] i vs tsr0)
              (try_any value_of ac [] vs tsr0) k
              (any-Goes kd p e kids pc ac next above [] i vs tsr0 k any (back [])))
      ]
  rest-Goes kd p e kids pc ac next above (l ∷ s) i vs tsr k at_s any in_kids in_param back =
      let t = node kd p e kids pc ac next in
      let tsr0 = tsr || (is_only_slash (l ∷ s) && is_set e) in
      Goes-or_else value_of path (enter (find_child l kids) (at t above (l ∷ s) i vs tsr0))
        (seek value_of true kids (l ∷ s) vs tsr0) (λ x. go at_param (at t above (l ∷ s) i vs x)) _ k
        (enter-Goes (find_child l kids) t above (l ∷ s) i vs tsr0
          (seek value_of true kids (l ∷ s) vs tsr0)
          (in_kids (t ∷ above) (l ∷ s) i vs tsr0 (λ x. go at_param (at t above (l ∷ s) i vs x)) at_s
            refl (λ tsr'. refl)))
        (λ x.
          Goes-or_else value_of path (go at_param (at t above (l ∷ s) i vs x))
            (try_param value_of pc (seek value_of false pc) (l ∷ s) vs x)
            (λ y. go at_any (at t above (l ∷ s) i vs y)) (try_any value_of ac (l ∷ s) vs) k
            (param-Goes p kd e kids pc ac next above l s i vs x at_s in_param)
            (λ y. any-Goes kd p e kids pc ac next above (l ∷ s) i vs y k any (back (l ∷ s))))

  -- From the start of the loop at a node.
  pub node-Goes :
      (kd : Kind) (p : Bytes) (e : Entry) (kids pc ac next : Tree) (above : List Tree) (s : Bytes)
      (i : ℕ) (vs : List Bytes) (tsr : Bool) (k : Bool → Step)
      → drop i path ≡ s
      → Back path kd above i vs s k
      → AnyShaped (length vs) ac
      → Enters true kids (length vs) skind
      → Enters false pc (suc (length vs)) pkind
      → Goes value_of path
          (match_node kd p e kids ac (at (node kd p e kids pc ac next) above s i vs tsr))
          (visit value_of kd p e kids pc ac
            (seek value_of true kids)
            (seek value_of false pc)
            s
            vs
            tsr)
          k
  unfolding match_node visit
  node-Goes skind p e kids pc ac next above s i vs tsr k at_s back any in_kids in_param =
      elim (Bool-cases (starts_with p s)) [
        | inl reads ↦ rw reads (
            rest-Goes skind p e kids pc ac next above (drop (length p) s) (i + length p) vs tsr k
              (drop-add i (length p) path ∙ ap (drop (length p)) at_s) any in_kids in_param
              (λ s' tsr'.
                backtrack_static path p s s' (node skind p e kids pc ac next) above i vs tsr' at_s
                ∙ back tsr'))
        | inr misses ↦ rw misses (λ r g. subst (λ x. Gives value_of path x r) (sym (back _)) g)
      ]
  node-Goes pkind p e kids pc ac next above s i vs tsr k at_s back any in_kids in_param =
      rest-Goes pkind p e kids pc ac next above s i vs tsr k at_s any in_kids in_param
        (back (node pkind p e kids pc ac next) p)
  node-Goes akind p e kids pc ac next above s i vs tsr k at_s back any in_kids in_param =
      absurd back
