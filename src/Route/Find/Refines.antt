-- ===== src/Route/Find/Refines.antt =====
-- `find` of pkg/route/tree.go against the recursive search of Route.Seek, for a whole tree.
use hertz_study.Base.{
  ◌≡◌, refl, sym, subst, inl, inr, ℕ, suc, ◌≤◌, Bool, true, false, List, [], none, some, Bytes,
  length, ◌==◌, Bool-cases, arith,
}
use hertz_study.Route.Tree.{
  Kind, Kind.skind, Kind.pkind, Entry, Tree, Tree.absent, Tree.node, label_of, is_present,
  find_child,
}
use hertz_study.Route.Seek.{Answer, visit, seek}
use hertz_study.Route.Find.{Place.at_node, Step, Step.go, Step.stop, nothing_found, find}
use hertz_study.Route.Find.Laws.{
  AnyShaped, Shaped, answer_value, at, Gives, stop-Gives, Goes, Goes-step,
}
use hertz_study.Route.Find.Nodes.{Back, Enters, node-Goes}

Back-subst :
    (path s : Bytes) (kd want : Kind) (above : List Tree) (i : ℕ) (vs : List Bytes)
    (k : Bool → Step)
    → kd ≡ want
    → Back path want above i vs s k
    → Back path kd above i vs s k
Back-subst path s kd want above i vs k same back =
    subst (λ w. Back path w above i vs s k) (sym same) back

module _ (value_of : Bytes → Bytes) (keeps : (v : Bytes) → length (value_of v) ≡ length v)
    (path : Bytes) where
  node-Enters :
      (kd want : Kind) (p : Bytes) (e : Entry) (kids pc ac next : Tree) (n : ℕ)
      → kd ≡ want
      → AnyShaped n ac
      → Enters value_of keeps path true kids n skind
      → Enters value_of keeps path false pc (suc n) pkind
      → Enters value_of keeps path false (node kd p e kids pc ac next) n want
  unfolding seek
  node-Enters kd want p e kids pc ac next n same any in_kids in_param above s i vs tsr k at_s len
        back =
      Goes-step value_of path at_node (at (node kd p e kids pc ac next) above s i vs tsr)
        (visit value_of kd p e kids pc ac (seek value_of true kids) (seek value_of false pc) s vs
          tsr)
        k
        (node-Goes value_of keeps path kd p e kids pc ac next above s i vs tsr k at_s
          (Back-subst path s kd want above i vs k same back)
          (subst (λ x. AnyShaped x ac) (sym len) any)
          (subst (λ x. Enters value_of keeps path true kids x skind) (sym len) in_kids)
          (subst (λ x. Enters value_of keeps path false pc (suc x) pkind) (sym len) in_param))

  enters :
      (among : Bool) (t : Tree) (n : ℕ) (want : Kind)
      → Shaped n want t
      → Enters value_of keeps path among t n want
  unfolding seek find_child Shaped
  enters false absent n want shaped above s i vs tsr k at_s len back = λ r g. g
  enters true absent n want shaped above s i vs tsr k at_s len back = λ r g. g
  enters false (node kd p e kids pc ac next) n want (same, skids, spc, sac, snext) above s i vs tsr
        k at_s len back =
      node-Enters kd want p e kids pc ac next n same sac (enters true kids n skind skids)
        (enters false pc (suc n) pkind spc) above s i vs tsr k at_s len back
  enters true (node kd p e kids pc ac next) n want (same, skids, spc, sac, snext) above s i vs tsr k
        at_s len back =
      let here =
        node-Enters kd want p e kids pc ac next n same sac (enters true kids n skind skids)
          (enters false pc (suc n) pkind spc) above s i vs tsr k at_s len back in
      let there = enters true next n want snext above s i vs tsr k at_s len back in
      elim (Bool-cases (label_of p == label_of s)) [
        | inl is ↦ rw is here
        | inr is_not ↦ rw is_not there
      ]

  Goes-answer :
      (x : Step) (a : Answer)
      → Goes value_of path x a (λ tsr. stop (nothing_found [] tsr))
      → Gives value_of path x (answer_value a)
  Goes-answer x (some (e, vs), tsr) h = h
  Goes-answer x (none, tsr) h =
      h (nothing_found [] tsr) (stop-Gives value_of path (nothing_found [] tsr))

-- The loop of `find` ends, and it computes what the search by recursion computes, the redirect for a
-- trailing slash included, where what it stores for a part of the path is as long as the part. The
-- tree has static children only, each `paramChild` and `anyChild` has the kind its name says, and an
-- `anyChild` has a name for itself and for each wildcard above it.
pub find-seek :
    (value_of : Bytes → Bytes) (root : Tree) (path : Bytes)
    → ((v : Bytes) → length (value_of v) ≡ length v)
    → Shaped 0 skind root
    → is_present root ≡ true
    → (enough : ℕ) × ((fuel : ℕ)
        → enough ≤ fuel
        → find value_of fuel root path
          ≡ some (answer_value (seek value_of false root path [] false)))
unfolding find
find-seek value_of absent path keeps shaped present = ground arith
find-seek value_of (node kd p e kids pc ac next) path keeps shaped present =
    let root = node kd p e kids pc ac next in
    Goes-answer value_of keeps path (go at_node (at root [] path 0 [] false))
      (seek value_of false root path [] false)
      (enters value_of keeps path false root 0 skind shaped [] path 0 [] false
        (λ tsr. stop (nothing_found [] tsr)) refl refl (λ tsr. refl))
