-- ===== src/Route/Insert/Siblings.antt =====
-- `insert` of pkg/route/tree.go among the children of a node.
use hertz_study.Base.{
  ◌≡◌, ap, ◌∙◌, inl, inr, ℕ, true, false, Option, none, some, Bytes, ◌==◌, if◌then◌else◌,
}
use hertz_study.Route.Tree.{
  Kind, Kind.skind, Entry, Tree, Tree.absent, Tree.node, label_of, find_child,
}
use hertz_study.Route.Formed.{Formed}
use hertz_study.Route.Routes.{routes}
use hertz_study.Route.Insert.{with_next, insert}
use hertz_study.Route.Insert.Grows.{Grown-left, Registered-left}
use hertz_study.Route.Insert.Outcome.{Boundary, Ends, Ends-map, Keeps, GrowsHere, GrowsAmong}
use hertz_study.Route.Insert.Children.{other_label}

-- At a node a boundary of the path is one among the children from the node on.
Boundary-here :
    (n : ℕ) (t : Tree) (s : Bytes) → Formed n skind t → Boundary false t s → Boundary true t s
unfolding Boundary Formed
Boundary-here n absent s formed b = b
Boundary-here n (node k p e kids pc ac next) s formed b = inl b

Ends-here :
    (n : ℕ) (k : Kind) (t : Tree) (s : Bytes)
    → Formed n skind t
    → Ends k false t s
    → Ends k true t s
Ends-here n k t s formed (inl last) = inl last
Ends-here n k t s formed (inr b) = inr (Boundary-here n t s formed b)

-- At the child with the label of the path.
pub GrowsAmong-here :
    (n : ℕ) (k t : Kind) (p s : Bytes) (e h : Entry) (kids pc ac next : Tree)
    → Formed n skind (node k p e kids pc ac next)
    → (label_of p == label_of s) ≡ true
    → GrowsHere n skind
        (node k p e kids pc ac next)
        t
        s
        h
        (insert false t s h (node k p e kids pc ac next))
    → GrowsAmong n
        (node k p e kids pc ac next)
        t
        s
        h
        (insert true t s h (node k p e kids pc ac next))
unfolding insert
GrowsAmong-here n k t p s e h kids pc ac next formed same grows = rw same (weaken _ grows)
  where
    weaken :
        (r : Option Tree)
        → GrowsHere n skind (node k p e kids pc ac next) t s h r
        → GrowsAmong n (node k p e kids pc ac next) t s h r
    weaken none taken = taken true
    weaken (some t') (formed', keeps, grown, ends, present) =
        (keeps, (formed', grown true, Ends-here n t t' s formed' ends))

Keeps-next :
    (k : Kind) (p : Bytes) (e : Entry) (kids pc ac next next' : Tree)
    → Keeps next next'
    → Keeps (node k p e kids pc ac next) (node k p e kids pc ac next')
unfolding find_child
Keeps-next k p e kids pc ac next next' keeps l none_has =
    let (off, rest) = other_label l k p e kids pc ac next none_has in
    ap (λ b. if b then node k p e kids pc ac next' else find_child l next') off ∙ keeps l rest

GrowsAmong-lift :
    (n : ℕ) (k t : Kind) (p s : Bytes) (e h : Entry) (kids pc ac next : Tree)
    → Formed n skind (node k p e kids pc ac next)
    → (label_of p == label_of s) ≡ false
    → (r : Option Tree) → GrowsAmong n next t s h r
    → GrowsAmong n (node k p e kids pc ac next) t s h (with_next k p e kids pc ac r)
unfolding routes Formed Boundary
GrowsAmong-lift n k t p s e h kids pc ac next formed off none (is, taken) =
    (is, Registered-left s _ (routes true next) taken)
GrowsAmong-lift n k t p s e h kids pc ac next formed off (some next')
      (keeps, (formed', grown, ends)) =
    let (same, pre, names, own, fk, fp, fa, fn) = formed in
    (
      Keeps-next k p e kids pc ac next next' keeps,
      (
        (same, pre, names, keeps (label_of p) own, fk, fp, fa, formed'),
        Grown-left h s _ (routes true next) (routes true next') grown,
        Ends-map ends (λ b. inr (off, b)),
      ),
    )

-- Further on.
pub GrowsAmong-next :
    (n : ℕ) (k t : Kind) (p s : Bytes) (e h : Entry) (kids pc ac next : Tree)
    → Formed n skind (node k p e kids pc ac next)
    → (label_of p == label_of s) ≡ false
    → GrowsAmong n next t s h (insert true t s h next)
    → GrowsAmong n
        (node k p e kids pc ac next)
        t
        s
        h
        (insert true t s h (node k p e kids pc ac next))
unfolding insert
GrowsAmong-next n k t p s e h kids pc ac next formed off grows =
    rw off (GrowsAmong-lift n k t p s e h kids pc ac next formed off _ grows)
