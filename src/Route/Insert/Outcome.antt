-- ===== src/Route/Insert/Outcome.antt =====
-- What `insert` of pkg/route/tree.go has to do, at a node and among children, and how what it does
-- below a node passes on to the node.
use hertz_study.Base.{
  ◌≡◌, refl, sym, ap, subst, ◌∙◌, ◌⊎◌, inl, inr, ℕ, suc, Bool, true, false, List, [], ◌++◌, Option,
  none, some, ◌>>=◌, Bytes, ◌==◌, if◌then◌else◌, Bool-cases, append-nil, arith,
}
use hertz_study.Route.Tree.{
  Kind, Kind.skind, Kind.pkind, Kind.akind, Entry, is_set, Tree, Tree.absent, Tree.node, label_of,
  is_present, find_child,
}
use hertz_study.Route.Formed.{HasNames, Formed}
use hertz_study.Route.Routes.{Route, own_route, any_route, routes, inner_routes}
use hertz_study.Route.Insert.{set_entry}
use hertz_study.Route.Insert.Grows.{
  Registered, Grown, Grown-left, Grown-right, Grown-map, Registered-left, Registered-right,
  Registered-map, Grown-own, Registered-own,
}

abbrev pub Among : Bool → Type 0 → Type 0 → Type 0 → Type 0
Among true here off next = here ⊎ (off × next)
Among false here off next = here

-- The path is the prefix with an end or a boundary below it.
abbrev pub BoundaryAt : (Bytes → Type 0) → (Bytes → Type 0) → Bytes → Bytes → Type 0
BoundaryAt in_kids in_param p s =
    (s' : Bytes) × (s ≡ p ++ s') × ((s' ≡ []) ⊎ (in_kids s' ⊎ in_param s'))

-- A node ends where the path ends.
unfoldable pub Boundary : Bool → Tree → Bytes → Type 0
Boundary among absent s = ⊥
Boundary among (node k p e kids pc ac next) s =
    let here = BoundaryAt (Boundary true kids) (Boundary false pc) p s in
    let there = Boundary true next s in Among among here ((label_of p == label_of s) ≡ false) there

-- The labels of a list of children stay.
abbrev pub Keeps : Tree → Tree → Type 0
Keeps t t' = (l : ℕ) → find_child l t ≡ absent → find_child l t' ≡ absent

abbrev pub Outcome : Type 0 → (Tree → Type 0) → Option Tree → Type 0
Outcome bad good none = bad
Outcome bad good (some t) = good t

-- A panic is due to handlers for the path that are there.
abbrev pub Taken : Entry → Bytes → List Route → Type 0
Taken h s rs = (is_set h ≡ true) × Registered s rs

abbrev pub Ends : Kind → Bool → Tree → Bytes → Type 0
Ends k among t s = (k ≡ akind) ⊎ Boundary among t s

abbrev pub GoodHere : ℕ → Kind → Tree → Kind → Bytes → Entry → Tree → Type 0
GoodHere n want t k s h t' =
    Formed n want t'
    × Keeps t t'
    × ((b : Bool) → Grown h s (routes b t) (routes b t'))
    × Ends k false t' s
    × (is_present t' ≡ true)

-- `insert` at a node.
abbrev pub GrowsHere : ℕ → Kind → Tree → Kind → Bytes → Entry → Option Tree → Type 0
GrowsHere n want t k s h r =
    Outcome ((b : Bool) → Taken h s (routes b t)) (GoodHere n want t k s h) r

abbrev GoodKids : ℕ → Tree → Kind → Bytes → Entry → Tree → Type 0
GoodKids n t k s h t' =
    Formed n skind t' × Grown h s (routes true t) (routes true t') × Ends k true t' s

abbrev GoodAmong : ℕ → Tree → Kind → Bytes → Entry → Tree → Type 0
GoodAmong n t k s h t' = Keeps t t' × GoodKids n t k s h t'

-- `insert` among children.
abbrev pub GrowsAmong : ℕ → Tree → Kind → Bytes → Entry → Option Tree → Type 0
GrowsAmong n t k s h r = Outcome (Taken h s (routes true t)) (GoodAmong n t k s h) r

pub Ends-map {ℓ κ ι} : {A : Type ℓ} {B : Type κ} {C : Type ι} → A ⊎ B → (B → C) → A ⊎ C
Ends-map (inl a) f = inl a
Ends-map (inr b) f = inr (f b)

Outcome-bind :
    (bad bad' : Type 0) (good good' : Tree → Type 0) (f : Tree → Tree) (r : Option Tree)
    → (bad → bad')
    → ((t : Tree) → good t → good' (f t))
    → Outcome bad good r
    → Outcome bad' good' (r >>= λ t. some (f t))
Outcome-bind bad bad' good good' f none g k h = g h
Outcome-bind bad bad' good good' f (some t) g k h = k t h

-- The routes of a node, when those below it grow.
pub routes-Grown :
    (k : Kind) (p : Bytes) (e h e' : Entry) (kids pc ac kids' pc' ac' next : Tree) (s : Bytes)
    → Grown h s
        (inner_routes (node k p e kids pc ac next))
        (inner_routes (node k p e' kids' pc' ac' next))
    → (b : Bool)
    → Grown h
        (p ++ s)
        (routes b (node k p e kids pc ac next))
        (routes b (node k p e' kids' pc' ac' next))
unfolding routes inner_routes
routes-Grown k p e h e' kids pc ac kids' pc' ac' next s g b =
    Grown-right h (p ++ s) _ _ _ (Grown-map h p s _ _ g)

pub routes-Taken :
    (k : Kind) (p : Bytes) (e h : Entry) (kids pc ac next : Tree) (s : Bytes)
    → Taken h s (inner_routes (node k p e kids pc ac next))
    → (b : Bool) → Taken h (p ++ s) (routes b (node k p e kids pc ac next))
unfolding routes inner_routes
routes-Taken k p e h kids pc ac next s (is, taken) b =
    (is, Registered-right (p ++ s) _ _ (Registered-map p s _ taken))

node_is_present :
    (k : Kind) (p : Bytes) (e : Entry) (kids pc ac next : Tree)
    → node k p e kids pc ac next ≡ absent
    → ⊥
node_is_present k p e kids pc ac next h = ground (arith, ap is_present h)

-- The labels stay at a node that keeps its label and what is next to it.
pub Keeps-node :
    (k k' : Kind) (p q : Bytes) (e e' : Entry) (kids pc ac kids' pc' ac' next : Tree)
    → label_of p ≡ label_of q
    → Keeps (node k p e kids pc ac next) (node k' q e' kids' pc' ac' next)
unfolding find_child
Keeps-node k k' p q e e' kids pc ac kids' pc' ac' next same l h =
    elim (Bool-cases (label_of p == l)) [
      | inl is ↦ absurd (
          node_is_present k p e kids pc ac next
            (sym (ap (λ b. if b then node k p e kids pc ac next else find_child l next) is) ∙ h))
      | inr is_not ↦
          let other : (label_of q == l) ≡ false = subst (λ x. (x == l) ≡ false) same is_not in
          ap (λ b. if b then node k' q e' kids' pc' ac' next else find_child l next) other
          ∙ sym (ap (λ b. if b then node k p e kids pc ac next else find_child l next) is_not)
          ∙ h
    ]

-- Handlers under a child become handlers under its node.
pub GrowsAmong-kids :
    (n : ℕ) (t : Tree) (k : Kind) (s : Bytes) (h : Entry) (r : Option Tree)
    → GrowsAmong n t k s h r
    → Outcome (Taken h s (routes true t)) (GoodKids n t k s h) r
GrowsAmong-kids n t k s h none taken = taken
GrowsAmong-kids n t k s h (some t') good = good.1

pub GrowsHere-kids :
    (n : ℕ) (want k t : Kind) (p s : Bytes) (e h : Entry) (kids pc ac next : Tree) (r : Option Tree)
    → Formed n want (node k p e kids pc ac next)
    → Outcome (Taken h s (routes true kids)) (GoodKids n kids t s h) r
    → GrowsHere n want
        (node k p e kids pc ac next)
        t
        (p ++ s)
        h
        (r >>= λ x. some (node k p e x pc ac next))
unfolding Formed Boundary inner_routes
GrowsHere-kids n want k t p s e h kids pc ac next r (same, pre, names, own, fk, fp, fa, fn) =
    Outcome-bind (Taken h s (routes true kids)) _ (GoodKids n kids t s h)
      (GoodHere n want (node k p e kids pc ac next) t (p ++ s) h) (λ x. node k p e x pc ac next) r
      (λ (is, taken). routes-Taken k p e h kids pc ac next s (
        is,
        Registered-left s (own_route e) _
            (Registered-right s (routes false pc ++ any_route ac) _ taken),
      ))
      (λ x (formed, grown, ends). (
        (same, pre, names, own, formed, fp, fa, fn),
        Keeps-node k k p p e e kids pc ac x pc ac next refl,
        routes-Grown k p e h e kids pc ac x pc ac next s (
            Grown-left h s (own_route e) _ _
              (Grown-right h s (routes false pc ++ any_route ac) _ _ grown)),
        Ends-map ends (λ b. (s, refl, inr (inl b))),
        refl,
      ))

pub GrowsHere-param :
    (n : ℕ) (want k t : Kind) (p s : Bytes) (e h : Entry) (kids pc ac next : Tree) (r : Option Tree)
    → Formed n want (node k p e kids pc ac next)
    → GrowsHere (suc n) pkind pc t s h r
    → GrowsHere n want
        (node k p e kids pc ac next)
        t
        (p ++ s)
        h
        (r >>= λ x. some (node k p e kids x ac next))
unfolding Formed Boundary inner_routes
GrowsHere-param n want k t p s e h kids pc ac next r (same, pre, names, own, fk, fp, fa, fn) =
    Outcome-bind ((b : Bool) → Taken h s (routes b pc)) _ (GoodHere (suc n) pkind pc t s h)
      (GoodHere n want (node k p e kids pc ac next) t (p ++ s) h) (λ x. node k p e kids x ac next) r
      (λ taken. routes-Taken k p e h kids pc ac next s (
        (taken false).0,
        Registered-left s (own_route e) _ (
            Registered-left s (routes true kids) _
              (Registered-right s (any_route ac) _ (taken false).1)),
      ))
      (λ x (formed, keeps, grown, ends, present). (
        (same, pre, names, own, fk, formed, fa, fn),
        Keeps-node k k p p e e kids pc ac kids x ac next refl,
        routes-Grown k p e h e kids pc ac kids x ac next s (
            Grown-left h s (own_route e) _ _ (
              Grown-left h s (routes true kids) _ _
                (Grown-right h s (any_route ac) _ _ (grown false)))),
        Ends-map ends (λ b. (s, refl, inr (inr b))),
        refl,
      ))

pub set_entry-taken :
    (k : Kind) (p : Bytes) (e h : Entry) (kids pc ac next : Tree)
    → is_set e ≡ true
    → is_set h ≡ true
    → set_entry h (node k p e kids pc ac next) ≡ none
set_entry-taken k p e h kids pc ac next was is = rw (was, is) refl

set_entry-same :
    (k : Kind) (p : Bytes) (e h : Entry) (kids pc ac next : Tree)
    → is_set h ≡ false
    → set_entry h (node k p e kids pc ac next) ≡ some (node k p e kids pc ac next)
set_entry-same k p e h kids pc ac next is_not = elim (Bool-cases (is_set e)) [
  | inl was ↦ rw (was, is_not) refl
  | inr was_not ↦ rw (was_not, is_not) refl
]

set_entry-fresh :
    (k : Kind) (p : Bytes) (e h : Entry) (kids pc ac next : Tree)
    → is_set e ≡ false
    → is_set h ≡ true
    → set_entry h (node k p e kids pc ac next) ≡ some (node k p h kids pc ac next)
set_entry-fresh k p e h kids pc ac next was_not is = rw (was_not, is) refl

-- Handlers at a node that the whole path reads.
pub GrowsHere-set :
    (n : ℕ) (want k t : Kind) (p : Bytes) (e h : Entry) (kids pc ac next : Tree)
    → Formed n want (node k p e kids pc ac next)
    → HasNames n h
    → GrowsHere n want (node k p e kids pc ac next) t p h (set_entry h (node k p e kids pc ac next))
unfolding Formed Boundary inner_routes
GrowsHere-set n want k t p e h kids pc ac next (same, pre, names, own, fk, fp, fa, fn) named =
    let below : List Route = routes true kids ++ (routes false pc ++ any_route ac) in
    let at : Entry → Tree = λ x. node k p x kids pc ac next in
    let goal : Option Tree → Type 0 = GrowsHere n want (at e) t p h in
    let ends : Boundary false (at h) p = ([], sym (append-nil p), inl refl) in
    elim (Bool-cases (is_set h)) [
      | inr is_not ↦ subst goal (sym (set_entry-same k p e h kids pc ac next is_not)) (
        (same, pre, names, own, fk, fp, fa, fn),
        λ l x. x,
        λ b. inr (is_not, refl),
        inr ends,
        refl,
      )
      | inl is ↦ elim (Bool-cases (is_set e)) [
        | inl was ↦ subst goal (sym (set_entry-taken k p e h kids pc ac next was is)) (λ b.
            subst (λ q. Taken h q (routes b (at e))) (append-nil p)
              (routes-Taken k p e h kids pc ac next [] (is, Registered-own e below was) b))
        | inr was_not ↦ subst goal (sym (set_entry-fresh k p e h kids pc ac next was_not is)) (
          (same, pre, named, own, fk, fp, fa, fn),
          Keeps-node k k p p e h kids pc ac kids pc ac next refl,
          λ b.
              subst (λ q. Grown h q (routes b (at e)) (routes b (at h))) (append-nil p)
                (routes-Grown k p e h h kids pc ac kids pc ac next [] (Grown-own h e below was_not)
                  b),
          inr ends,
          refl,
        )
      ]
    ]
