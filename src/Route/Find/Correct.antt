-- ===== src/Route/Find/Correct.antt =====
-- `find` of pkg/route/tree.go against what the router promises.
use hertz_study.Base.{
  ◌≡◌, refl, ap, ◌∙◌, ℕ, ◌≤◌, Bool, true, false, List, [], ◌∷◌, Option, none, some, map, Bytes,
  length, arith,
}
use hertz_study.Route.Tree.{Kind.skind, Tree, is_present}
use hertz_study.Route.Formed.{Formed, Formed-Shaped}
use hertz_study.Route.Seek.{seek}
use hertz_study.Route.Routes.{Hit, routes, first_match}
use hertz_study.Route.Routes.First.{seek-first_match}
use hertz_study.Route.Routes.Names.{HitNamed, routes-HitNamed}
use hertz_study.Route.Find.{Params, NodeValue, name_params, find, stored_value}
use hertz_study.Route.Find.Laws.{answer_value}
use hertz_study.Route.Find.Refines.{find-seek}

abbrev names_of : Params → List Bytes
names_of ps = map (λ p. p.0) ps

abbrev values_of : Params → List Bytes
values_of ps = map (λ p. p.1) ps

-- The promise: the handlers and the path of the route with a parameter for each of its wildcards, or
-- nothing where no route matches.
abbrev pub Answers : Hit → NodeValue → Params → Type 0
Answers none v ps = (v.handlers ≡ []) × (v.full_path ≡ []) × (ps ≡ [])
Answers (some (e, vs)) v ps =
    (v.handlers ≡ e.handlers)
    × (v.full_path ≡ e.ppath)
    × (names_of ps ≡ e.pnames)
    × (values_of ps ≡ vs)

name_params_lem :
    (ns vs : List Bytes)
    → length ns ≡ length vs
    → (ps : Params) × (name_params ns vs ≡ some ps) × (names_of ps ≡ ns) × (values_of ps ≡ vs)
unfolding name_params
name_params_lem [] [] h = ([], refl, refl, refl)
name_params_lem [] (v ∷ vs) h = ground arith
name_params_lem (n ∷ ns) [] h = ground arith
name_params_lem (n ∷ ns) (v ∷ vs) h =
    let (ps, eq, names, values) = name_params_lem ns vs (omega (arith, h)) in
    ((n, v) ∷ ps, rw eq refl, ap (◌∷◌ n) names, ap (◌∷◌ v) values)

Answers-hit :
    (x : Hit) (tsr : Bool)
    → HitNamed x
    → (v : NodeValue) × (ps : Params) × (answer_value (x, tsr) ≡ some (v, ps)) × Answers x v ps
Answers-hit none tsr h =
    (record { handlers = []; tsr = tsr; full_path = [] }, [], refl, (refl, refl, refl))
Answers-hit (some (e, vs)) tsr h =
    let (ps, eq, names, values) = name_params_lem e.pnames vs h in
    (
      record { handlers = e.handlers; tsr = tsr; full_path = e.ppath },
      ps,
      rw eq refl,
      (refl, refl, names, values),
    )

-- In a well-formed tree `find`, without `unescape` and with enough fuel, does not panic. It returns the
-- handlers and the path of the first route that matches, in the order of the tree: a node before its
-- children, static children before the `paramChild` and that before the `anyChild`. It sets a
-- parameter with its name and its value for each wildcard of the route. It returns no handlers, no
-- path and no parameters where no route matches.
pub find-first_match :
    (query_unescape : Bytes → Option Bytes) (root : Tree) (path : Bytes)
    → Formed 0 skind root
    → is_present root ≡ true
    → (enough : ℕ) × (v : NodeValue) × (ps : Params) × ((fuel : ℕ)
        → enough ≤ fuel
        → find (stored_value query_unescape false) fuel root path ≡ some (some (v, ps)))
      × Answers (first_match (λ part. part) (routes false root) path) v ps
unfolding stored_value
find-first_match query_unescape root path formed present =
    let id : Bytes → Bytes = λ part. part in
    let (enough, runs) =
      find-seek id root path (λ v. refl) (Formed-Shaped 0 skind root formed) present in
    let a = seek id false root path [] false in
    let hit = first_match id (routes false root) path in
    let same : a.0 ≡ hit = seek-first_match id root path false formed in
    let (v, ps, eq, answers) = Answers-hit hit a.1 (routes-HitNamed id root path formed) in
    (
      enough,
      v,
      ps,
      λ fuel le. runs fuel le ∙ ap some (ap (λ x. answer_value (x, a.1)) same ∙ eq),
      answers,
    )
