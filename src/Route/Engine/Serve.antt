-- ===== src/Route/Engine/Serve.antt =====
-- What answers a request, by `ServeHTTP` of pkg/route/engine.go, in terms of the registered routes.
use Prim.Native.Nat.{max}
use hertz_study.Base.{
  ◌≡◌, refl, sym, ap, subst, ◌∙◌, inl, inr, ℕ, ◌≤◌, Bool, true, false, not, ◌&&◌, [], ◌∷◌, Option,
  none, some, ◌>>=◌, Bytes, bytes_equal, Bool-cases, Option-cases, arith,
}
use hertz_study.Route.Tree.{slash, any_handler, Tree}
use hertz_study.Route.Routes.{Hit}
use hertz_study.Route.Routes.Handlers.{HitHasHandlers, hit-HasHandlers}
use hertz_study.Route.AddRoute.Router.{IsTree}
use hertz_study.Route.Find.{Params, NodeValue}
use hertz_study.Route.Find.Correct.{Answers, find-first_match}
use hertz_study.Route.Engine.{
  MethodTrees, method_connect, get, Options, Served, Served.handled, Served.redirected_slash,
  Served.redirected_fixed, Served.bad_request, Served.method_not_allowed, Served.not_found,
  starts_with_slash, find_in, allowed_elsewhere, serve_unrouted, serve_value, serve,
}
use hertz_study.Route.Engine.Promise.{
  HaveTrees, hit_in, is_hit, hit_of, routed, other_hit, Serves, if_some, both, middle, some_is_not,
  get-HaveTrees,
}

module _ (query_unescape : Bytes → Option Bytes) (fixed_path : Tree → Bool) where
  -- The search of a router ends.
  abbrev FindsIn : Tree → Bytes → Type 0
  FindsIn root path =
      (enough : ℕ) × (v : NodeValue) × (ps : Params) × ((fuel : ℕ)
        → enough ≤ fuel
        → find_in query_unescape false fixed_path fuel root path ≡ some (v, ps))
      × Answers (hit_in root path) v ps
      × (any_handler v.handlers ≡ is_hit (hit_in root path))

  any_handler-Answers :
      (hit : Hit) (v : NodeValue) (ps : Params)
      → HitHasHandlers hit
      → Answers hit v ps
      → any_handler v.handlers ≡ is_hit hit
  any_handler-Answers none v ps has (handlers, full_path, none_left) = ap any_handler handlers
  any_handler-Answers (some (e, vs)) v ps has (handlers, full_path, names, values) =
      ap any_handler handlers ∙ has

  find_in_lem : (root : Tree) (path : Bytes) → IsTree root → FindsIn root path
  unfolding find_in
  find_in_lem root path (formed, rooted, present) =
      let (enough, v, ps, runs, answers) =
        find-first_match query_unescape root path formed present in
      (
        enough,
        v,
        ps,
        λ fuel le. ap (λ r. r >>= λ found. found) (runs fuel le),
        answers,
        any_handler-Answers (hit_in root path) v ps
            (hit-HasHandlers (λ part. part) root path formed) answers,
      )

  allowed_elsewhere_lem :
      (trees : MethodTrees) (method path : Bytes)
      → HaveTrees trees
      → (enough : ℕ) × ((fuel : ℕ)
          → enough ≤ fuel
          → allowed_elsewhere query_unescape false fixed_path fuel trees method path
            ≡ some (other_hit trees method path))
  unfolding allowed_elsewhere other_hit
  allowed_elsewhere_lem [] method path have = (0, λ fuel le. refl)
  allowed_elsewhere_lem ((m, root) ∷ trees) method path (tree, have) =
      let (n, rest) = allowed_elsewhere_lem trees method path have in
      let (k, v, ps, runs, answers, same) = find_in_lem root path tree in
      (
        max n k,
        λ fuel le. elim (Bool-cases (bytes_equal m method)) [
          | inl is ↦ rw is (rest fuel (omega arith))
          | inr is_not ↦
              rw (is_not, runs fuel (omega arith), same, rest fuel (omega arith))
                (if_some (is_hit (hit_in root path)) _)
        ],
      )

  -- The answer with enough fuel.
  abbrev Answered : Options → MethodTrees → Bytes → Bytes → (ℕ → Option Served) → Type 0
  Answered options trees method path run =
      (enough : ℕ) × (r : Served) × ((fuel : ℕ) → enough ≤ fuel → run fuel ≡ some r)
      × Serves options trees method path r

  unrouted_lem :
      (options : Options) (trees : MethodTrees) (method path : Bytes)
      → HaveTrees trees
      → routed trees method path ≡ none
      → Answered options trees method path
          (λ fuel. serve_unrouted query_unescape false fixed_path fuel options trees method path)
  unfolding serve_unrouted
  unrouted_lem options trees method path have missed =
      let (enough, runs) = allowed_elsewhere_lem trees method path have in
      elim (Bool-cases options.handle_method_not_allowed) [
        | inr off ↦ (0, not_found, λ fuel le. rw off refl, (missed, λ is. ground arith))
        | inl is ↦ elim (Bool-cases (other_hit trees method path)) [
          | inl hit ↦ (
            enough,
            method_not_allowed,
            λ fuel le. rw (is, runs fuel le, hit) refl,
            (missed, is, hit),
          )
          | inr no_hit ↦ (
            enough,
            not_found,
            λ fuel le. rw (is, runs fuel le, no_hit) refl,
            (missed, λ on. no_hit),
          )
        ]
      ]

  value_lem :
      (options : Options) (trees : MethodTrees) (method path : Bytes) (root : Tree) (v : NodeValue)
      (ps : Params)
      → HaveTrees trees
      → routed trees method path ≡ hit_in root path
      → Answers (hit_in root path) v ps
      → any_handler v.handlers ≡ is_hit (hit_in root path)
      → Answered options trees method path (λ fuel.
        serve_value query_unescape false fixed_path options method path root
          (v, ps)
          (serve_unrouted query_unescape false fixed_path fuel options trees method path))
  unfolding serve_value
  value_lem options trees method path root v ps have same answers found =
      let may_redirect =
        not (bytes_equal method method_connect) && not (bytes_equal path (slash ∷ [])) in
      let to_slash = may_redirect && (v.tsr && options.redirect_trailing_slash) in
      let to_fixed = may_redirect && (options.redirect_fixed_path && fixed_path root) in
      elim (Option-cases (hit_in root path)) [
        | inr (x, hit) ↦
            let is : any_handler v.handlers ≡ true = found ∙ ap is_hit hit in
            (
              0,
              handled v.handlers v.full_path ps,
              λ fuel le. rw is refl,
              (
                v,
                λ missed. some_is_not x (sym hit ∙ sym same ∙ missed),
                subst (λ h. Answers h v ps) (sym same) answers,
                refl,
                refl,
              ),
            )
        | inl missed ↦
            let off : any_handler v.handlers ≡ false = found ∙ ap is_hit missed in
            elim (Bool-cases to_slash) [
              | inl is ↦ (
                0,
                redirected_slash,
                λ fuel le. rw (off, is) refl,
                (same ∙ missed, both _ _ _ is),
              )
              | inr no_slash ↦ elim (Bool-cases to_fixed) [
                | inl is ↦ (
                  0,
                  redirected_fixed,
                  λ fuel le. rw (off, no_slash, is) refl,
                  (same ∙ missed, middle may_redirect _ (fixed_path root) is),
                )
                | inr no_fixed ↦
                    let (enough, r, runs, serves) =
                      unrouted_lem options trees method path have (same ∙ missed) in
                    (enough, r, λ fuel le. rw (off, no_slash, no_fixed) (runs fuel le), serves)
              ]
            ]
      ]

  -- Where every router has a well-formed tree, `ServeHTTP` from its test of the path on, without
  -- `unescape` and with enough fuel, does not panic. It answers with handlers only where the path matches
  -- a route of the router of the method, with those and the parameters of the first such route; with a
  -- redirect only where it matches none and the option for it is on; with code 405 only where that option
  -- is on, and the path matches a route of another method and none of its own; with code 404 only where
  -- it matches none and, if the option for 405 is on, none of another method; and with code 400 only
  -- where the path does not start with a slash.
  pub serve-Serves :
      (options : Options) (trees : MethodTrees) (method path : Bytes)
      → HaveTrees trees
      → (enough : ℕ) × (r : Served) × ((fuel : ℕ)
          → enough ≤ fuel
          → serve query_unescape false fixed_path fuel options trees method path ≡ some r)
        × Serves options trees method path r
  unfolding serve
  serve-Serves options trees method path have = elim (Bool-cases (starts_with_slash path)) [
    | inr off ↦ (0, bad_request, λ fuel le. rw off refl, off)
    | inl at_slash ↦ elim (Option-cases (get trees method)) [
      | inl none_has ↦
          let (enough, r, runs, serves) =
            unrouted_lem options trees method path have (ap (λ t. hit_of t path) none_has) in
          (enough, r, λ fuel le. rw (at_slash, none_has) (runs fuel le), serves)
      | inr (root, has) ↦
          let (n, v, ps, runs, answers, found) =
            find_in_lem root path (get-HaveTrees trees method root have has) in
          let (k, r, ends, serves) =
            value_lem options trees method path root v ps have (ap (λ t. hit_of t path) has) answers
              found in
          (
            max n k,
            r,
            λ fuel le. rw (at_slash, has, runs fuel (omega arith)) (ends fuel (omega arith)),
            serves,
          )
    ]
  ]
