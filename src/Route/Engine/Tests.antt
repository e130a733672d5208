-- ===== src/Route/Engine/Tests.antt =====
-- Requests to an engine with two routers.
use hertz_study.Base.{◌≡◌, refl, ℕ, ◌≤◌, true, false, List, [], ◌∷◌, none, some, codes, bytes_equal}
use hertz_study.Route.Tree.{find_child, slash_child}
use hertz_study.Route.Text.{starts_with, until_slash, from_slash, is_only_slash, nearly}
use hertz_study.Route.Find.{
  find, run, match_node, match_children, match_param, match_any, enter, backtrack, pop, last_of,
  set_last_named, name_params, stored_value,
}
use hertz_study.Route.Tests.{sample_root, sample-IsTree}
use hertz_study.Route.Engine.{
  MethodTrees, Engine, Options, Served, get, engine_add_route, find_in, allowed_elsewhere,
  serve_unrouted, serve_value, serve,
}
use hertz_study.Route.Engine.Laws.{AddsOrPanics, engine_add_route_lem}
use hertz_study.Route.Engine.Promise.{HaveTrees, Serves}
use hertz_study.Route.Engine.Serve.{serve-Serves}

abbrev sample_trees : MethodTrees
sample_trees = (codes "GET", sample_root) ∷ (codes "POST", sample_root) ∷ []

sample_trees-HaveTrees : HaveTrees sample_trees
sample_trees-HaveTrees = (sample-IsTree, (sample-IsTree, tt))

abbrev sample_engine : Engine
sample_engine = record { trees = sample_trees; max_params = 1 }

abbrev all_on : Options
all_on = record {
  redirect_trailing_slash = true;
  redirect_fixed_path = true;
  handle_method_not_allowed = true;
}

abbrev new_handlers : List ℕ
new_handlers = 5 ∷ []

engine_add_route_lem_example :
    AddsOrPanics
      (codes "PUT")
      (codes "/a/:b/:c")
      new_handlers
      sample_engine
      (engine_add_route (codes "PUT") (codes "/a/:b/:c") new_handlers sample_engine)
engine_add_route_lem_example =
    engine_add_route_lem (codes "PUT") (codes "/a/:b/:c") new_handlers sample_engine
      sample_trees-HaveTrees

serve-Serves_example :
    (enough : ℕ) × (r : Served) × ((fuel : ℕ)
      → enough ≤ fuel
      → serve
          (λ part. none)
          false
          (λ root. false)
          fuel
          all_on
          sample_trees
          (codes "PUT")
          (codes "/u/7")
        ≡ some r)
    × Serves all_on sample_trees (codes "PUT") (codes "/u/7") r
serve-Serves_example =
    serve-Serves (λ part. none) (λ root. false) all_on sample_trees (codes "PUT") (codes "/u/7")
      sample_trees-HaveTrees

get_is_handled :
    serve (λ part. none) false (λ root. false) 20 all_on sample_trees (codes "GET") (codes "/u/7")
    ≡ some (Served.handled (1 ∷ []) (codes "/u/:id") ((codes "id", codes "7") ∷ []))
unfolding serve serve_value find_in get find run match_node match_children match_param match_any
    enter backtrack pop last_of set_last_named name_params stored_value starts_with until_slash
    from_slash is_only_slash nearly find_child slash_child bytes_equal serve_unrouted
    allowed_elsewhere
get_is_handled = refl

put_is_refused :
    serve (λ part. none) false (λ root. false) 20 all_on sample_trees (codes "PUT") (codes "/u/7")
    ≡ some Served.method_not_allowed
unfolding serve serve_value find_in get find run match_node match_children match_param match_any
    enter backtrack pop last_of set_last_named name_params stored_value starts_with until_slash
    from_slash is_only_slash nearly find_child slash_child bytes_equal serve_unrouted
    allowed_elsewhere
put_is_refused = refl
