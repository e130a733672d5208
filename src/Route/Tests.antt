-- ===== src/Route/Tests.antt =====
-- Routes of pkg/route/tree.go that are added and searched.
use mathlib.Core.List.{cons-ne-nil, Perm, mem-cons_self}
use hertz_study.Base.{
  ◌≡◌, ◌≢◌, ◌⊎◌, inr, refl, ℕ, ◌≤◌, true, false, ◌&&◌, List, [], ◌∷◌, Option, none, some, map,
  Bytes, codes, bytes_equal, if◌then◌else◌, arith,
}
use hertz_study.Route.Tree.{
  Kind.skind, Kind.pkind, Kind.akind, Entry, no_entry, any_handler, Tree, Tree.absent, Tree.node,
  find_child, slash_child,
}
use hertz_study.Route.Text.{starts_with, until_slash, from_slash, is_only_slash, nearly}
use hertz_study.Route.Seek.{seek}
use hertz_study.Route.Formed.{Formed-Shaped}
use hertz_study.Route.Routes.{Route, routes, match_shape, first_match}
use hertz_study.Route.Insert.{insert, lcp_len, append_child}
use hertz_study.Route.AddRoute.{
  add_from, add_route, check_wildcards, check_path_valid, no_wildcard, no_slash,
}
use hertz_study.Route.AddRoute.Router.{IsTree, new_root}
use hertz_study.Route.AddRoute.Places.{Added}
use hertz_study.Route.AddRoute.Shape.{shape_of, shape_from, entry_for}
use hertz_study.Route.AddRoute.Laws.{add_route_lem}
use hertz_study.Route.AddRoute.Register.{add_routes, route_for, Registers, add_routes-Registers}
use hertz_study.Route.AddRoute.Answers.{
  Finds, registered_tree, registered-Answers, registered_found,
}
use hertz_study.Route.Find.{
  Params, NodeValue, find, run, match_node, match_children, match_param, match_any, enter,
  backtrack, pop, last_of, set_last_named, name_params, stored_value,
}
use hertz_study.Route.Find.Laws.{answer_value}
use hertz_study.Route.Find.Refines.{find-seek}
use hertz_study.Route.Find.Correct.{Answers, find-first_match}

abbrev sample_routes : List (Bytes × List ℕ)
sample_routes =
    (codes "/u/:id", 1 ∷ []) ∷ (codes "/u/new", 2 ∷ []) ∷ (codes "/f/*path", 3 ∷ []) ∷ []

abbrev pub leaf : Bytes → Entry → Tree
leaf p e = node skind p e absent absent absent absent

abbrev pub entry : ℕ → Bytes → List Bytes → Entry
entry h path names = record { handlers = h ∷ []; ppath = path; pnames = names }

abbrev pub sample_root : Tree
sample_root =
    let new = leaf (codes "new") (entry 2 (codes "/u/new") []) in
    let id =
      node pkind (codes ":") (entry 1 (codes "/u/:id") (codes "id" ∷ [])) absent absent absent
        absent in
    let path =
      node akind (codes "*") (entry 3 (codes "/f/*path") (codes "path" ∷ [])) absent absent absent
        absent in
    let files = node skind (codes "f/") no_entry absent absent path absent in
    let users = node skind (codes "u/") no_entry new id absent files in
    node skind (codes "/") no_entry users absent absent absent

sample_returns : add_routes sample_routes new_root ≡ some sample_root
unfolding add_routes add_route add_from check_path_valid check_wildcards no_wildcard no_slash insert
    lcp_len append_child find_child
sample_returns = refl

pub sample-IsTree : IsTree sample_root
sample-IsTree =
    registered_tree sample_routes sample_root (cons-ne-nil _ _)
      (add_routes-Registers sample_routes sample_root sample_returns)

add_routes-Registers_example : Registers sample_routes sample_root
add_routes-Registers_example = add_routes-Registers sample_routes sample_root sample_returns

registered-Answers_example :
    (order : List Route) × Perm order (map route_for sample_routes)
    × ((path : Bytes)
        → (v : NodeValue) × (ps : Params) × Finds (λ part. none) sample_root path v ps
          × Answers (first_match (λ part. part) order path) v ps)
registered-Answers_example =
    registered-Answers (λ part. none) sample_routes sample_root (cons-ne-nil _ _) sample_returns

users_matches : match_shape (λ part. part) (shape_of (codes "/u/:id")) (codes "/u/7") ≢ none
unfolding match_shape shape_from until_slash from_slash
users_matches h = ground arith

registered_found_example :
    (v : NodeValue) × (ps : Params) × Finds (λ part. none) sample_root (codes "/u/7") v ps
    × (v.handlers ≢ [])
registered_found_example =
    registered_found (λ part. none) sample_routes sample_root (codes "/u/7") (codes "/u/:id")
      (1 ∷ []) sample_returns mem-cons_self users_matches

find-first_match_example :
    (enough : ℕ) × (v : NodeValue) × (ps : Params) × ((fuel : ℕ)
      → enough ≤ fuel
      → find (stored_value (λ part. none) false) fuel sample_root (codes "/u/new")
        ≡ some (some (v, ps)))
    × Answers (first_match (λ part. part) (routes false sample_root) (codes "/u/new")) v ps
find-first_match_example =
    find-first_match (λ part. none) sample_root (codes "/u/new") sample-IsTree.0 refl

find-seek_example :
    (enough : ℕ) × ((fuel : ℕ)
      → enough ≤ fuel
      → find (λ part. part) fuel sample_root (codes "/u")
        ≡ some (answer_value (seek (λ part. part) false sample_root (codes "/u") [] false)))
find-seek_example =
    find-seek (λ part. part) sample_root (codes "/u") (λ part. refl)
      (Formed-Shaped 0 skind sample_root sample-IsTree.0) refl

abbrev new_handlers : List ℕ
new_handlers = 4 ∷ []

add_route_lem_example :
    (((check_path_valid (codes "/u/x") && any_handler new_handlers) ≡ false)
      × (add_route (codes "/u/x") new_handlers sample_root ≡ none))
    ⊎ (((check_path_valid (codes "/u/x") && any_handler new_handlers) ≡ true)
        × Added
            (shape_of (codes "/u/x"))
            (entry_for (codes "/u/x") new_handlers)
            sample_root
            (add_route (codes "/u/x") new_handlers sample_root))
add_route_lem_example = add_route_lem (codes "/u/x") new_handlers sample_root (inr sample-IsTree)

-- A route with the shape of another one panics, whatever its names.
same_shape_panics : add_route (codes "/u/:name") (4 ∷ []) sample_root ≡ none
unfolding add_route add_from check_path_valid check_wildcards no_wildcard no_slash insert lcp_len
    append_child find_child
same_shape_panics = refl

-- Only the escape `%41` of `A`.
abbrev unescape_a : Bytes → Option Bytes
unescape_a part = if bytes_equal part (codes "%41") then some (codes "A") else none

abbrev backtrack_root : Tree
backtrack_root =
    let b = leaf (codes "/b") (entry 1 (codes "/:id/b") (codes "id" ∷ [])) in
    let id = node pkind (codes ":") no_entry b absent absent absent in
    let rest =
      node akind (codes "*") (entry 2 (codes "/*rest") (codes "rest" ∷ [])) absent absent absent
        absent in
    node skind (codes "/") no_entry absent id rest absent

-- On the way back from `:id` the index moves by the length of the value without its escapes, so
-- that the wildcard starts inside the escape.
unescaped_backtrack :
    find (stored_value unescape_a true) 20 backtrack_root (codes "/%41/c")
    ≡ some (
        some (
          record { handlers = 2 ∷ []; tsr = false; full_path = codes "/*rest" },
          (codes "rest", codes "1/c") ∷ [],
        ))
unfolding find run match_node match_children match_param match_any enter backtrack pop last_of
    set_last_named name_params stored_value bytes_equal starts_with until_slash from_slash
    is_only_slash nearly find_child slash_child
unescaped_backtrack = refl

redirects :
    find (λ part. part) 20 sample_root (codes "/f")
    ≡ some (some (record { handlers = []; tsr = true; full_path = [] }, []))
unfolding find run match_node match_children match_param match_any enter backtrack pop last_of
    set_last_named name_params starts_with until_slash from_slash is_only_slash nearly find_child
    slash_child
redirects = refl
