-- ===== src/Route/Engine.antt =====
-- The routers of the methods of pkg/route/tree.go and pkg/route/engine.go: `get`, `countParams`,
-- `addRoute` of the engine, and how `ServeHTTP` chooses what answers a request. What the handlers, the
-- redirects and the error pages do then is left out, and `redirectFixedPath` is a parameter.
pub mod Promise
pub mod Routers
pub mod Laws
pub mod Serve
mod Tests
use hertz_study.Base.{
  ℕ, zero, suc, ◌+◌, ◌%◌, ◌^◌, Bool, true, false, not, ◌&&◌, List, [], ◌∷◌, ◌++◌, Option, none,
  some, ◌>>=◌, Bytes, codes, bytes_equal, ltb, ◌==◌, if◌then◌else◌,
}
use hertz_study.Route.Tree.{slash, param_label, any_label, any_handler, Tree}
use hertz_study.Route.AddRoute.{add_route}
use hertz_study.Route.AddRoute.Router.{new_root}
use hertz_study.Route.Find.{Params, NodeValue, find, stored_value}

-- The method and the root of each router.
abbrev pub MethodTrees : Type 0
MethodTrees = List (Bytes × Tree)

-- `get`.
unfoldable pub get : MethodTrees → Bytes → Option Tree
get [] method = none
get ((m, root) ∷ trees) method = if bytes_equal m method then some root else get trees method

unfoldable count : ℕ → Bytes → ℕ
count c [] = 0
count c (b ∷ s) = let rest = count c s in if b == c then suc rest else rest

-- `countParams`, in 16 bits.
unfoldable pub count_params : Bytes → ℕ
unfolding count
count_params path =
    let n = count param_label path % 2 ^ 16 in (n + count any_label path % 2 ^ 16) % 2 ^ 16

pub record Engine : Type 0 where
  pub trees : MethodTrees
  pub max_params : ℕ

-- The router that `get` found is changed in its place.
unfoldable pub set_root : MethodTrees → Bytes → Tree → MethodTrees
set_root [] method root = []
set_root ((m, old) ∷ trees) method root =
    let rest = set_root trees method root in
    if bytes_equal m method then (m, root) ∷ trees else (m, old) ∷ rest

abbrev pub starts_with_slash : Bytes → Bool
starts_with_slash [] = false
starts_with_slash (c ∷ path) = c == slash

abbrev pub some_method : Bytes → Bool
some_method [] = false
some_method (c ∷ method) = true

abbrev pub router_or_new : Option Tree → MethodTrees → Bytes → MethodTrees × Tree
router_or_new none trees method = (trees ++ (method, new_root) ∷ [], new_root)
router_or_new (some root) trees method = (trees, root)

-- The router of the method, a new one where there is none.
unfoldable pub with_router : MethodTrees → Bytes → MethodTrees × Tree
with_router trees method = router_or_new (get trees method) trees method

abbrev pub larger : ℕ → ℕ → ℕ
larger n max = if ltb max n then n else max

-- `addRoute`; `none` is a panic.
unfoldable pub engine_add_route : Bytes → Bytes → List ℕ → Engine → Option Engine
engine_add_route method path h engine =
    let (trees, root) = with_router engine.trees method in
    let done : Tree → Option Engine = λ root'. some (record {
      trees = set_root trees method root';
      max_params = larger (count_params path) engine.max_params;
    }) in
    let added = add_route path h root >>= done in
    if starts_with_slash path && some_method method && any_handler h then added else none

-- The options that the choice depends on.
pub record Options : Type 0 where
  pub redirect_trailing_slash : Bool
  pub redirect_fixed_path : Bool
  pub handle_method_not_allowed : Bool

-- What answers the request: handlers with the path of their route and the parameters, a redirect,
-- or the page for one of the codes 400, 405 and 404.
pub data Served : Type 0 where
  handled : List ℕ → Bytes → Params → Served
  redirected_slash redirected_fixed bad_request method_not_allowed not_found : Served

-- `MethodConnect`
abbrev pub method_connect : Bytes
method_connect = codes "CONNECT"

-- The rest of `ServeHTTP`, from its test of `rPath` on. `none` is a panic or a lack of fuel.
module _ (query_unescape : Bytes → Option Bytes) (unescape : Bool) (fixed_path : Tree → Bool) where
  unfoldable pub find_in : ℕ → Tree → Bytes → Option (NodeValue × Params)
  find_in fuel root path =
      find (stored_value query_unescape unescape) fuel root path >>= λ found. found

  -- Whether a router of another method has handlers.
  unfoldable pub allowed_elsewhere : ℕ → MethodTrees → Bytes → Bytes → Option Bool
  allowed_elsewhere fuel [] method path = some false
  allowed_elsewhere fuel ((m, root) ∷ trees) method path =
      let rest = allowed_elsewhere fuel trees method path in
      let here : NodeValue × Params → Option Bool =
        λ (v, ps). if any_handler v.handlers then some true else rest in
      if bytes_equal m method then rest else find_in fuel root path >>= here

  -- After the loop over the routers.
  unfoldable pub serve_unrouted : ℕ → Options → MethodTrees → Bytes → Bytes → Option Served
  serve_unrouted fuel options trees method path =
      let elsewhere : Bool → Option Served =
        λ allowed. if allowed then some Served.method_not_allowed else some Served.not_found in
      if options.handle_method_not_allowed
      then allowed_elsewhere fuel trees method path >>= elsewhere
      else some Served.not_found

  unfoldable pub serve_value :
      Options → Bytes → Bytes → Tree → NodeValue × Params → Option Served → Option Served
  serve_value options method path root (v, ps) unrouted =
      let redirects =
        not (bytes_equal method method_connect) && not (bytes_equal path (slash ∷ [])) in
      if any_handler v.handlers
      then some (Served.handled v.handlers v.full_path ps)
      else if redirects && (v.tsr && options.redirect_trailing_slash)
      then some Served.redirected_slash
      else if redirects && (options.redirect_fixed_path && fixed_path root)
      then some Served.redirected_fixed
      else unrouted

  unfoldable pub serve : ℕ → Options → MethodTrees → Bytes → Bytes → Option Served
  serve fuel options trees method path =
      let unrouted = serve_unrouted fuel options trees method path in
      let routed : Tree → Option Served = λ root.
        find_in fuel root path >>= λ found. serve_value options method path root found unrouted in
      if starts_with_slash path
      then elim (get trees method) [ none ↦ unrouted | some root ↦ routed root ]
      else some Served.bad_request
