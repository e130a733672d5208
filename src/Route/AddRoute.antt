-- ===== src/Route/AddRoute.antt =====
-- `checkPathValid` and `addRoute` of pkg/route/tree.go.
pub mod Shape
pub mod Router
pub mod Places
pub mod Loop
pub mod Laws
pub mod Register
pub mod Answers
use hertz_study.Base.{
  ℕ, Bool, true, false, not, ◌||◌, ◌&&◌, List, [], ◌∷◌, ◌++◌, Option, none, some, ◌>>=◌, Bytes,
  ◌==◌, if◌then◌else◌,
}
use hertz_study.Route.Tree.{
  Kind.skind, Kind.pkind, Kind.akind, slash, param_label, any_label, Entry, any_handler, Tree,
}
use hertz_study.Route.Insert.{insert}

-- The bytes of a name up to the next slash have no wildcard.
unfoldable pub no_wildcard : Bytes → Bool
no_wildcard [] = true
no_wildcard (c ∷ s) =
    if c == slash then true else not (c == param_label || c == any_label) && no_wildcard s

unfoldable pub no_slash : Bytes → Bool
no_slash [] = true
no_slash (c ∷ s) = not (c == slash) && no_slash s

-- The name of a parameter is not empty.
abbrev starts_name : Bytes → Bool
starts_name [] = false
starts_name (c ∷ s) = not (c == slash)

abbrev pub some_byte : Bytes → Bool
some_byte [] = false
some_byte (c ∷ s) = true

-- The loop of `checkPathValid` from a byte on, with the byte before it. `false` is a panic.
unfoldable pub check_wildcards : ℕ → Bytes → Bool
check_wildcards before [] = true
check_wildcards before (c ∷ s) =
    let here =
      if c == param_label
      then starts_name s && no_wildcard s
      else if c == any_label
      then some_byte s && before == slash && no_slash s
      else true in
    here && check_wildcards c s

unfoldable pub check_path_valid : Bytes → Bool
check_path_valid [] = false
check_path_valid (c ∷ path) = c == slash && check_wildcards c path

-- Where the loop of `addRoute` is: between wildcards, or in the name of a parameter.
pub data Reading : Type 0 where
  in_static : Reading
  in_name : Bytes → Reading

abbrev pub without_handlers : List Bytes → Entry
without_handlers pnames = record { handlers = []; ppath = []; pnames = pnames }

-- The loop of `addRoute`: `read` is the path so far without the names of its parameters, which are
-- in `pnames`.
unfoldable pub add_from : Reading → Bytes → Bytes → List Bytes → List ℕ → Bytes → Tree → Option Tree
add_from in_static [] read pnames h ppath root =
    insert false skind read (record { handlers = h; ppath = ppath; pnames = pnames }) root
add_from in_static (c ∷ s) read pnames h ppath root =
    let before = insert false skind read (without_handlers []) root in
    let rest = add_from (in_name []) s (read ++ param_label ∷ []) pnames h ppath in
    let last : Entry = record { handlers = h; ppath = ppath; pnames = pnames ++ s ∷ [] } in
    let static = add_from in_static s (read ++ c ∷ []) pnames h ppath root in
    if c == param_label
    then before >>= rest
    else if c == any_label
    then before >>= insert false akind (read ++ any_label ∷ []) last
    else static
add_from (in_name name) [] read pnames h ppath root =
    insert false pkind read (record { handlers = h; ppath = ppath; pnames = pnames ++ name ∷ [] })
      root
add_from (in_name name) (c ∷ s) read pnames h ppath root =
    let before = insert false pkind read (without_handlers (pnames ++ name ∷ [])) root in
    let rest = add_from in_static s (read ++ c ∷ []) (pnames ++ name ∷ []) h ppath in
    let longer = add_from (in_name (name ++ c ∷ [])) s read pnames h ppath root in
    if c == slash then before >>= rest else longer

-- `addRoute`. A chain that is nil panics.
unfoldable pub add_route : Bytes → List ℕ → Tree → Option Tree
add_route path h root =
    let added = add_from in_static path [] [] h path root in
    if check_path_valid path && any_handler h then added else none
