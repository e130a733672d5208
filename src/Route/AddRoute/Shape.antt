-- ===== src/Route/AddRoute/Shape.antt =====
-- The shape and the names of a path for `addRoute` of pkg/route/tree.go. Neither is in the source.
use hertz_study.Base.{ℕ, List, [], ◌∷◌, ◌++◌, Bytes, ◌==◌, if◌then◌else◌}
use hertz_study.Route.Tree.{slash, param_label, any_label, Entry}
use hertz_study.Route.AddRoute.{Reading, Reading.in_static, Reading.in_name}

-- A path without the names of its wildcards, and these names.
unfoldable pub shape_from : Reading → Bytes → Bytes
shape_from in_static [] = []
shape_from in_static (c ∷ s) =
    let param = shape_from (in_name []) s in
    let static = shape_from in_static s in
    if c == param_label
    then param_label ∷ param
    else if c == any_label
    then any_label ∷ []
    else c ∷ static
shape_from (in_name name) [] = []
shape_from (in_name name) (c ∷ s) =
    let static = shape_from in_static s in
    let longer = shape_from (in_name (name ++ c ∷ [])) s in
    if c == slash then slash ∷ static else longer

unfoldable pub names_from : Reading → Bytes → List Bytes
names_from in_static [] = []
names_from in_static (c ∷ s) =
    let param = names_from (in_name []) s in
    let static = names_from in_static s in
    if c == param_label then param else if c == any_label then s ∷ [] else static
names_from (in_name name) [] = name ∷ []
names_from (in_name name) (c ∷ s) =
    let static = names_from in_static s in
    let longer = names_from (in_name (name ++ c ∷ [])) s in
    if c == slash then name ∷ static else longer

abbrev pub shape_of : Bytes → Bytes
shape_of path = shape_from in_static path

-- What a route leaves at its node.
abbrev pub entry_for : Bytes → List ℕ → Entry
entry_for path h = record { handlers = h; ppath = path; pnames = names_from in_static path }
