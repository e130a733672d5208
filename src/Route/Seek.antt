-- ===== src/Route/Seek.antt =====
-- The search of `find` of pkg/route/tree.go as a recursion, and as a scan of the routes. Neither is in
-- the source: they say what its loop with its jumps computes.
use hertz_study.Base.{
  Bool, true, false, ◌||◌, ◌&&◌, List, [], ◌∷◌, ◌++◌, Option, none, some, Bytes, length, drop, ◌==◌,
  if◌then◌else◌,
}
use hertz_study.Route.Tree.{Kind, is_skind, Entry, is_set, Tree, label_of, is_present, slash_child}
use hertz_study.Route.Text.{starts_with, until_slash, from_slash, is_empty, is_only_slash, nearly}

-- The entry that is found with the values of the path, and whether a redirect to the path with
-- another trailing slash is due.
abbrev pub Answer : Type 0
Answer = Option (Entry × List Bytes) × Bool

abbrev pub or_else : Answer → (Bool → Answer) → Answer
or_else (some x, tsr) rest = (some x, tsr)
or_else (none, tsr) rest = rest tsr

-- A search below a node: the path left, the values so far, and the redirect so far.
abbrev Search : Type 0
Search = Bytes → List Bytes → Bool → Answer

module _ (value_of : Bytes → Bytes) where
  unfoldable pub try_param : Tree → Search → Search
  try_param Tree.absent in_param s vs tsr = (none, tsr)
  try_param (Tree.node k p e kids pc ac next) in_param s vs tsr =
      let s' = from_slash s in
      let ends = is_empty s' && slash_child kids in
      in_param s' (vs ++ value_of (until_slash s) ∷ []) (tsr || ends)

  unfoldable pub try_any : Tree → Search
  try_any Tree.absent s vs tsr = (none, tsr)
  try_any (Tree.node k p e kids pc ac next) s vs tsr = (some (e, vs ++ value_of s ∷ []), tsr)

  -- The node once its prefix is read.
  unfoldable pub visit_rest : Entry → Tree → Tree → Tree → Search → Search → Search
  visit_rest e kids pc ac in_kids in_param [] vs tsr =
      if is_set e then (some (e, vs), tsr) else try_any ac [] vs (tsr || slash_child kids)
  visit_rest e kids pc ac in_kids in_param (c ∷ s) vs tsr =
      or_else (in_kids (c ∷ s) vs (tsr || (is_only_slash (c ∷ s) && is_set e)))
        (λ tsr'. or_else (try_param pc in_param (c ∷ s) vs tsr') (try_any ac (c ∷ s) vs))

  unfoldable pub visit : Kind → Bytes → Entry → Tree → Tree → Tree → Search → Search → Search
  visit k p e kids pc ac in_kids in_param s vs tsr =
      let near = nearly p s && (is_set e || is_present ac) in
      if is_skind k
      then (if starts_with p s
          then visit_rest e kids pc ac in_kids in_param (drop (length p) s) vs tsr
          else (none, tsr || near))
      else visit_rest e kids pc ac in_kids in_param s vs tsr

  -- At a node, and among children: there at the first one whose label is the next byte.
  unfoldable pub seek : Bool → Tree → Search
  seek among Tree.absent s vs tsr = (none, tsr)
  seek among (Tree.node k p e kids pc ac next) s vs tsr =
      let here = visit k p e kids pc ac (seek true kids) (seek false pc) s vs tsr in
      let there = seek among next s vs tsr in
      if among then (if label_of p == label_of s then here else there) else here
