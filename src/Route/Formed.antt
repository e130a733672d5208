-- ===== src/Route/Formed.antt =====
-- The well-formed trees of pkg/route/tree.go.
use hertz_study.Base.{◌≡◌, ◌≢◌, ℕ, suc, true, false, [], ◌∷◌, Bytes, length, ◌==◌, All}
use hertz_study.Route.Tree.{
  Kind, Kind.skind, Kind.pkind, Kind.akind, param_label, any_label, Entry, is_set, Tree,
  Tree.absent, Tree.node, label_of, find_child,
}
use hertz_study.Route.Find.Laws.{Shaped}

abbrev pub IsLiteral : ℕ → Type 0
IsLiteral c = ((c == param_label) ≡ false) × ((c == any_label) ≡ false)

-- A static prefix is not empty and has no wildcard; a `paramChild` has `:` and an `anyChild` has `*`.
abbrev pub HasPrefix : Kind → Bytes → Type 0
HasPrefix skind p = (p ≢ []) × All IsLiteral p
HasPrefix pkind p = p ≡ param_label ∷ []
HasPrefix akind p = p ≡ any_label ∷ []

abbrev pub HasNames : ℕ → Entry → Type 0
HasNames n e = is_set e ≡ true → length e.pnames ≡ n

-- An any child below `n` values has handlers, names for one value more, and no child.
abbrev pub AnyFormed : ℕ → Tree → Type 0
AnyFormed n absent = Unit
AnyFormed n (node k p e kids pc ac next) =
    HasPrefix akind p × (is_set e ≡ true) × (length e.pnames ≡ suc n)

-- A tree of nodes of a kind, `n` wildcards below the root: each node names the wildcards above it,
-- its children are static with labels of their own, and its wildcards are where the search looks.
unfoldable pub Formed : ℕ → Kind → Tree → Type 0
Formed n want absent = Unit
Formed n want (node k p e kids pc ac next) =
    (k ≡ want)
    × HasPrefix want p
    × HasNames n e
    × (find_child (label_of p) next ≡ absent)
    × Formed n skind kids
    × Formed (suc n) pkind pc
    × AnyFormed n ac
    × Formed n want next

pub Formed-Shaped : (n : ℕ) (want : Kind) (t : Tree) → Formed n want t → Shaped n want t
unfolding Formed Shaped
Formed-Shaped n want absent h = tt
Formed-Shaped n want (node k p e kids pc absent next) (same, pre, names, own, fk, fp, fa, fn) = (
  same,
  Formed-Shaped n skind kids fk,
  Formed-Shaped (suc n) pkind pc fp,
  tt,
  Formed-Shaped n want next fn,
)
Formed-Shaped n want (node k p e kids pc (node k' p' e' kids' pc' ac' next') next)
      (same, pre, names, own, fk, fp, (pre', set', named), fn) =
    (
      same,
      Formed-Shaped n skind kids fk,
      Formed-Shaped (suc n) pkind pc fp,
      named,
      Formed-Shaped n want next fn,
    )
