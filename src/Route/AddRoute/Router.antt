-- ===== src/Route/AddRoute/Router.antt =====
-- The insertions that `addRoute` of pkg/route/tree.go makes into the tree of a router.
use mathlib.Core.List.{cons-ne-nil}
use hertz_study.Base.{
  ◌≡◌, ◌≢◌, refl, sym, ap, subst, ◌∙◌, ◌⊎◌, inl, inr, ℕ, true, false, [], ◌∷◌, ◌++◌, Option, none,
  some, Bytes, ◌==◌, ==_refl, ==_iff, if◌then◌else◌, Bool-cases, append-nil, arith, All,
}
use hertz_study.Route.Tree.{
  Kind, Kind.skind, slash, Entry, no_entry, is_set, Tree, Tree.absent, Tree.node, label_of,
  is_present, find_child,
}
use hertz_study.Route.Formed.{IsLiteral, HasNames, Formed}
use hertz_study.Route.Routes.{routes}
use hertz_study.Route.Insert.{insert, new_leaf, lcp_len}
use hertz_study.Route.Insert.Equations.{parts}
use hertz_study.Route.Insert.Grows.{Grown, Grown-leaf}
use hertz_study.Route.Insert.Outcome.{Outcome, Taken, Ends, Boundary, GrowsHere}
use hertz_study.Route.Insert.Children.{leaf-Formed}
use hertz_study.Route.Insert.Literal.{GrowsHere-static_path, kids_literal}
use hertz_study.Route.Insert.Pieces.{IsPiece, NamesFor}
use hertz_study.Route.Insert.Extends.{GrowsHere-extends}

-- The root of a router without routes.
abbrev pub new_root : Tree
new_root = node skind [] no_entry absent absent absent absent

-- No label of the root is another byte than a slash.
abbrev Rooted : Tree → Type 0
Rooted root = (l : ℕ) → (l == slash) ≡ false → find_child l root ≡ absent

-- A well-formed tree whose paths start with a slash.
abbrev pub IsTree : Tree → Type 0
IsTree root = Formed 0 skind root × Rooted root × (is_present root ≡ true)

abbrev pub IsRouter : Tree → Type 0
IsRouter root = (root ≡ new_root) ⊎ IsTree root

-- What an insertion leaves: the tree, and a boundary at the end of the path.
abbrev pub Good : Kind → Bytes → Entry → Tree → Tree → Type 0
Good k s h root root' =
    IsTree root' × Grown h s (routes false root) (routes false root') × Ends k false root' s

abbrev pub Inserts : Kind → Bytes → Entry → Tree → Type 0
Inserts k s h root =
    Outcome (Taken h s (routes false root)) (Good k s h root) (insert false k s h root)

Inserts-GrowsHere :
    (k : Kind) (s : Bytes) (h : Entry) (root : Tree)
    → Rooted root
    → (r : Option Tree) → GrowsHere 0 skind root k s h r
    → Outcome (Taken h s (routes false root)) (Good k s h root) r
Inserts-GrowsHere k s h root rooted none taken = taken false
Inserts-GrowsHere k s h root rooted (some root') (formed, keeps, grown, ends, present) =
    ((formed, (λ l other. keeps l (rooted l other)), present), grown false, ends)

-- A piece after a boundary.
pub Inserts-piece :
    (k : Kind) (x y : Bytes) (h : Entry) (root : Tree)
    → IsTree root
    → Boundary false root x
    → IsPiece k y h
    → NamesFor 0 (x ++ y) h
    → Inserts k (x ++ y) h root
Inserts-piece k x y h root (formed, rooted, present) b piece named =
    Inserts-GrowsHere k (x ++ y) h root rooted _
      (GrowsHere-extends k y h piece root x formed b named)

root_label :
    (k : Kind) (p : Bytes) (e : Entry) (kids pc ac next : Tree)
    → Rooted (node k p e kids pc ac next)
    → label_of p ≡ slash
unfolding find_child
root_label k p e kids pc ac next rooted =
    let t = node k p e kids pc ac next in
    elim (Bool-cases (label_of p == slash)) [
      | inl is ↦ (==_iff (label_of p) slash).0 is
      | inr off ↦
          let itself : (if label_of p == label_of p then t else find_child (label_of p) next) ≡ t =
            ap (λ b. if b then t else find_child (label_of p) next) (==_refl (label_of p)) in
          ground (arith, ap is_present (sym itself ∙ rooted (label_of p) off))
    ]

-- A path without wildcards.
static_path :
    (x : Bytes) (h : Entry) (root : Tree)
    → x ≢ []
    → All IsLiteral x
    → label_of x ≡ slash
    → HasNames 0 h
    → IsTree root
    → Inserts skind x h root
unfolding Formed find_child
static_path x h absent some_byte literals at_slash named (formed, rooted, present) = ground arith
static_path x h (node k p e kids pc ac next) some_byte literals at_slash named
      (formed, rooted, present) =
    let (same, pre, names, own, fk, fp, fa, fn) = formed in
    let root = node k p e kids pc ac next in
    let label : (label_of p == label_of x) ≡ true =
      (==_iff (label_of p) (label_of x)).1
        (root_label k p e kids pc ac next rooted ∙ sym at_slash) in
    Inserts-GrowsHere skind x h root rooted _ (
      GrowsHere-static_path 0 k p x e h kids pc ac next some_byte literals label formed named
        (kids_literal 0 kids h fk named) (parts x p))

insert_first :
    (c : ℕ) (x : Bytes) (h : Entry)
    → insert false skind (c ∷ x) h new_root ≡ (
        if is_set h
        then some (new_leaf skind (c ∷ x) h)
        else some (new_leaf skind (c ∷ x) no_entry))
unfolding insert lcp_len
insert_first c x h = elim (Bool-cases (is_set h)) [
  | inl is ↦ rw is refl
  | inr is_not ↦ rw is_not refl
]

leaf-IsTree :
    (c : ℕ) (x : Bytes) (h : Entry)
    → All IsLiteral (c ∷ x)
    → c ≡ slash
    → HasNames 0 h
    → IsTree (new_leaf skind (c ∷ x) h)
unfolding find_child
leaf-IsTree c x h literals at_slash named =
    let leaf = new_leaf skind (c ∷ x) h in
    (
      leaf-Formed 0 skind (c ∷ x) h (cons-ne-nil c x, literals) named,
      λ l other.
          let off : (c == l) ≡ false = ground arith in ap (λ b. if b then leaf else absent) off,
      refl,
    )

leaf-Ends : (k : Kind) (s : Bytes) (h : Entry) → Ends k false (new_leaf skind s h) s
unfolding Boundary
leaf-Ends k s h = inr ([], sym (append-nil s), inl refl)

first_path :
    (x : Bytes) (h : Entry)
    → x ≢ []
    → All IsLiteral x
    → label_of x ≡ slash
    → HasNames 0 h
    → Inserts skind x h new_root
unfolding routes
first_path [] h some_byte literals at_slash named = absurd (some_byte refl)
first_path (c ∷ x) h some_byte literals at_slash named =
    let goal = Outcome (Taken h (c ∷ x) (routes false new_root)) (Good skind (c ∷ x) h new_root) in
    let with_entry : Entry → Option Tree = λ e. some (new_leaf skind (c ∷ x) e) in
    let unnamed : HasNames 0 no_entry = λ is. ground arith in
    elim (Bool-cases (is_set h)) [
      | inl is ↦
          subst goal
            (sym
              (insert_first c x h ∙ ap (λ b. if b then with_entry h else with_entry no_entry) is))
            (
              leaf-IsTree c x h literals at_slash named,
              Grown-leaf h skind (c ∷ x),
              leaf-Ends skind (c ∷ x) h,
            )
      | inr is_not ↦
          subst goal
            (sym (
              insert_first c x h
              ∙ ap (λ b. if b then with_entry h else with_entry no_entry) is_not))
            (
              leaf-IsTree c x no_entry literals at_slash unnamed,
              inr (is_not, refl),
              leaf-Ends skind (c ∷ x) no_entry,
            )
    ]

pub Inserts-first :
    (x : Bytes) (h : Entry) (root : Tree)
    → IsRouter root
    → x ≢ []
    → All IsLiteral x
    → label_of x ≡ slash
    → HasNames 0 h
    → Inserts skind x h root
Inserts-first x h root (inl new) some_byte literals at_slash named =
    subst (Inserts skind x h) (sym new) (first_path x h some_byte literals at_slash named)
Inserts-first x h root (inr tree) some_byte literals at_slash named =
    static_path x h root some_byte literals at_slash named tree
