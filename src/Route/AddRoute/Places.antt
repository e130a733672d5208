-- ===== src/Route/AddRoute/Places.antt =====
-- The places of the loop of `addRoute` of pkg/route/tree.go, and the insertions from them.
use mathlib.Core.List.{concat-ne-nil}
use hertz_study.Base.{
  ◌≡◌, ◌≢◌, refl, sym, ap, subst, ◌∙◌, ◌⊎◌, inl, inr, ℕ, ◌+◌, true, false, List, [], ◌∷◌, ◌++◌,
  Option, none, some, ◌>>=◌, Bytes, ◌==◌, Bool-cases, append-nil, append_assoc, arith, All,
  All-append,
}
use hertz_study.Route.Tree.{
  Kind, Kind.skind, Kind.pkind, Kind.akind, slash, param_label, any_label, Entry, is_set, Tree,
  label_of,
}
use hertz_study.Route.Formed.{IsLiteral}
use hertz_study.Route.Routes.{routes}
use hertz_study.Route.Routes.Names.{wildcards, wildcards_literals}
use hertz_study.Route.Insert.Grows.{Inserted, Registered}
use hertz_study.Route.Insert.Outcome.{Outcome, Taken, Boundary}
use hertz_study.Route.Insert.Split.{label-append}
use hertz_study.Route.Insert.Pieces.{NamesFor}
use hertz_study.Route.AddRoute.{Reading, Reading.in_static, Reading.in_name, without_handlers}
use hertz_study.Route.AddRoute.Router.{
  IsTree, IsRouter, Good, Inserts, Inserts-piece, Inserts-first,
}

-- One route is added to those of the tree, or one of its shape is there.
abbrev pub Added : Bytes → Entry → Tree → Option Tree → Type 0
Added s e root r =
    Outcome (Registered s (routes false root))
      (λ root'. IsTree root' × Inserted (s, e) (routes false root) (routes false root')) r

-- Where the loop is: after a boundary and some bytes, or none so far.
abbrev pub InStatic : Tree → Bytes → Type 0
InStatic root read =
    (IsRouter root × All IsLiteral read × (label_of read ≡ slash) × (read ≢ []))
    ⊎ (IsTree root
        × ((x : Bytes) × (y : Bytes) × (read ≡ x ++ y)
            × Boundary false root x
            × (y ≢ [])
            × All IsLiteral y))

abbrev pub InName : Tree → Bytes → Type 0
InName root read =
    IsTree root × ((x : Bytes) × (read ≡ x ++ param_label ∷ []) × Boundary false root x)

abbrev pub Reads : Reading → Tree → Bytes → Type 0
Reads in_static root read = InStatic root read
Reads (in_name name) root read = InName root read

abbrev pub pending : Reading → ℕ
pending in_static = 0
pending (in_name name) = 1

abbrev pub NoAny : Bytes → Type 0
NoAny s = All (λ c. (c == any_label) ≡ false) s

pub wildcards_append : (x y : Bytes) → NoAny x → wildcards (x ++ y) ≡ wildcards x + wildcards y
unfolding wildcards
wildcards_append [] y h = omega arith
wildcards_append (c ∷ x) y (not_any, h) = elim (Bool-cases (c == param_label)) [
  | inl is ↦ rw is (omega (arith, wildcards_append x y h))
  | inr is_not ↦ rw (is_not, not_any) (wildcards_append x y h)
]

pub Added-Inserts :
    (k : Kind) (s : Bytes) (h : Entry) (root : Tree)
    → is_set h ≡ true
    → (r : Option Tree) → Outcome (Taken h s (routes false root)) (Good k s h root) r
    → Added s h root r
Added-Inserts k s h root is none (is', taken) = taken
Added-Inserts k s h root is (some root') (tree, inl (is', inserted), ends) = (tree, inserted)
Added-Inserts k s h root is (some root') (tree, inr (is_not, same), ends) = ground arith

-- An insertion without handlers, and what follows it.
pub silent :
    (k : Kind) (s : Bytes) (h : Entry) (root : Tree)
    → k ≢ akind
    → is_set h ≡ false
    → (shape : Bytes) (e : Entry) (f : Tree → Option Tree) (r : Option Tree)
    → Outcome (Taken h s (routes false root)) (Good k s h root) r
    → ((root' : Tree) → IsTree root' → Boundary false root' s → Added shape e root' (f root'))
    → Added shape e root (r >>= f)
silent k s h root other is_not shape e f none (is, taken) go = ground arith
silent k s h root other is_not shape e f (some root') (tree, inl (is, inserted), ends) go =
    ground arith
silent k s h root other is_not shape e f (some root') (tree, inr (off, same), inl last) go =
    absurd (other last)
silent k s h root other is_not shape e f (some root') (tree, inr (off, same), inr b) go =
    subst
      (λ rs.
        Outcome (Registered shape rs) (λ t. IsTree t × Inserted (shape, e) rs (routes false t))
          (f root'))
      same (go root' tree b)

pub wildcards_none : wildcards [] ≡ 0
unfolding wildcards
wildcards_none = refl

pub insert_static :
    (read : Bytes) (h : Entry) (root : Tree)
    → InStatic root read
    → NamesFor 0 read h
    → Inserts skind read h root
insert_static read h root (inl (router, literals, at_slash, some_byte)) named =
    Inserts-first read h root router some_byte literals at_slash (λ is.
      let count : wildcards read ≡ 0 =
        ap wildcards (sym (append-nil read))
        ∙ wildcards_literals read [] literals
        ∙ wildcards_none in
      omega (arith, named is, count))
insert_static read h root (inr (tree, (x, y, eq, b, some_byte, literals))) named =
    subst (λ q. Inserts skind q h root) (sym eq)
      (Inserts-piece skind x y h root tree b (some_byte, literals)
        (subst (λ q. NamesFor 0 q h) eq named))

pub insert_param :
    (read : Bytes) (h : Entry) (root : Tree)
    → InName root read
    → NamesFor 0 read h
    → Inserts pkind read h root
insert_param read h root (tree, (x, eq, b)) named =
    subst (λ q. Inserts pkind q h root) (sym eq)
      (Inserts-piece pkind x (param_label ∷ []) h root tree b refl
        (subst (λ q. NamesFor 0 q h) eq named))

-- One byte more between wildcards.
pub static_more :
    (root : Tree) (read : Bytes) (c : ℕ)
    → IsLiteral c
    → InStatic root read
    → InStatic root (read ++ c ∷ [])
static_more root read c literal (inl (router, literals, at_slash, some_byte)) = inl (
  router,
  All-append IsLiteral read (c ∷ []) literals (literal, tt),
  label-append read (c ∷ []) some_byte ∙ at_slash,
  concat-ne-nil c read,
)
static_more root read c literal (inr (tree, (x, y, eq, b, some_byte, literals))) = inr (
  tree,
  (
    x,
    y ++ c ∷ [],
    ap (λ q. q ++ c ∷ []) eq ∙ append_assoc x y (c ∷ []),
    b,
    concat-ne-nil c y,
    All-append IsLiteral y (c ∷ []) literals (literal, tt),
  ),
)

pub no_names : (s : Bytes) (pnames : List Bytes) → NamesFor 0 s (without_handlers pnames)
no_names s pnames is = ground arith
