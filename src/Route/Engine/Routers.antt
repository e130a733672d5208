-- ===== src/Route/Engine/Routers.antt =====
-- The list of the routers of pkg/route/engine.go.
use hertz_study.Base.{
  ◌≡◌, ◌≢◌, refl, sym, ap, subst, ◌∙◌, inl, inr, ℕ, ◌≤◌, false, [], ◌∷◌, ◌++◌, none, some, Bytes,
  bytes_equal, bytes_equal_iff, bytes_equal_refl, if◌then◌else◌, Bool-cases, arith,
}
use hertz_study.Route.Tree.{Tree}
use hertz_study.Route.AddRoute.Router.{IsTree, new_root}
use hertz_study.Route.Engine.{MethodTrees, get, set_root, router_or_new, with_router, larger}
use hertz_study.Route.Engine.Promise.{HaveTrees, some_is_not}

pub other_method : (m method : Bytes) → m ≢ method → bytes_equal method m ≡ false
other_method m method other = elim (Bool-cases (bytes_equal method m)) [
  | inl same ↦ absurd (other (sym ((bytes_equal_iff method m).0 same)))
  | inr off ↦ off
]

-- With a router for the method.
pub set_root-HaveTrees :
    (trees : MethodTrees) (method : Bytes) (root : Tree)
    → HaveTrees trees
    → IsTree root
    → HaveTrees (set_root trees method root)
unfolding set_root
set_root-HaveTrees [] method root have tree = tt
set_root-HaveTrees ((m, old) ∷ trees) method root (here, have) tree =
    elim (Bool-cases (bytes_equal m method)) [
      | inl is ↦ rw is (tree, have)
      | inr off ↦ rw off (here, set_root-HaveTrees trees method root have tree)
    ]

pub get-set_root :
    (trees : MethodTrees) (method : Bytes) (old root : Tree)
    → get trees method ≡ some old
    → get (set_root trees method root) method ≡ some root
unfolding get set_root
get-set_root [] method old root has = ground arith
get-set_root ((m, t) ∷ trees) method old root has = elim (Bool-cases (bytes_equal m method)) [
  | inl is ↦ rw (is, is) refl
  | inr off ↦
      let has' = sym (ap (λ b. if b then some t else get trees method) off) ∙ has in
      rw (off, off) (get-set_root trees method old root has')
]

pub get-set_root_other :
    (trees : MethodTrees) (method m : Bytes) (root : Tree)
    → m ≢ method
    → get (set_root trees method root) m ≡ get trees m
unfolding get set_root
get-set_root_other [] method m root other = refl
get-set_root_other ((m', t) ∷ trees) method m root other =
    elim (Bool-cases (bytes_equal m' method)) [
      | inl is ↦
          let not_m : bytes_equal m' m ≡ false =
            subst (λ x. bytes_equal x m ≡ false) (sym ((bytes_equal_iff m' method).0 is))
              (other_method m method other) in
          rw (is, not_m) refl
      | inr off ↦ rw off (
          ap (λ rest. if bytes_equal m' m then some t else rest)
            (get-set_root_other trees method m root other))
    ]

-- With a new router.
pub set_root-concat :
    (trees : MethodTrees) (method : Bytes) (old root : Tree)
    → get trees method ≡ none
    → set_root (trees ++ (method, old) ∷ []) method root ≡ trees ++ (method, root) ∷ []
unfolding get set_root
set_root-concat [] method old root none_has = rw (bytes_equal_refl method) refl
set_root-concat ((m, t) ∷ trees) method old root none_has =
    elim (Bool-cases (bytes_equal m method)) [
      | inl is ↦
          absurd
            (some_is_not t (sym (ap (λ b. if b then some t else get trees method) is) ∙ none_has))
      | inr off ↦
          let rest = sym (ap (λ b. if b then some t else get trees method) off) ∙ none_has in
          rw off (ap (◌∷◌ (m, t)) (set_root-concat trees method old root rest))
    ]

pub get-concat :
    (trees : MethodTrees) (method : Bytes) (root : Tree)
    → get trees method ≡ none
    → get (trees ++ (method, root) ∷ []) method ≡ some root
unfolding get
get-concat [] method root none_has = rw (bytes_equal_refl method) refl
get-concat ((m, t) ∷ trees) method root none_has = elim (Bool-cases (bytes_equal m method)) [
  | inl is ↦
      absurd (some_is_not t (sym (ap (λ b. if b then some t else get trees method) is) ∙ none_has))
  | inr off ↦ rw off (
      get-concat trees method root
        (sym (ap (λ b. if b then some t else get trees method) off) ∙ none_has))
]

pub get-concat_other :
    (trees : MethodTrees) (method m : Bytes) (root : Tree)
    → m ≢ method
    → get (trees ++ (method, root) ∷ []) m ≡ get trees m
unfolding get
get-concat_other [] method m root other = rw (other_method m method other) refl
get-concat_other ((m', t) ∷ trees) method m root other =
    ap (λ rest. if bytes_equal m' m then some t else rest)
      (get-concat_other trees method m root other)

pub larger_lem : (n max : ℕ) → (n ≤ larger n max) × (max ≤ larger n max)
larger_lem n max = ground arith

pub with_router-new :
    (trees : MethodTrees) (method : Bytes)
    → get trees method ≡ none
    → with_router trees method ≡ (trees ++ (method, new_root) ∷ [], new_root)
unfolding with_router
with_router-new trees method none_has = ap (λ o. router_or_new o trees method) none_has

pub with_router-old :
    (trees : MethodTrees) (method : Bytes) (root : Tree)
    → get trees method ≡ some root
    → with_router trees method ≡ (trees, root)
unfolding with_router
with_router-old trees method root has = ap (λ o. router_or_new o trees method) has
