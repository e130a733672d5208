-- ===== src/Route/Find/Laws.antt =====
-- The loop of `find` of pkg/route/tree.go computes the recursive search of Route.Seek.
use hertz_study.Base.{
  ◌≡◌, refl, sym, ap, ◌∙◌, ℕ, zero, suc, ◌+◌, ◌≤◌, Bool, true, List, [], ◌∷◌, ◌++◌, none, some,
  Bytes, length, drop, set, ltb, arith,
}
use hertz_study.Route.Tree.{Kind, Kind.skind, Kind.pkind, Tree, Tree.absent, Tree.node}
use hertz_study.Route.Text.{until_slash, from_slash}
use hertz_study.Route.Seek.{Answer, or_else}
use hertz_study.Route.Find.{
  Cursor, Place, Step, Step.go, Step.stop, Found, found_at, nothing_found, pop, last_of,
  set_last_named, step, run,
}

-- An any child below `n` values: a node whose entry names one value more.
abbrev pub AnyShaped : ℕ → Tree → Type 0
AnyShaped n absent = Unit
AnyShaped n (node k p e kids pc ac next) = length e.pnames ≡ suc n

-- A tree that the search reaches with `n` values: the children of a node are static, and its
-- `paramChild` and `anyChild` take one value more.
unfoldable pub Shaped : ℕ → Kind → Tree → Type 0
Shaped n want absent = Unit
Shaped n want (node k p e kids pc ac next) =
    (k ≡ want) × Shaped n skind kids × Shaped (suc n) pkind pc × AnyShaped n ac × Shaped n want next

abbrev pub answer_value : Answer → Found
answer_value (some (e, vs), tsr) = found_at e e.handlers vs tsr
answer_value (none, tsr) = nothing_found [] tsr

abbrev pub at : Tree → List Tree → Bytes → ℕ → List Bytes → Bool → Cursor
at t above s i vs tsr = record {
  cn = t;
  parents = above;
  search = s;
  search_index = i;
  values = vs;
  tsr = tsr;
}

-- The lemmas on lists.
pub pop-concat : (vs : List Bytes) (v : Bytes) → pop (vs ++ v ∷ []) ≡ vs
unfolding pop
pop-concat [] v = refl
pop-concat (x ∷ []) v = refl
pop-concat (x ∷ y ∷ vs) v = ap (◌∷◌ x) (pop-concat (y ∷ vs) v)

pub last_of-concat : (vs : List Bytes) (v : Bytes) → last_of (vs ++ v ∷ []) ≡ some v
unfolding last_of
last_of-concat [] v = refl
last_of-concat (x ∷ []) v = refl
last_of-concat (x ∷ y ∷ vs) v = last_of-concat (y ∷ vs) v

set-concat : (vs : List Bytes) (u v : Bytes) → set (vs ++ u ∷ []) (length vs) v ≡ vs ++ v ∷ []
set-concat [] u v = refl
set-concat (x ∷ vs) u v = ap (◌∷◌ x) (set-concat vs u v)

drop_nil : (n : ℕ) → drop {A = ℕ} n [] ≡ []
drop_nil zero = refl
drop_nil (suc n) = refl

pub drop-add : (i n : ℕ) (s : Bytes) → drop (i + n) s ≡ drop n (drop i s)
drop-add zero n s = let h : 0 + n ≡ n = omega arith in ap (λ k. drop k s) h
drop-add (suc i) n [] =
    let h : suc i + n ≡ suc (i + n) = omega arith in ap (λ k. drop k []) h ∙ sym (drop_nil n)
drop-add (suc i) n (x ∷ s) =
    let h : suc i + n ≡ suc (i + n) = omega arith in ap (λ k. drop k (x ∷ s)) h ∙ drop-add i n s

pub drop-until_slash : (s : Bytes) → drop (length (until_slash s)) s ≡ from_slash s
unfolding until_slash from_slash
drop-until_slash [] = refl
drop-until_slash (c ∷ s) = ground (arith, drop-until_slash s)

pub set_last_named_lem :
    (value_of : Bytes → Bytes) (ns vs : List Bytes) (v : Bytes)
    → length ns ≡ suc (length vs)
    → set_last_named value_of ns vs v ≡ some (vs ++ v ∷ [])
unfolding set_last_named
set_last_named_lem value_of [] vs v h = ground arith
set_last_named_lem value_of (n ∷ ns) vs v h =
    let k : length ns ≡ length vs = omega arith in
    let inside : ltb (length ns) (length vs + 1) ≡ true = ground arith in
    rw (inside, k, set-concat vs [] v)

module _ (value_of : Bytes → Bytes) (path : Bytes) where
  -- The steps from `x` end with `r` where the fuel suffices.
  abbrev pub Gives : Step → Found → Type 0
  Gives x r = (n : ℕ) × ((m : ℕ) → n ≤ m → run value_of path m x ≡ some r)

  run_stop : (r : Found) (m : ℕ) → run value_of path m (stop r) ≡ some r
  unfolding run
  run_stop r zero = refl
  run_stop r (suc m) = refl

  run_go :
      (place : Place) (c : Cursor) (r : Found) (n : ℕ)
      → ((m : ℕ) → n ≤ m → run value_of path m (step value_of path place c) ≡ some r)
      → (m : ℕ) → suc n ≤ m
      → run value_of path m (go place c) ≡ some r
  unfolding run
  run_go place c r n h zero le = ground arith
  run_go place c r n h (suc m) le = h m (omega arith)

  pub stop-Gives : (r : Found) → Gives (stop r) r
  stop-Gives r = (0, λ m le. run_stop r m)

  step-Gives :
      (place : Place) (c : Cursor) (r : Found)
      → Gives (step value_of path place c) r
      → Gives (go place c) r
  step-Gives place c r (n, h) = (suc n, run_go place c r n h)

  -- The steps from `x` find what the answer has, or else go on at `k`.
  abbrev pub Goes : Step → Answer → (Bool → Step) → Type 0
  Goes x (some (e, vs), tsr) k = Gives x (found_at e e.handlers vs tsr)
  Goes x (none, tsr) k = (r : Found) → Gives (k tsr) r → Gives x r

  Goes-map :
      (x : Step) (a : Answer) (y : Step) (l : Bool → Step)
      → ((r : Found) → Gives y r → Gives x r)
      → Goes y a l
      → Goes x a l
  Goes-map x (some (e, vs), tsr) y l h g = h _ g
  Goes-map x (none, tsr) y l h g = λ r k. h r (g r k)

  pub Goes-or_else :
      (x : Step) (a : Answer) (k : Bool → Step) (f : Bool → Answer) (l : Bool → Step)
      → Goes x a k
      → ((t : Bool) → Goes (k t) (f t) l)
      → Goes x (or_else a f) l
  Goes-or_else x (some (e, vs), tsr) k f l h g = h
  Goes-or_else x (none, tsr) k f l h g = Goes-map x (f tsr) (k tsr) l h (g tsr)

  pub Goes-step :
      (place : Place) (c : Cursor) (a : Answer) (k : Bool → Step)
      → Goes (step value_of path place c) a k
      → Goes (go place c) a k
  Goes-step place c (some (e, vs), tsr) k h = step-Gives place c _ h
  Goes-step place c (none, tsr) k h = λ r g. step-Gives place c r (h r g)
