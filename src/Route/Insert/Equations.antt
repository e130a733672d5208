-- ===== src/Route/Insert/Equations.antt =====
-- What one pass of the loop of `insert` of pkg/route/tree.go does in each case.
use hertz_study.Base.{
  ◌≡◌, ◌≢◌, refl, sym, ap, ap₂, ◌∙◌, ◌⊎◌, inl, inr, ℕ, suc, true, false, [], ◌∷◌, ◌++◌, Option,
  none, some, Bytes, length, take, drop, ltb, ◌==◌, ==_refl, ==_iff, Bool-cases, arith,
  length-append, take-length, drop-length, append-nil,
}
use hertz_study.Route.Tree.{Kind, Kind.skind, Entry, no_entry, Tree, Tree.absent, Tree.node}
use hertz_study.Route.Insert.{
  Way, lcp_len, new_leaf, set_entry, find_child_with_label, go_deeper, insert,
}

lcp_len_read : (p s : Bytes) → lcp_len (p ++ s) p ≡ length p
unfolding lcp_len
lcp_len_read [] [] = refl
lcp_len_read [] (x ∷ s) = refl
lcp_len_read (x ∷ p) s = rw (==_refl x) (ap suc (lcp_len_read p s))

lcp_len_within : (s q : Bytes) → lcp_len s (s ++ q) ≡ length s
unfolding lcp_len
lcp_len_within [] q = refl
lcp_len_within (x ∷ s) q = rw (==_refl x) (ap suc (lcp_len_within s q))

lcp_len_parts :
    (c s p : Bytes) (x y : ℕ) → (x == y) ≡ false → lcp_len (c ++ x ∷ s) (c ++ y ∷ p) ≡ length c
unfolding lcp_len
lcp_len_parts [] s p x y differ = rw differ refl
lcp_len_parts (z ∷ c) s p x y differ = rw (==_refl z) (ap suc (lcp_len_parts c s p x y differ))

-- How a path stands to a prefix.
abbrev pub Parts : Bytes → Bytes → Type 0
Parts s p =
    ((s' : Bytes) × (s ≡ p ++ s'))
    ⊎ (((y : ℕ) × (p' : Bytes) × (p ≡ s ++ y ∷ p'))
        ⊎ ((c : Bytes) × (x : ℕ) × (s' : Bytes) × (y : ℕ) × (p' : Bytes) × ((x == y) ≡ false)
            × (s ≡ c ++ x ∷ s')
            × (p ≡ c ++ y ∷ p')))

Parts-cons : (x y : ℕ) (s p : Bytes) → x ≡ y → Parts s p → Parts (x ∷ s) (y ∷ p)
Parts-cons x y s p same (inl (s', eq)) = inl (s', ap₂ ◌∷◌ same eq)
Parts-cons x y s p same (inr (inl (z, p', eq))) = inr (inl (z, p', ap₂ ◌∷◌ (sym same) eq))
Parts-cons x y s p same (inr (inr (c, u, s', v, p', differ, eq, eq'))) =
    inr (inr (x ∷ c, u, s', v, p', differ, ap (◌∷◌ x) eq, ap₂ ◌∷◌ (sym same) eq'))

pub parts : (s p : Bytes) → Parts s p
parts s [] = inl (s, refl)
parts [] (y ∷ p) = inr (inl (y, p, refl))
parts (x ∷ s) (y ∷ p) = elim (Bool-cases (x == y)) [
  | inr differ ↦ inr (inr ([], x, s, y, p, differ, refl, refl))
  | inl same ↦ Parts-cons x y s p ((==_iff x y).0 same) (parts s p)
]

-- The path goes on after the prefix.
insert_deeper :
    (t k : Kind) (p : Bytes) (e h : Entry) (kids pc ac next : Tree) (l : ℕ) (s : Bytes)
    → p ≢ []
    → insert false t (p ++ l ∷ s) h (node k p e kids pc ac next)
      ≡ go_deeper
          (find_child_with_label l kids pc ac)
          (insert true t (l ∷ s) h kids)
          (insert false t (l ∷ s) h pc)
          (insert false t (l ∷ s) h ac)
          t
          (l ∷ s)
          h
          (node k p e kids pc ac next)
unfolding insert
insert_deeper t k [] e h kids pc ac next l s some_byte = absurd (some_byte refl)
insert_deeper t k (x ∷ p) e h kids pc ac next l s some_byte =
    let n = length p in
    let same_bytes : ltb (suc n) (suc n) ≡ false = ground arith in
    let more : ltb (suc n) (length ((x ∷ p) ++ l ∷ s)) ≡ true =
      ground (arith, length-append (x ∷ p) (l ∷ s)) in
    let positive : (suc n == 0) ≡ false = ground arith in
    rw (lcp_len_read (x ∷ p) (l ∷ s), drop-length (x ∷ p) (l ∷ s), positive, same_bytes, more) refl

-- Down a way from a node.
abbrev descend : Kind → Bytes → Entry → Tree → Way → Option Tree
descend t s h absent way = none
descend t s h (node k p e kids pc ac next) way =
    go_deeper way (insert true t s h kids) (insert false t s h pc) (insert false t s h ac) t s h
      (node k p e kids pc ac next)

pub insert_way :
    (t k : Kind) (p : Bytes) (e h : Entry) (kids pc ac next : Tree) (l : ℕ) (s : Bytes) (way : Way)
    → p ≢ []
    → find_child_with_label l kids pc ac ≡ way
    → insert false t (p ++ l ∷ s) h (node k p e kids pc ac next)
      ≡ descend t (l ∷ s) h (node k p e kids pc ac next) way
insert_way t k p e h kids pc ac next l s way some_byte eq =
    insert_deeper t k p e h kids pc ac next l s some_byte
    ∙ ap (descend t (l ∷ s) h (node k p e kids pc ac next)) eq

-- The path ends with the prefix.
pub insert_same :
    (t k : Kind) (p : Bytes) (e h : Entry) (kids pc ac next : Tree)
    → p ≢ []
    → insert false t p h (node k p e kids pc ac next) ≡ set_entry h (node k p e kids pc ac next)
unfolding insert
insert_same t k [] e h kids pc ac next some_byte = absurd (some_byte refl)
insert_same t k (x ∷ p) e h kids pc ac next some_byte =
    let n = length p in
    let at_end : lcp_len (x ∷ p) (x ∷ p) ≡ suc n =
      ap (λ s. lcp_len s (x ∷ p)) (sym (append-nil (x ∷ p))) ∙ lcp_len_read (x ∷ p) [] in
    let same_bytes : ltb (suc n) (suc n) ≡ false = ground arith in
    let positive : (suc n == 0) ≡ false = ground arith in rw (at_end, positive, same_bytes) refl

-- The path ends within the prefix.
pub insert_above :
    (t k : Kind) (s p : Bytes) (y : ℕ) (e h : Entry) (kids pc ac next : Tree)
    → s ≢ []
    → insert false t s h (node k (s ++ y ∷ p) e kids pc ac next)
      ≡ some (node t s h (node k (y ∷ p) e kids pc ac absent) absent absent next)
unfolding insert
insert_above t k [] p y e h kids pc ac next some_byte = absurd (some_byte refl)
insert_above t k (x ∷ s) p y e h kids pc ac next some_byte =
    let n = length s in
    let shorter : ltb (suc n) (length ((x ∷ s) ++ y ∷ p)) ≡ true =
      ground (arith, length-append (x ∷ s) (y ∷ p)) in
    let same_bytes : (suc n == suc n) ≡ true = ==_refl (suc n) in
    let positive : (suc n == 0) ≡ false = ground arith in
    let low : drop (suc n) ((x ∷ s) ++ y ∷ p) ≡ y ∷ p = drop-length (x ∷ s) (y ∷ p) in
    let high : take (suc n) ((x ∷ s) ++ y ∷ p) ≡ x ∷ s = take-length (x ∷ s) (y ∷ p) in
    rw (lcp_len_within (x ∷ s) (y ∷ p), positive, shorter, same_bytes, low, high) refl

-- The path and the prefix part.
pub insert_fork :
    (t k : Kind) (c s p : Bytes) (x y : ℕ) (e h : Entry) (kids pc ac next : Tree)
    → c ≢ []
    → (x == y) ≡ false
    → insert false t (c ++ x ∷ s) h (node k (c ++ y ∷ p) e kids pc ac next)
      ≡ some (
          node skind c no_entry
            (node k (y ∷ p) e kids pc ac (new_leaf t (x ∷ s) h))
            absent
            absent
            next)
unfolding insert
insert_fork t k [] s p x y e h kids pc ac next some_byte differ = absurd (some_byte refl)
insert_fork t k (z ∷ c) s p x y e h kids pc ac next some_byte differ =
    let n = length c in
    let shorter : ltb (suc n) (length ((z ∷ c) ++ y ∷ p)) ≡ true =
      ground (arith, length-append (z ∷ c) (y ∷ p)) in
    let longer : (suc n == length ((z ∷ c) ++ x ∷ s)) ≡ false =
      ground (arith, length-append (z ∷ c) (x ∷ s)) in
    let positive : (suc n == 0) ≡ false = ground arith in
    let low : drop (suc n) ((z ∷ c) ++ y ∷ p) ≡ y ∷ p = drop-length (z ∷ c) (y ∷ p) in
    let high : take (suc n) ((z ∷ c) ++ y ∷ p) ≡ z ∷ c = take-length (z ∷ c) (y ∷ p) in
    let rest : drop (suc n) ((z ∷ c) ++ x ∷ s) ≡ x ∷ s = drop-length (z ∷ c) (x ∷ s) in
    rw (lcp_len_parts (z ∷ c) s p x y differ, positive, shorter, longer, low, high, rest) refl
