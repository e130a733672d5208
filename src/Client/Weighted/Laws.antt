-- ===== src/Client/Weighted/Laws.antt =====
-- Which instance the weighted random balancer picks.
use hertz_study.Base.{
  ℕ, zero, suc, ◌+◌, ◌-◌, ◌^◌, ◌≤◌, ◌<◌, ◌≡◌, refl, ap, ◌∙◌, true, List, [], ◌∷◌, ◌++◌, Option,
  none, some, ◌==◌, arith, ==_refl,
}
use hertz_study.Base.Int.{pos, negsuc, signed64}
use hertz_study.Client.Weighted.{
  Instance, WeightInfo, calc_weight_info, pick_loop, pick_from, Cache, store, pick,
}

-- The weight that counts: nothing below zero.
abbrev pub share : Instance → ℕ
share e = elim e.weight [ pos n ↦ n | negsuc n ↦ 0 ]

abbrev pub total : List Instance → ℕ
total [] = 0
total (e ∷ es) = share e + total es

sum-total : (es : List Instance) → total es < 2 ^ 63 → (calc_weight_info es).weight_sum ≡ total es
unfolding calc_weight_info
sum-total [] small = refl
sum-total (e ∷ es) small = ground (arith, sum-total es (omega arith))

-- The random number `n` falls to the instance that comes after shares of `n` in all.
pick_loop-share :
    (before : List Instance) (e : Instance) (after : List Instance) (n : ℕ)
    → total before ≤ n
    → n < total before + share e
    → pick_loop n
        (calc_weight_info (before ++ e ∷ after)).instances
        (calc_weight_info (before ++ e ∷ after)).entries
      ≡ some e
unfolding calc_weight_info pick_loop
pick_loop-share [] e after n from to = ground arith
pick_loop-share (b ∷ before) e after n from to =
    ground (arith, pick_loop-share before e after (n - share b) (omega arith) (omega arith))

total-append : (xs ys : List Instance) → total (xs ++ ys) ≡ total xs + total ys
total-append [] ys = omega arith
total-append (x ∷ xs) ys = omega (arith, total-append xs ys)

pick_from-sum :
    (intn : ℕ → ℕ) (info : WeightInfo) (t : ℕ)
    → info.weight_sum ≡ t
    → 0 < t
    → t < 2 ^ 63
    → pick_from intn info ≡ pick_loop (intn t) info.instances info.entries
unfolding pick_from
pick_from-sum intn info zero is some_weight small = absurd (omega arith)
pick_from-sum intn info (suc t) is some_weight small =
    let number : signed64 info.weight_sum ≡ pos (suc t) = ap signed64 is ∙ ground arith in
    rw (number, pick_from) refl

-- If the weights fit in an int, `Pick` on a key that is not cached asks for a random number below
-- their sum and gives the instance on whose share of that range the number falls, where an instance
-- has a share as large as its weight. It stores the weights, so that the next `Pick` of the key
-- takes its number from them, whatever instances it is given.
pub pick_lem :
    (intn : ℕ → ℕ) (key : ℕ) (before : List Instance) (e : Instance) (after later : List Instance)
    (cache : Cache)
    → total (before ++ e ∷ after) < 2 ^ 63
    → total before ≤ intn (total (before ++ e ∷ after))
    → intn (total (before ++ e ∷ after)) < total before + share e
    → cache key ≡ none
    → let (found, cache') = pick intn key (before ++ e ∷ after) cache in
      (found ≡ some e) × ((pick intn key later cache').0 ≡ some e)
unfolding pick store
pick_lem intn key before e after later cache small from to fresh =
    let es = before ++ e ∷ after in
    let size : total es ≡ total before + (share e + total after) =
      total-append before (e ∷ after) in
    let falls =
      pick_from-sum intn (calc_weight_info es) (total es) (sum-total es small) (omega (arith, size))
        small
      ∙ pick_loop-share before e after (intn (total es)) from to in
    let same : key == key ≡ true = ==_refl key in
    let first : pick intn key es cache
        ≡ (pick_from intn (calc_weight_info es), store key (some (calc_weight_info es)) cache) =
      rw (fresh, pick) refl in
    let next : (pick intn key later (store key (some (calc_weight_info es)) cache)).0
        ≡ pick_from intn (calc_weight_info es) =
      rw (same, pick, store) refl in
    (
      ap (λ (r : Option Instance × Cache). r.0) first ∙ falls,
      ap (λ (r : Option Instance × Cache). (pick intn key later r.1).0) first ∙ next ∙ falls,
    )
