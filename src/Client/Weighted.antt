-- ===== src/Client/Weighted.antt =====
-- The weighted random balancer of pkg/app/client/loadbalance/weight_random.go. An instance is its
-- name and its weight; `intn` is what `fastrand.Intn` gave. Sums of weights are ints, in 64 bits.
pub mod Laws
use hertz_study.Base.{
  ℕ, zero, suc, ◌+◌, ◌-◌, ◌*◌, ◌%◌, ◌^◌, Bool, true, false, List, [], ◌∷◌, Option, none, some, ltb,
  leb, ◌==◌, if◌then◌else◌,
}
use hertz_study.Base.Int.{ℤ, pos, negsuc, signed64}

pub record Instance : Type 0 where
  pub address : ℕ
  pub weight : ℤ

-- `weightSum` as its 64-bit pattern; `entries` are the weights of `instances`.
pub record WeightInfo : Type 0 where
  pub instances : List Instance
  pub entries : List ℕ
  pub weight_sum : ℕ

abbrev no_weights : WeightInfo
no_weights = record { instances = []; entries = []; weight_sum = 0 }

-- One more instance of a positive weight in front.
abbrev with_instance : Instance → ℕ → WeightInfo → WeightInfo
with_instance e w info = record {
  instances = e ∷ info.instances;
  entries = w ∷ info.entries;
  weight_sum = (w + info.weight_sum) % 2 ^ 64;
}

unfoldable pub calc_weight_info : List Instance → WeightInfo
calc_weight_info [] = no_weights
calc_weight_info (e ∷ es) =
    let info = calc_weight_info es in
    elim e.weight [ pos zero ↦ info | pos (suc n) ↦ with_instance e (suc n) info | negsuc n ↦ info ]

-- The loop of `Pick`; `weight` turns negative at the instance that is picked.
unfoldable pub pick_loop : ℕ → List Instance → List ℕ → Option Instance
pick_loop weight [] entries = none
pick_loop weight (e ∷ es) [] = none
pick_loop weight (e ∷ es) (entry ∷ entries) =
    if ltb weight entry then some e else pick_loop (weight - entry) es entries

-- `Pick` with the cached weights. `intn` is asked only for a positive sum.
unfoldable pub pick_from : (ℕ → ℕ) → WeightInfo → Option Instance
pick_from intn info = elim (signed64 info.weight_sum) [
  | pos zero ↦ none
  | pos (suc n) ↦ pick_loop (intn (suc n)) info.instances info.entries
  | negsuc n ↦ none
]

-- The cache `cachedWeightInfo`, from keys to weights.
abbrev pub Cache : Type 0
Cache = ℕ → Option WeightInfo

unfoldable pub store : ℕ → Option WeightInfo → Cache → Cache
store key info cache k = if k == key then info else cache k

unfoldable pub pick : (ℕ → ℕ) → ℕ → List Instance → Cache → Option Instance × Cache
pick intn key instances cache = elim (cache key) [
  | some info ↦ (pick_from intn info, cache)
  | none ↦
      let info = calc_weight_info instances in (pick_from intn info, store key (some info) cache)
]

unfoldable pub rebalance : ℕ → List Instance → Cache → Cache
rebalance key instances cache = store key (some (calc_weight_info instances)) cache

unfoldable pub delete : ℕ → Cache → Cache
delete key cache = store key none cache
