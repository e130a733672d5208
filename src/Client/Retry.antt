-- ===== src/Client/Retry.antt =====
-- The delay policies of pkg/app/client/retry/retry.go. A `time.Duration` is an int64. `Config` keeps
-- the delays; its policy is an argument of its own, since a policy takes the config.
pub mod Laws
use hertz_study.Base.{
  ℕ, zero, suc, ◌+◌, ◌-◌, ◌*◌, ◌%◌, ◌^◌, Bool, true, false, ◌&&◌, List, [], ◌∷◌, Option, none, some,
  ltb, leb, if◌then◌else◌,
}
use hertz_study.Base.Int.{ℤ, pos, negsuc, signed64}

pub record Config : Type 0 where
  pub max_attempt_times : ℕ
  pub delay : ℤ
  pub max_delay : ℤ
  pub max_jitter : ℤ

-- A policy also takes the error of the last attempt, which none of these look at.
abbrev pub DelayPolicyFunc : Type 0
DelayPolicyFunc = ℕ → Config → ℤ

unfoldable pub default_delay_policy : DelayPolicyFunc
default_delay_policy attempts config = pos 0

unfoldable pub fixed_delay_policy : DelayPolicyFunc
fixed_delay_policy attempts config = config.delay

-- `int63n` is `fastrand.Int63n`.
unfoldable pub random_delay_policy : (ℕ → ℕ) → DelayPolicyFunc
random_delay_policy int63n attempts config = elim config.max_jitter [
  | pos zero ↦ pos 0
  | pos (suc n) ↦ pos (int63n (suc n))
  | negsuc n ↦ pos 0
]

abbrev pub max_shift : ℕ
max_shift = 62

-- `Delay << attempts`, as a 64-bit word.
unfoldable pub back_off_delay_policy : DelayPolicyFunc
back_off_delay_policy attempts config =
    let shift = if ltb max_shift attempts then max_shift else attempts in
    elim config.delay [
      | pos zero ↦ pos 0
      | pos (suc d) ↦ signed64 ((suc d * 2 ^ shift) % 2 ^ 64)
      | negsuc d ↦ pos 0
    ]

-- `uint64(d)`
unfoldable pub unsigned64 : ℤ → ℕ
unsigned64 (pos n) = n % 2 ^ 64
unsigned64 (negsuc n) = 2 ^ 64 - 1 - n % 2 ^ 64

abbrev pub max_int64 : ℕ
max_int64 = 2 ^ 63 - 1

-- The loop of `CombineDelay`.
unfoldable pub combine_loop : ℕ → List DelayPolicyFunc → ℕ → Config → ℕ
combine_loop total [] attempts config = total
combine_loop total (delay ∷ delays) attempts config =
    let sum = (total + unsigned64 (delay attempts config)) % 2 ^ 64 in
    combine_loop (if ltb max_int64 sum then max_int64 else sum) delays attempts config

unfoldable pub combine_delay : List DelayPolicyFunc → DelayPolicyFunc
combine_delay delays attempts config = signed64 (combine_loop 0 delays attempts config)

-- `a > b` on ints.
unfoldable pub greater : ℤ → ℤ → Bool
greater (pos a) (pos b) = ltb b a
greater (pos a) (negsuc b) = true
greater (negsuc a) (pos b) = false
greater (negsuc a) (negsuc b) = ltb a b

unfoldable pub delay : ℕ → Option DelayPolicyFunc → Config → ℤ
delay attempts none config = pos 0
delay attempts (some policy) config =
    let delay_time = policy attempts config in
    if greater config.max_delay (pos 0) && greater delay_time config.max_delay
    then config.max_delay
    else delay_time
