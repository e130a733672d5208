-- ===== src/Client/Retry/Laws.antt =====
-- What delays the policies give, and where the back-off leaves its range.
use hertz_study.Base.{
  ℕ, suc, ◌+◌, ◌-◌, ◌*◌, ◌%◌, ◌^◌, ◌≤◌, ◌<◌, ◌≡◌, refl, ap, ◌∙◌, true, false, ◌&&◌, List, [], ◌∷◌,
  Option, none, some, ltb, leb, if◌then◌else◌, arith, All,
}
use native.Mathlib.Nat.{pow-suc, one-le-pow}
use hertz_study.Base.Int.{ℤ, pos, negsuc, signed64}
use hertz_study.Client.Retry.{
  Config, DelayPolicyFunc, back_off_delay_policy, combine_loop, combine_delay, unsigned64, greater,
  delay, max_int64,
}

-- A delay that is not negative, and fits in an int64.
abbrev pub IsDelay : ℤ → Type 0
IsDelay d = (n : ℕ) × ((d ≡ pos n) × (n < 2 ^ 63))

abbrev pub magnitude : ℤ → ℕ
magnitude (pos n) = n
magnitude (negsuc n) = 0

abbrev pub sum_of : List DelayPolicyFunc → ℕ → Config → ℕ
sum_of [] attempts config = 0
sum_of (delay ∷ delays) attempts config =
    magnitude (delay attempts config) + sum_of delays attempts config

abbrev least : ℕ → ℕ → ℕ
least a b = if leb a b then a else b

combine_loop-least :
    (total : ℕ) (delays : List DelayPolicyFunc) (attempts : ℕ) (config : Config)
    → total ≤ max_int64
    → All (λ (p : DelayPolicyFunc). IsDelay (p attempts config)) delays
    → combine_loop total delays attempts config
      ≡ least (total + sum_of delays attempts config) max_int64
unfolding combine_loop unsigned64
combine_loop-least total [] attempts config fits _ = ground arith
combine_loop-least total (d ∷ delays) attempts config fits ((n, (is, small)), rest) =
    let sum = (total + n % 2 ^ 64) % 2 ^ 64 in
    let next = if ltb max_int64 sum then max_int64 else sum in
    let bound : next ≤ max_int64 = ground arith in
    rw is (combine_loop-least next delays attempts config bound rest ∙ ground arith)

-- `CombineDelay` of policies that give delays which are not negative gives their sum, or the largest
-- int64 if the sum is larger.
pub combine_delay_lem :
    (delays : List DelayPolicyFunc) (attempts : ℕ) (config : Config)
    → All (λ (p : DelayPolicyFunc). IsDelay (p attempts config)) delays
    → combine_delay delays attempts config
      ≡ pos (
          if leb (sum_of delays attempts config) (2 ^ 63 - 1)
          then sum_of delays attempts config
          else 2 ^ 63 - 1)
unfolding combine_delay
combine_delay_lem delays attempts config all =
    let loop = combine_loop-least 0 delays attempts config (omega arith) all in
    ap signed64 loop ∙ ground arith

greater_asym : (a b : ℤ) → greater a b ≡ true → greater b a ≡ false
unfolding greater
greater_asym (pos a) (pos b) h = ground arith
greater_asym (pos a) (negsuc b) h = refl
greater_asym (negsuc a) (pos b) h = ground (arith, h)
greater_asym (negsuc a) (negsuc b) h = ground arith

greater_irrefl : (a : ℤ) → greater a a ≡ false
unfolding greater
greater_irrefl (pos a) = ground arith
greater_irrefl (negsuc a) = ground arith

-- `Delay` never gives more than `MaxDelay` where that is set, whatever the policy.
delay_lem :
    (attempts : ℕ) (policy : Option DelayPolicyFunc) (config : Config)
    → greater config.max_delay (pos 0) ≡ true
    → greater (delay attempts policy config) config.max_delay ≡ false
unfolding delay
delay_lem attempts none config h = greater_asym config.max_delay (pos 0) h
delay_lem attempts (some policy) config h = ground (arith, h, greater_irrefl config.max_delay)

back_off-shifted :
    (attempts d : ℕ) (config : Config)
    → config.delay ≡ pos (suc d)
    → back_off_delay_policy attempts config
      ≡ signed64 ((suc d * 2 ^ (if ltb 62 attempts then 62 else attempts)) % 2 ^ 64)
unfolding back_off_delay_policy
back_off-shifted attempts d config h = rw (h, back_off_delay_policy) refl

-- The back-off of a positive delay is the delay shifted by the number of attempts, or by 62 if there
-- were more, if the result fits in an int64.
back_off_delay_policy_lem :
    (attempts d : ℕ) (config : Config)
    → config.delay ≡ pos (suc d)
    → suc d * 2 ^ (if ltb 62 attempts then 62 else attempts) < 2 ^ 63
    → back_off_delay_policy attempts config
      ≡ pos (suc d * 2 ^ (if ltb 62 attempts then 62 else attempts))
back_off_delay_policy_lem attempts d config h small =
    back_off-shifted attempts d config h ∙ ground (arith, small)

-- The bounds on a back-off that has not overflown.
abbrev capped : ℕ → ℕ → ℕ
capped max n = if ltb 0 max && ltb max n then max else n

delay-back_off :
    (attempts d max : ℕ) (config : Config)
    → config.delay ≡ pos (suc d)
    → config.max_delay ≡ pos max
    → attempts ≤ 62
    → suc d * 2 ^ attempts < 2 ^ 63
    → delay attempts (some back_off_delay_policy) config ≡ pos (capped max (suc d * 2 ^ attempts))
unfolding delay greater
delay-back_off attempts d max config h limit few fits =
    let in_range : ltb 62 attempts ≡ false = ground arith in
    let shifted : back_off_delay_policy attempts config ≡ pos (suc d * 2 ^ attempts) =
      back_off-shifted attempts d config h ∙ rw in_range (ground (arith, fits)) in
    rw (shifted, limit, delay) (ground arith)

-- The back-off from a positive delay: `Delay` for no attempt is `config.delay`, or `MaxDelay` where
-- that is set and less; and with each attempt, up to 62 of them and while the doubled delay still
-- fits in an int64, it doubles, or is `MaxDelay` where that is set and less than the double.
pub delay-back_off_doubles :
    (attempts d max : ℕ) (config : Config)
    → config.delay ≡ pos (suc d)
    → config.max_delay ≡ pos max
    → attempts < 62
    → suc d * 2 ^ suc attempts < 2 ^ 63
    → (delay 0 (some back_off_delay_policy) config
        ≡ pos (if ltb 0 max && ltb max (suc d) then max else suc d))
      × ((v : ℕ) × (delay attempts (some back_off_delay_policy) config ≡ pos v)
          × (delay (suc attempts) (some back_off_delay_policy) config
              ≡ pos (if ltb 0 max && ltb max (2 * v) then max else 2 * v)))
delay-back_off_doubles attempts d max config h limit few fits =
    let n = suc d * 2 ^ attempts in
    let twice : suc d * 2 ^ suc attempts ≡ 2 * n = rw (pow-suc 2 attempts) (grind arith) in
    let positive : 1 ≤ 2 ^ attempts = one-le-pow attempts 2 (omega arith) in
    let some_delay : suc d ≤ n = grind arith in
    let once : suc d * 2 ^ 0 ≡ suc d = omega arith in
    (
      delay-back_off 0 d max config h limit (omega arith)
            (omega (arith, once, twice, fits, some_delay))
          ∙ ap (λ (k : ℕ). pos (capped max k)) once,
      (
        capped max n,
        delay-back_off attempts d max config h limit (omega arith) (omega (arith, twice, fits)),
        delay-back_off (suc attempts) d max config h limit (omega arith) fits
            ∙ ground (arith, twice),
      ),
    )
