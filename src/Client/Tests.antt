-- ===== src/Client/Tests.antt =====
-- Runs of the pkg/app/client model, and the theorems at inputs that meet their hypotheses.
use hertz_study.Base.{◌≡◌, refl, ℕ, ◌*◌, ◌&&◌, [], ◌∷◌, none, some, ltb, if◌then◌else◌, arith}
use hertz_study.Base.Int.{pos}
use hertz_study.Client.Retry.{
  Config, back_off_delay_policy, fixed_delay_policy, combine_delay, delay, greater,
}
use hertz_study.Client.Retry.Laws.{combine_delay_lem, delay-back_off_doubles}
use hertz_study.Client.Weighted.{Instance, pick, Cache}
use hertz_study.Client.Weighted.Laws.{pick_lem}

abbrev config : Config
config = record {
  max_attempt_times = 3;
  delay = pos 100000000;
  max_delay = pos 1000000000;
  max_jitter = pos 0;
}

combine_delay_lem_example :
    combine_delay (fixed_delay_policy ∷ fixed_delay_policy ∷ []) 1 config ≡ pos 200000000
unfolding fixed_delay_policy
combine_delay_lem_example =
    combine_delay_lem (fixed_delay_policy ∷ fixed_delay_policy ∷ []) 1 config
      ((100000000, (refl, omega arith)), ((100000000, (refl, omega arith)), tt))

-- A tenth of a second is doubled 56 times.
back_off_vanishes : delay 56 (some back_off_delay_policy) config ≡ pos 0
unfolding delay back_off_delay_policy greater
back_off_vanishes = refl

delay-back_off_doubles_example :
    (delay 0 (some back_off_delay_policy) config
      ≡ pos (if ltb 0 1000000000 && ltb 1000000000 100000000 then 1000000000 else 100000000))
    × ((v : ℕ) × (delay 3 (some back_off_delay_policy) config ≡ pos v)
        × (delay 4 (some back_off_delay_policy) config
            ≡ pos (if ltb 0 1000000000 && ltb 1000000000 (2 * v) then 1000000000 else 2 * v)))
delay-back_off_doubles_example =
    delay-back_off_doubles 3 99999999 1000000000 config refl refl (omega arith) (omega arith)

abbrev light : Instance
light = record { address = 1; weight = pos 2 }

abbrev heavy : Instance
heavy = record { address = 2; weight = pos 5 }

abbrev no_cache : Cache
no_cache key = none

pick_lem_example :
    ((pick (λ _. 4) 7 (light ∷ heavy ∷ []) no_cache).0 ≡ some heavy)
    × ((pick (λ _. 4) 7 [] (pick (λ _. 4) 7 (light ∷ heavy ∷ []) no_cache).1).0 ≡ some heavy)
pick_lem_example =
    pick_lem (λ _. 4) 7 (light ∷ []) heavy [] [] no_cache (omega arith) (omega arith) (omega arith)
      refl
