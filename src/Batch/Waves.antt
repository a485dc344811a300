-- ===== src/Batch/Waves.antt =====
-- errander/agent/graph.py: the waves of a rolling update, with the nodes prepare_waves, dispatch_wave
-- and check_wave_health and the routes between them.
pub mod Partition
pub mod Rollout
pub mod Canary
use errander_ai.Common.{
  ℕ, zero, suc, ◌+◌, ◌*◌, ◌/◌, Bool, true, false, ◌&&◌, Option, none, some, List, [], ◌∷◌, ◌++◌,
  ltb, leb, ◌==◌, if◌then◌else◌, length, take, drop, get_elem?,
}

-- `max(1, math.ceil(n * percentage / 100))`. The quotient of numbers of this size is rounded to a
-- float on the same side of every integer.
abbrev pub wave_size : ℕ → ℕ → ℕ
wave_size n percentage = let size = (n * percentage + 99) / 100 in if leb 1 size then size else 1

module _ {T : Type 0} where
  -- `[targets[i:i + w] for i in range(0, len(targets), w)]`, with one round for each slice.
  unfoldable pub slices : ℕ → ℕ → List T → List (List T)
  slices rounds w [] = []
  slices zero w (t ∷ ts) = []
  slices (suc rounds) w (t ∷ ts) = take w (t ∷ ts) ∷ slices rounds w (drop w (t ∷ ts))

  -- `_partition_into_waves`.
  unfoldable pub partition_into_waves : List T → ℕ → List (List T)
  unfolding slices
  partition_into_waves [] percentage = []
  partition_into_waves (t ∷ ts) percentage =
      if leb 100 percentage
      then (t ∷ ts) ∷ []
      else slices (length (t ∷ ts)) (wave_size (length (t ∷ ts)) percentage) (t ∷ ts)

-- The fields of the state that the waves use. A threshold is the fraction `num / den`.
pub record WaveState (T : Type 0) : Type 0 where
  pub healthy_targets : List T
  pub rolling_update_percentage : ℕ
  pub canary_enabled : Bool
  pub threshold_num : ℕ
  pub threshold_den : ℕ
  pub waves : List (List T)
  pub current_wave : ℕ
  pub total_waves : ℕ
  pub wave_aborted : Bool
  pub canary_passed : Option Bool

-- What the health check of a VM gives: a result, good or bad, or an exception.
pub data Probe : Type 0 where
  healthy unhealthy raised : Probe

abbrev pub fails : Probe → Bool
fails healthy = false
fails unhealthy = true
fails raised = true

-- `failure_rate > threshold`; the rate of an empty wave is 0.
abbrev pub over_threshold : ℕ → ℕ → ℕ → ℕ → Bool
over_threshold num den failures total = ltb (num * total) (failures * den)

module _ {T : Type 0} where
  abbrev pub waves_of : Bool → ℕ → List T → List (List T)
  waves_of true percentage (t ∷ u ∷ ts) = (t ∷ []) ∷ partition_into_waves (u ∷ ts) percentage
  waves_of _ percentage ts = partition_into_waves ts percentage

  -- `prepare_waves_node`.
  unfoldable pub prepare_waves : WaveState T → WaveState T
  unfolding partition_into_waves
  prepare_waves s =
      let waves = waves_of s.canary_enabled s.rolling_update_percentage s.healthy_targets in
      record s {
        waves = waves;
        current_wave = 0;
        total_waves = length waves;
        wave_aborted = false;
        canary_passed = none;
      }

  -- The loop over the wave: `check` is the health check of a VM, with the command of the canary or
  -- without.
  unfoldable pub count_failures : (T → Probe) → List T → ℕ
  count_failures check [] = 0
  count_failures check (t ∷ ts) =
      let rest = count_failures check ts in if fails (check t) then suc rest else rest

  -- `check_wave_health_node`. The Boolean that `check` is given says whether the canary's command runs.
  unfoldable pub check_wave_health : (Bool → T → Probe) → WaveState T → WaveState T
  unfolding count_failures
  check_wave_health check s =
      let is_canary_wave = s.canary_enabled && s.current_wave == 0 in
      elim (get_elem? s.waves s.current_wave) [
        | none ↦ record s { wave_aborted = false }
        | some targets ↦
            let failures = count_failures (check is_canary_wave) targets in
            let next = suc s.current_wave in
            if is_canary_wave
            then (if ltb 0 failures
                then record s {
                  wave_aborted = true;
                  canary_passed = some false;
                  current_wave = next;
                }
                else record s { canary_passed = some true; current_wave = next })
            else (if over_threshold s.threshold_num s.threshold_den failures (length targets)
                then record s { wave_aborted = true; current_wave = next }
                else record s { current_wave = next })
      ]

  -- The targets that `dispatch_current_wave` sends to `run_vm`.
  unfoldable pub dispatched : WaveState T → List T
  dispatched s = elim (get_elem? s.waves s.current_wave) [ none ↦ [] | some targets ↦ targets ]

  -- `route_after_wave_health` goes to `dispatch_wave`, or to `collect_results`.
  unfoldable pub has_next_wave : WaveState T → Bool
  has_next_wave s = if s.wave_aborted then false else ltb s.current_wave s.total_waves

  -- The cycle dispatch_wave, run_vm, check_wave_health; the second result lists the targets that ran.
  -- `none` says that the fuel ran out.
  unfoldable pub rollout : ℕ → (Bool → T → Probe) → WaveState T → Option (WaveState T × List T)
  unfolding check_wave_health dispatched has_next_wave
  rollout zero check s = none
  rollout (suc fuel) check s =
      let s' = check_wave_health check s in
      let rest = rollout fuel check s' in
      if has_next_wave s'
      then elim rest [ none ↦ none | some (end, later) ↦ some (end, dispatched s ++ later) ]
      else some (s', dispatched s)

  -- `route_after_prepare_waves`: the cycle, with a round for each wave, or the report.
  unfoldable pub start_rollout :
      (Bool → T → Probe) → WaveState T → List (List T) → Option (WaveState T × List T)
  unfolding rollout
  start_rollout check s [] = some (s, [])
  start_rollout check s (w ∷ ws) = rollout (length (w ∷ ws)) check s

  -- The nodes from `prepare_waves` on.
  unfoldable pub run_waves : (Bool → T → Probe) → WaveState T → Option (WaveState T × List T)
  unfolding prepare_waves start_rollout
  run_waves check s = let s' = prepare_waves s in start_rollout check s' s'.waves
