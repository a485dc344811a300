-- ===== src/Batch/Waves/Canary.antt =====
-- errander/agent/graph.py: the canary, which runs alone and stops the rollout if it is not healthy.
use mathlib.Core.Path.{ap₂}
use errander_ai.Common.{
  ◌≡◌, refl, ap, ◌∙◌, Bool, true, false, ◌&&◌, some, List, [], ◌∷◌, arith, length, get_elem?, ltb,
  ◌==◌,
}
use errander_ai.Batch.Waves.{
  WaveState, Probe, fails, waves_of, prepare_waves, count_failures, check_wave_health,
  partition_into_waves, has_next_wave, run_waves,
}
use errander_ai.Batch.Waves.Rollout.{run_waves-first, rollout_round, dispatched_lem}

module _ {T : Type 0} where
  -- The health check of the canary, when it fails.
  record Fallen (t : WaveState T) : Type 0 where
    is_aborted : t.wave_aborted ≡ true
    is_recorded : t.canary_passed ≡ some false

  one_failure :
      (check : T → Probe) (t : T)
      → fails (check t) ≡ true
      → ltb 0 (count_failures check (t ∷ [])) ≡ true
  unfolding count_failures
  one_failure check t bad = rw bad refl

  check_wave_health-Fallen :
      (check : Bool → T → Probe) (s : WaveState T) (t : T)
      → s.canary_enabled && s.current_wave == 0 ≡ true
      → get_elem? s.waves s.current_wave ≡ some (t ∷ [])
      → fails (check true t) ≡ true
      → Fallen (check_wave_health check s)
  unfolding check_wave_health
  check_wave_health-Fallen check s t first here bad = record {
    is_aborted = ground (arith, first, here, one_failure (check true) t bad);
    is_recorded = ground (arith, first, here, one_failure (check true) t bad);
  }

  stops : (s : WaveState T) → s.wave_aborted ≡ true → has_next_wave s ≡ false
  unfolding has_next_wave
  stops s e = rw e refl

  canary_waves :
      (s : WaveState T) (t u : T) (ts : List T)
      → s.canary_enabled ≡ true
      → s.healthy_targets ≡ t ∷ u ∷ ts
      → (prepare_waves s).waves
        ≡ (t ∷ []) ∷ partition_into_waves (u ∷ ts) s.rolling_update_percentage
  unfolding prepare_waves
  canary_waves s t u ts enabled targets =
      ap₂ (λ c ts'. waves_of c s.rolling_update_percentage ts') enabled targets

  canary_first :
      (s : WaveState T)
      → s.canary_enabled ≡ true
      → (prepare_waves s).canary_enabled && (prepare_waves s).current_wave == 0 ≡ true
  unfolding prepare_waves
  canary_first s e = rw e refl

  canary_here :
      (s : WaveState T) (w : List T) (ws : List (List T))
      → (prepare_waves s).waves ≡ w ∷ ws
      → get_elem? (prepare_waves s).waves (prepare_waves s).current_wave ≡ some w
  unfolding prepare_waves
  canary_here s w ws e = ap (λ ws'. get_elem? ws' 0) e

  -- With a canary and at least two healthy targets, a first target that fails its health check is the
  -- only one that runs: the rollout ends, it is aborted, and the canary is recorded as failed.
  pub canary_stops :
      (check : Bool → T → Probe) (s : WaveState T) (t u : T) (ts : List T)
      → s.canary_enabled ≡ true
      → s.healthy_targets ≡ t ∷ u ∷ ts
      → fails (check true t) ≡ true
      → (end : WaveState T) × (run_waves check s ≡ some (end, t ∷ []))
        × (end.wave_aborted ≡ true)
        × (end.canary_passed ≡ some false)
  canary_stops check s t u ts enabled targets bad =
      let s' = prepare_waves s in
      let split = canary_waves s t u ts enabled targets in
      let here =
        canary_here s (t ∷ []) (partition_into_waves (u ∷ ts) s.rolling_update_percentage) split in
      let fallen = check_wave_health-Fallen check s' t (canary_first s enabled) here bad in
      (
        check_wave_health check s',
        run_waves-first check s (t ∷ []) (partition_into_waves (u ∷ ts) s.rolling_update_percentage)
              split
            ∙ (rw
                (
                  rollout_round (length (partition_into_waves (u ∷ ts) s.rolling_update_percentage))
                      check s',
                  dispatched_lem s' (t ∷ []) here,
                  stops (check_wave_health check s') fallen.is_aborted,
                )
                refl),
        fallen.is_aborted,
        fallen.is_recorded,
      )
