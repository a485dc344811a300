-- ===== src/Examples/Waves.antt =====
-- Waves of three machines, as errander/agent/graph.py sends them.
use errander_ai.Common.{ℕ, ◌≡◌, refl, Bool, true, false, none, some, [], ◌∷◌, All, if◌then◌else◌}
use errander_ai.Batch.Waves.{
  WaveState, Probe, healthy, unhealthy, run_waves, partition_into_waves, prepare_waves,
}
use errander_ai.Batch.Waves.Partition.{
  concat, IsShare, concat-prepare_waves, partition_into_waves-IsShare,
}
use errander_ai.Batch.Waves.Rollout.{Covers, run_waves-Covers}
use errander_ai.Batch.Waves.Canary.{canary_stops}

-- Three machines in waves, after a canary.
abbrev fleet : WaveState ℕ
fleet = record {
  healthy_targets = 1 ∷ 2 ∷ 3 ∷ [];
  rolling_update_percentage = 50;
  canary_enabled = true;
  threshold_num = 1;
  threshold_den = 2;
  waves = [];
  current_wave = 0;
  total_waves = 0;
  wave_aborted = false;
  canary_passed = none;
}

abbrev all_well : Bool → ℕ → Probe
all_well canary vm = healthy

abbrev canary_ill : Bool → ℕ → Probe
canary_ill canary vm = if canary then unhealthy else healthy

run_waves-Covers_example : Covers (1 ∷ 2 ∷ 3 ∷ []) (run_waves all_well fleet)
run_waves-Covers_example = run_waves-Covers all_well fleet

canary_stops_example :
    (end : WaveState ℕ) × (run_waves canary_ill fleet ≡ some (end, 1 ∷ []))
    × (end.wave_aborted ≡ true)
    × (end.canary_passed ≡ some false)
canary_stops_example = canary_stops canary_ill fleet 1 2 (3 ∷ []) refl refl refl

concat-prepare_waves_example : concat (prepare_waves fleet).waves ≡ 1 ∷ 2 ∷ 3 ∷ []
concat-prepare_waves_example = concat-prepare_waves fleet

partition_into_waves-IsShare_example :
    All (IsShare {T = ℕ} 3 50) (partition_into_waves (1 ∷ 2 ∷ 3 ∷ []) 50)
partition_into_waves-IsShare_example = partition_into_waves-IsShare (1 ∷ 2 ∷ 3 ∷ []) 50
