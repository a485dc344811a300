-- ===== src/Batch/Waves/Partition.antt =====
-- errander/agent/graph.py: every target is in one wave, in the order of the inventory.
use mathlib.Core.List.{append-nil}
use errander_ai.Common.{
  ℕ, zero, suc, ◌+◌, ◌≤◌, ◌*◌, ◌/◌, ◌≡◌, refl, ap, Bool, true, inl, inr, ◌⊎◌, ◌<◌, List, [], ◌∷◌,
  ◌++◌, arith, leb, leb→le, length, drop, All, All-imp, take-append-drop, length-take, length-drop,
  Bool-cases,
}
use errander_ai.Batch.Waves.{
  wave_size, slices, partition_into_waves, WaveState, waves_of, prepare_waves,
}

wave_size_pos : (n percentage : ℕ) → 1 ≤ wave_size n percentage
wave_size_pos n percentage = ground arith

enough_share : (n percentage : ℕ) → 100 ≤ percentage → n ≤ (n * percentage + 99) / 100
enough_share n percentage h =
    let more : n * 100 ≤ n * percentage = grind arith in omega (arith, more)

share :
    (n percentage k : ℕ)
    → 1 ≤ k
    → k ≤ wave_size n percentage
    → (k ≡ 1) ⊎ (k * 100 < n * percentage + 100)
share n percentage k some_target few = ground (arith, some_target, few)

module _ {T : Type 0} where
  abbrev pub concat : List (List T) → List T
  concat [] = []
  concat (w ∷ ws) = w ++ concat ws

  abbrev IsWave : ℕ → List T → Type 0
  IsWave size w = (1 ≤ length w) × (length w ≤ size)

  -- A wave that is not empty and that has one target, or has no more than one target above a share.
  abbrev pub IsShare : ℕ → ℕ → List T → Type 0
  IsShare n percentage w =
      (1 ≤ length w) × ((length w ≡ 1) ⊎ (length w * 100 < n * percentage + 100))

  wave_size-IsShare :
      (n percentage : ℕ) (w : List T) → IsWave (wave_size n percentage) w → IsShare n percentage w
  wave_size-IsShare n percentage w (some_target, few) =
      (some_target, share n percentage (length w) some_target few)

  concat-slices :
      (rounds w : ℕ) (ts : List T) → 1 ≤ w → length ts ≤ rounds → concat (slices rounds w ts) ≡ ts
  unfolding slices
  concat-slices rounds w [] pos enough = refl
  concat-slices zero w (t ∷ ts) pos enough = absurd (omega arith)
  concat-slices (suc rounds) w (t ∷ ts) pos enough =
      rw (concat-slices rounds w (drop w (t ∷ ts)) pos (omega (arith, length-drop w (t ∷ ts))))
        (take-append-drop w (t ∷ ts))

  slices-IsWave : (rounds w : ℕ) (ts : List T) → 1 ≤ w → All (IsWave w) (slices rounds w ts)
  unfolding slices
  slices-IsWave rounds w [] pos = tt
  slices-IsWave zero w (t ∷ ts) pos = tt
  slices-IsWave (suc rounds) w (t ∷ ts) pos =
      (omega (arith, length-take w (t ∷ ts)), slices-IsWave rounds w (drop w (t ∷ ts)) pos)

  slices-IsShare :
      (rounds n percentage : ℕ) (ts : List T)
      → All (IsShare n percentage) (slices rounds (wave_size n percentage) ts)
  slices-IsShare rounds n percentage ts =
      All-imp (slices rounds (wave_size n percentage) ts) (wave_size-IsShare n percentage)
        (slices-IsWave rounds (wave_size n percentage) ts (wave_size_pos n percentage))

  -- The waves are the targets in order: none is left out and none is in two waves.
  pub concat-partition_into_waves :
      (ts : List T) (percentage : ℕ) → concat (partition_into_waves ts percentage) ≡ ts
  unfolding partition_into_waves
  concat-partition_into_waves [] percentage = refl
  concat-partition_into_waves (t ∷ ts) percentage = elim (Bool-cases (leb 100 percentage)) [
    | inl whole ↦ rw whole (append-nil (t ∷ ts))
    | inr rolling ↦ rw rolling (
        concat-slices (length (t ∷ ts)) (wave_size (length (t ∷ ts)) percentage) (t ∷ ts)
          (wave_size_pos (length (t ∷ ts)) percentage) (omega arith))
  ]

  whole-IsWave :
      (t : T) (ts : List T) (percentage : ℕ)
      → leb 100 percentage ≡ true
      → IsWave (wave_size (length (t ∷ ts)) percentage) (t ∷ ts)
  whole-IsWave t ts percentage whole = (
    omega arith,
    ground (arith, leb→le 100 percentage whole, enough_share (length (t ∷ ts)) percentage),
  )

  -- No wave is empty. And a wave of more than one target without its last one is less than the given
  -- percentage of all the targets: no wave is larger than that share rounded up.
  pub partition_into_waves-IsShare :
      (ts : List T) (percentage : ℕ)
      → All (IsShare (length ts) percentage) (partition_into_waves ts percentage)
  unfolding partition_into_waves
  partition_into_waves-IsShare [] percentage = tt
  partition_into_waves-IsShare (t ∷ ts) percentage = elim (Bool-cases (leb 100 percentage)) [
    | inl whole ↦ rw whole (
      wave_size-IsShare (length (t ∷ ts)) percentage (t ∷ ts) (whole-IsWave t ts percentage whole),
      tt,
    )
    | inr rolling ↦
        rw rolling (slices-IsShare (length (t ∷ ts)) (length (t ∷ ts)) percentage (t ∷ ts))
  ]

  concat-waves_of :
      (canary : Bool) (percentage : ℕ) (ts : List T) → concat (waves_of canary percentage ts) ≡ ts
  concat-waves_of true percentage (t ∷ u ∷ ts) =
      ap (λ us. t ∷ us) (concat-partition_into_waves (u ∷ ts) percentage)
  concat-waves_of canary percentage ts = concat-partition_into_waves ts percentage

  -- The prepared waves are the healthy targets in order, with a canary or without.
  pub concat-prepare_waves : (s : WaveState T) → concat (prepare_waves s).waves ≡ s.healthy_targets
  unfolding prepare_waves
  concat-prepare_waves s =
      concat-waves_of s.canary_enabled s.rolling_update_percentage s.healthy_targets
