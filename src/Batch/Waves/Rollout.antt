-- ===== src/Batch/Waves/Rollout.antt =====
-- errander/agent/graph.py: which targets a rolling update reaches, and that it ends.
use mathlib.Core.Path.{ap₂}
use mathlib.Core.List.{append_assoc}
use errander_ai.Common.{
  ℕ, zero, suc, ◌+◌, ◌≤◌, ◌<◌, ◌≡◌, refl, sym, ap, ◌∙◌, ◌⊎◌, Bool, true, false, inl, inr, Option,
  none, some, List, [], ◌∷◌, ◌++◌, arith, if◌then◌else◌, length, drop, get_elem?, Bool-cases,
}
use errander_ai.Batch.Waves.{
  WaveState, Probe, prepare_waves, check_wave_health, dispatched, has_next_wave, rollout,
  start_rollout, run_waves,
}
use errander_ai.Batch.Waves.Partition.{concat, concat-prepare_waves}

list_cases {ℓ} : {A : Type ℓ} (xs : List A) → (xs ≡ []) ⊎ ((x : A) × (ys : List A) × (xs ≡ x ∷ ys))
list_cases [] = inl refl
list_cases (x ∷ ys) = inr (x, ys, refl)

module _ {T : Type 0} where
  -- The wave at an index, with the waves after it.
  wave_at :
      (c : ℕ) (ws : List (List T))
      → c < length ws
      → (w : List T) × (get_elem? ws c ≡ some w) × (drop c ws ≡ w ∷ drop (suc c) ws)
  wave_at c [] h = absurd (omega arith)
  wave_at zero (w ∷ ws) h = (w, refl, refl)
  wave_at (suc c) (w ∷ ws) h = wave_at c ws (omega arith)

  -- A health check moves on to the next wave and keeps the waves.
  record Advances (s t : WaveState T) : Type 0 where
    same_waves : t.waves ≡ s.waves
    same_total : t.total_waves ≡ s.total_waves
    next_wave : t.current_wave ≡ suc s.current_wave

  check_wave_health-Advances :
      (check : Bool → T → Probe) (s : WaveState T) (w : List T)
      → get_elem? s.waves s.current_wave ≡ some w
      → Advances s (check_wave_health check s)
  unfolding check_wave_health
  check_wave_health-Advances check s w here = record {
    same_waves = ground (arith, here);
    same_total = ground (arith, here);
    next_wave = ground (arith, here);
  }

  -- The targets that ran are the first of those that were due, and all of them unless the rollout was
  -- aborted.
  abbrev pub Covers : List T → Option (WaveState T × List T) → Type 0
  Covers due result =
      (end : WaveState T) × (ran : List T) × (rest : List T) × (result ≡ some (end, ran))
      × (due ≡ ran ++ rest)
      × ((end.wave_aborted ≡ true) ⊎ (rest ≡ []))

  pub dispatched_lem :
      (s : WaveState T) (w : List T) → get_elem? s.waves s.current_wave ≡ some w → dispatched s ≡ w
  unfolding dispatched
  dispatched_lem s w here = rw (here, dispatched)

  abbrev after : List T → Option (WaveState T × List T) → Option (WaveState T × List T)
  after w none = none
  after w (some (end, later)) = some (end, w ++ later)

  pub rollout_round :
      (fuel : ℕ) (check : Bool → T → Probe) (s : WaveState T)
      → rollout (suc fuel) check s ≡ (
          if has_next_wave (check_wave_health check s)
          then after (dispatched s) (rollout fuel check (check_wave_health check s))
          else some (check_wave_health check s, dispatched s))
  unfolding rollout
  rollout_round fuel check s = refl

  drop-all : (n : ℕ) (ws : List (List T)) → length ws ≤ n → concat (drop n ws) ≡ []
  drop-all zero [] h = refl
  drop-all (suc n) [] h = refl
  drop-all zero (w ∷ ws) h = absurd (omega arith)
  drop-all (suc n) (w ∷ ws) h = drop-all n ws (omega arith)

  has_next_wave-true : (s : WaveState T) → has_next_wave s ≡ true → s.current_wave < s.total_waves
  unfolding has_next_wave
  has_next_wave-true s h = ground arith

  has_next_wave-false :
      (s : WaveState T)
      → has_next_wave s ≡ false
      → s.wave_aborted ≡ false
      → s.total_waves ≤ s.current_wave
  unfolding has_next_wave
  has_next_wave-false s h e = ground arith

  -- What is still to be dispatched.
  abbrev due : WaveState T → List T
  due s = concat (drop s.current_wave s.waves)

  due-Advances :
      (s t : WaveState T) (w : List T)
      → Advances s t
      → drop s.current_wave s.waves ≡ w ∷ drop (suc s.current_wave) s.waves
      → due s ≡ w ++ due t
  due-Advances s t w a split =
      ap concat split ∙ ap₂ (λ n ws. w ++ concat (drop n ws)) (sym a.next_wave) (sym a.same_waves)

  more_waves :
      (s : WaveState T) (w : List T) (result : Option (WaveState T × List T))
      (due_now due_later : List T)
      → due_now ≡ w ++ due_later
      → Covers due_later result
      → Covers due_now (after w result)
  more_waves s w result due_now due_later e (end, ran, rest, returns, covers, whole) =
      (end, w ++ ran, rest, rw returns, e ∙ (rw covers (sym (append_assoc w ran rest))), whole)

  rollout-Covers :
      (fuel : ℕ) (check : Bool → T → Probe) (s : WaveState T)
      → s.current_wave < length s.waves
      → s.total_waves ≡ length s.waves
      → length s.waves ≤ fuel + s.current_wave
      → Covers (due s) (rollout fuel check s)
  rollout-Covers zero check s inside total enough = absurd (omega arith)
  rollout-Covers (suc fuel) check s inside total enough =
      let (w, here, split) = wave_at s.current_wave s.waves inside in
      let s' = check_wave_health check s in
      let a = check_wave_health-Advances check s w here in
      let later = rollout-Covers fuel check s' in
      let same_length : length s'.waves ≡ length s.waves = ap (λ ws. length ws) a.same_waves in
      rw (rollout_round fuel check s, dispatched_lem s w here)
        (elim (Bool-cases (has_next_wave s')) [
          | inl more ↦ rw more (
              more_waves s w (rollout fuel check s') (due s) (due s') (due-Advances s s' w a split)
                (later (omega (arith, has_next_wave-true s' more, a.same_total, same_length))
                  (omega (arith, a.same_total, same_length))
                  (omega (arith, a.next_wave, same_length))))
          | inr done ↦ rw done (
            s',
            w,
            due s',
            refl,
            due-Advances s s' w a split,
            elim (Bool-cases s'.wave_aborted) [
              | inl aborted ↦ inl aborted
              | inr unaborted ↦ inr (
                  drop-all s'.current_wave s'.waves (
                    omega
                      (arith, has_next_wave-false s' done unaborted, a.same_total, same_length)))
            ],
          )
        ])

  no_waves : (s : WaveState T) → (prepare_waves s).waves ≡ [] → s.healthy_targets ≡ []
  no_waves s none_left = sym (concat-prepare_waves s) ∙ ap concat none_left

  pub run_waves-first :
      (check : Bool → T → Probe) (s : WaveState T) (w : List T) (ws : List (List T))
      → (prepare_waves s).waves ≡ w ∷ ws
      → run_waves check s ≡ rollout (suc (length ws)) check (prepare_waves s)
  unfolding run_waves start_rollout
  run_waves-first check s w ws e = ap (start_rollout check (prepare_waves s)) e

  run_waves-none :
      (check : Bool → T → Probe) (s : WaveState T)
      → (prepare_waves s).waves ≡ []
      → run_waves check s ≡ some (prepare_waves s, [])
  unfolding run_waves start_rollout
  run_waves-none check s e = ap (start_rollout check (prepare_waves s)) e

  total-prepare_waves :
      (s : WaveState T) → (prepare_waves s).total_waves ≡ length (prepare_waves s).waves
  unfolding prepare_waves
  total-prepare_waves s = refl

  start-prepare_waves : (s : WaveState T) → (prepare_waves s).current_wave ≡ 0
  unfolding prepare_waves
  start-prepare_waves s = refl

  due-prepare_waves : (s : WaveState T) → due (prepare_waves s) ≡ s.healthy_targets
  due-prepare_waves s = rw (start-prepare_waves s) (concat-prepare_waves s)

  from_start :
      {ts us : List T} {result : Option (WaveState T × List T)}
      → ts ≡ us
      → Covers ts result
      → Covers us result
  from_start e (end, ran, rest, returns, covers, whole) =
      (end, ran, rest, returns, sym e ∙ covers, whole)

  -- For every outcome of the health checks the run of the waves ends. The targets that ran are a first
  -- part of the healthy targets, in their order and each once, and are all of them if no wave was aborted.
  pub run_waves-Covers :
      (check : Bool → T → Probe) (s : WaveState T) → Covers s.healthy_targets (run_waves check s)
  run_waves-Covers check s = elim (list_cases (prepare_waves s).waves) [
    | inl nothing ↦
        rw (run_waves-none check s nothing)
          (prepare_waves s, [], [], refl, no_waves s nothing, inr refl)
    | inr (w, ws, e) ↦
        let size : length (prepare_waves s).waves ≡ suc (length ws) = ap (λ x. length x) e in
        rw (run_waves-first check s w ws e) (
          from_start (due-prepare_waves s) (
            rollout-Covers (suc (length ws)) check (prepare_waves s)
              (omega (arith, start-prepare_waves s, size)) (total-prepare_waves s)
              (omega (arith, start-prepare_waves s, size))))
  ]
