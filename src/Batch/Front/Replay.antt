-- ===== src/Batch/Front/Replay.antt =====
-- errander/agent/graph.py: the replay of a batch that was approved outside its window.
use errander_ai.Common.{
  ℕ, ◌≤◌, String, ◌≡◌, ◌≢◌, refl, true, ◌||◌, Option, none, some, List, [], ◌∷◌, arith, ltb, str_eq,
  eq_iff, if_holds,
}
use errander_ai.Approval.Store.{ApprovalStore}
use errander_ai.Batch.State.{VmPlan, ApprovedItem, BatchState, BatchError, effective_vm_plans}
use errander_ai.Batch.Gate.{GateConfig, Meanwhile, approval_granted, approval_gate}
use errander_ai.Batch.Gate.Routes.{to_waves, after_gate}
use errander_ai.Batch.Gate.Live.{to_waves-no_error}
use errander_ai.Batch.Front.{
  Artifact, Timestamp, blank, unparseable, aged, plans_in, max_artifact_age, load_parsed,
  load_dated, load_deferred_artifact,
}

module _ (digest : String → String → List VmPlan → String) (age_of : String → Timestamp)
    (parse : String → Option Artifact) where
  -- The artifact is there, is an approval's of the last seven days, and has the approved hash; its plans
  -- are those that the state now has.
  pub record Verified (s t : BatchState) : Type 0 where
    pub artifact : Artifact
    pub age : ℕ
    pub is_parsed : parse s.preloaded_plan_json ≡ some artifact
    pub is_aged : age_of s.preloaded_approved_at ≡ aged age
    pub in_time : age ≤ max_artifact_age
    pub hash_agrees : digest s.batch_id s.env_name (plans_in artifact) ≡ s.preloaded_plan_hash
    pub is_loaded : t.enriched_vm_plans ≡ plans_in artifact

  Loads : BatchState → BatchState → Type 0
  Loads s t = (t.error ≡ none) → Verified s t

  load_parsed-Loads :
      (s : BatchState) (age : ℕ) (a : Option Artifact)
      → parse s.preloaded_plan_json ≡ a
      → age_of s.preloaded_approved_at ≡ aged age
      → age ≤ max_artifact_age
      → Loads s (load_parsed digest age_of parse a s)
  unfolding Loads
  load_parsed-Loads s age none parsed dated in_time = λ e. absurd (ground (arith, e))
  load_parsed-Loads s age (some a) parsed dated in_time =
      if_holds (Loads s) (str_eq (digest s.batch_id s.env_name (plans_in a)) s.preloaded_plan_hash)
        (λ same e. record {
          artifact = a;
          age = age;
          is_parsed = parsed;
          is_aged = dated;
          in_time = in_time;
          hash_agrees =
              (eq_iff (digest s.batch_id s.env_name (plans_in a)) s.preloaded_plan_hash).0 same;
          is_loaded = refl;
        })
        (λ _ e. absurd (ground (arith, e)))

  load_dated-Loads :
      (s : BatchState) (stamp : Timestamp)
      → age_of s.preloaded_approved_at ≡ stamp
      → Loads s (load_dated digest age_of parse stamp s)
  unfolding Loads
  load_dated-Loads s blank dated = λ e. absurd (ground (arith, e))
  load_dated-Loads s unparseable dated = λ e. absurd (ground (arith, e))
  load_dated-Loads s (aged seconds) dated =
      if_holds (Loads s) (ltb max_artifact_age seconds) (λ _ e. absurd (ground (arith, e)))
        (λ young.
          load_parsed-Loads s seconds (parse s.preloaded_plan_json) refl dated
            (ground (arith, young)))

  load_deferred_artifact-Loads :
      (s : BatchState) → Loads s (load_deferred_artifact digest age_of parse s)
  unfolding load_deferred_artifact Loads
  load_deferred_artifact-Loads s =
      if_holds (Loads s) (str_eq s.preloaded_plan_json "" || str_eq s.preloaded_plan_hash "")
        (λ _ e. absurd (ground (arith, e)))
        (λ _. load_dated-Loads s (age_of s.preloaded_approved_at) refl)

  load_parsed-replay :
      (a : Option Artifact) (s : BatchState)
      → s.is_deferred_replay ≡ true
      → (load_parsed digest age_of parse a s).is_deferred_replay ≡ true
  load_parsed-replay none s marked = marked
  load_parsed-replay (some a) s marked =
      if_holds (λ (t : BatchState). t.is_deferred_replay ≡ true)
        (str_eq (digest s.batch_id s.env_name (plans_in a)) s.preloaded_plan_hash) (λ _. refl)
        (λ _. marked)

  load_dated-replay :
      (stamp : Timestamp) (s : BatchState)
      → s.is_deferred_replay ≡ true
      → (load_dated digest age_of parse stamp s).is_deferred_replay ≡ true
  load_dated-replay blank s marked = marked
  load_dated-replay unparseable s marked = marked
  load_dated-replay (aged seconds) s marked =
      if_holds (λ (t : BatchState). t.is_deferred_replay ≡ true) (ltb max_artifact_age seconds)
        (λ _. marked) (λ _. load_parsed-replay (parse s.preloaded_plan_json) s marked)

  load_deferred_artifact-replay :
      (s : BatchState)
      → s.is_deferred_replay ≡ true
      → (load_deferred_artifact digest age_of parse s).is_deferred_replay ≡ true
  unfolding load_deferred_artifact
  load_deferred_artifact-replay s marked =
      if_holds (λ (t : BatchState). t.is_deferred_replay ≡ true)
        (str_eq s.preloaded_plan_json "" || str_eq s.preloaded_plan_hash "") (λ _. marked)
        (λ _. load_dated-replay (age_of s.preloaded_approved_at) s marked)

  module _ {Item : Type 0} (loads : String → Option (List Item)) (dumps : List Item → String)
      (plan_dict : VmPlan → Item) (read_item : Item → ApprovedItem) (report : BatchState → String)
      (config : GateConfig) (m : Meanwhile) where
    -- A replay, dry or live, goes on to the waves only if the artifact that was stored is there, is an
    -- approval's of the last 168 hours, and has the hash that was approved; the waves then have its plans,
    -- or those of the state if it has none.
    pub replay_execution :
        (s t : BatchState) (store : Option ApprovalStore)
        → after_gate digest
            (approval_gate loads dumps plan_dict read_item report config m
              (load_deferred_artifact digest age_of parse s)
              store).outcome
          ≡ to_waves t
        → Verified s (load_deferred_artifact digest age_of parse s)
          × (effective_vm_plans t
              ≡ effective_vm_plans (load_deferred_artifact digest age_of parse s))
    replay_execution s t store h =
        let (clean, same) =
          to_waves-no_error digest loads dumps plan_dict read_item report config m
            (load_deferred_artifact digest age_of parse s) t store h in
        (unfold Loads in (load_deferred_artifact-Loads s clean), same)

    gate-replay :
        (s : BatchState) (store : Option ApprovalStore)
        → s.is_deferred_replay ≡ true
        → (approval_gate loads dumps plan_dict read_item report config m s store).audit
          ≡ approval_granted s.batch_id ∷ []
    unfolding approval_gate
    gate-replay s store marked = ground (arith, marked)

    -- A replay whose artifact is refused never goes on to the waves. The audit log then still says that
    -- the approval was granted.
    pub failed_replay :
        (s t : BatchState) (store : Option ApprovalStore) (e : BatchError)
        → s.is_deferred_replay ≡ true
        → (load_deferred_artifact digest age_of parse s).error ≡ some e
        → let r =
            approval_gate loads dumps plan_dict read_item report config m
              (load_deferred_artifact digest age_of parse s)
              store in
          (after_gate digest r.outcome ≢ to_waves t)
          × (r.audit
              ≡ approval_granted (load_deferred_artifact digest age_of parse s).batch_id ∷ [])
    failed_replay s t store e marked failed = (
      λ h. absurd (
          ground (
            arith,
            failed,
            (to_waves-no_error digest loads dumps plan_dict read_item report config m
                (load_deferred_artifact digest age_of parse s) t store h).0,
          )),
      gate-replay (load_deferred_artifact digest age_of parse s) store
          (load_deferred_artifact-replay s marked),
    )
