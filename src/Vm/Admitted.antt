-- ===== src/Vm/Admitted.antt =====
-- errander/safety/validators.py, as the VM graph applies it: which actions reach a sub-graph.
use errander_ai.Common.{
  ℕ, String, ◌≡◌, ◌≢◌, refl, sym, ap, ◌∙◌, Bool, true, false, not, ◌&&◌, Option, none, some, List,
  arith, str_eq, eq_iff, any, Option-cases, inl, inr,
}
use errander_ai.Batch.State.{PlannedAction, parse_tier, RiskTier, critical}
use errander_ai.Vm.{typed, action_of, is_runnable}
use errander_ai.Vm.Validate.{
  Params, validate_action, parse_action_type, ActionType, Action, patching, disk_cleanup,
  is_critical, is_patch, is_cleanup, contains_kernel_packages, is_whitelisted,
}

and_false : (b c d : Bool) → (b ≡ true → c ≡ true) → c && d ≡ false → b && d ≡ false
and_false true c d h e = ap (λ x. x && d) (sym (h refl)) ∙ e
and_false false c d h e = refl

-- An action that was sent to a sub-graph: it is not of the critical tier, a patching has no kernel package
-- in its params, and a cleanup only paths on the whitelist.
pub record IsAdmitted (params_of : PlannedAction → Params) (lower : String → List ℕ)
    (a : PlannedAction) : Type 0 where
  pub not_critical : parse_tier a.risk_tier ≢ some critical
  pub no_kernel :
      str_eq a.action_type "patching" && contains_kernel_packages lower (params_of a).packages
      ≡ false
  pub on_whitelist :
      str_eq a.action_type "disk_cleanup" && any (λ p. not (is_whitelisted p)) (params_of a).paths
      ≡ false

module _ (params_of : PlannedAction → Params) (lower : String → List ℕ) where
  record Parsed (a : PlannedAction) (o : Option ActionType) : Type 0 where
    type : ActionType
    tier : RiskTier
    has_type : o ≡ some type
    has_tier : parse_tier a.risk_tier ≡ some tier
    valid :
        validate_action lower
          (record { action_type = type; risk_tier = tier; params = params_of a })
        ≡ true

  Parsed-runnable :
      (a : PlannedAction) (o : Option ActionType)
      → is_runnable params_of lower (typed params_of lower a o) ≡ true
      → Parsed a o
  Parsed-runnable a none runs = absurd (ground (arith, runs))
  Parsed-runnable a (some type) runs = elim (Option-cases (parse_tier a.risk_tier)) [
    | inl none_left ↦ absurd (ground (arith, runs, none_left))
    | inr (tier, found) ↦ record {
      type = type;
      tier = tier;
      has_type = refl;
      has_tier = found;
      valid = ground (arith, runs, found);
    }
  ]

  validate_action-critical :
      (a : Action) → validate_action lower a ≡ true → is_critical a.risk_tier ≡ false
  unfolding validate_action
  validate_action-critical a valid = ground (arith, valid)

  validate_action-kernel :
      (a : Action)
      → validate_action lower a ≡ true
      → is_patch a.action_type && contains_kernel_packages lower a.params.packages ≡ false
  unfolding validate_action
  validate_action-kernel a valid = ground (arith, valid)

  validate_action-paths :
      (a : Action)
      → validate_action lower a ≡ true
      → is_cleanup a.action_type && any (λ p. not (is_whitelisted p)) a.params.paths ≡ false
  unfolding validate_action
  validate_action-paths a valid = ground (arith, valid)

  parse-patching : (t : String) → str_eq t "patching" ≡ true → parse_action_type t ≡ some patching
  parse-patching t e = ap parse_action_type ((eq_iff t "patching").0 e)

  parse-cleanup :
      (t : String) → str_eq t "disk_cleanup" ≡ true → parse_action_type t ≡ some disk_cleanup
  parse-cleanup t e = ap parse_action_type ((eq_iff t "disk_cleanup").0 e)

  is_patch-Parsed :
      (a : PlannedAction) (p : Parsed a (parse_action_type a.action_type))
      → str_eq a.action_type "patching" ≡ true
      → is_patch p.type ≡ true
  is_patch-Parsed a p e = ground (arith, p.has_type, parse-patching a.action_type e)

  is_cleanup-Parsed :
      (a : PlannedAction) (p : Parsed a (parse_action_type a.action_type))
      → str_eq a.action_type "disk_cleanup" ≡ true
      → is_cleanup p.type ≡ true
  is_cleanup-Parsed a p e = ground (arith, p.has_type, parse-cleanup a.action_type e)

  pub is_runnable-IsAdmitted :
      (a : PlannedAction)
      → is_runnable params_of lower (action_of params_of lower a) ≡ true
      → IsAdmitted params_of lower a
  is_runnable-IsAdmitted a runs =
      let p = Parsed-runnable a (parse_action_type a.action_type) runs in
      let action : Action = record {
        action_type = p.type;
        risk_tier = p.tier;
        params = params_of a;
      } in
      record {
        not_critical =
            λ e. absurd (ground (arith, e, p.has_tier, validate_action-critical action p.valid));
        no_kernel =
            and_false (str_eq a.action_type "patching") (is_patch p.type)
              (contains_kernel_packages lower (params_of a).packages) (is_patch-Parsed a p)
              (validate_action-kernel action p.valid);
        on_whitelist =
            and_false (str_eq a.action_type "disk_cleanup") (is_cleanup p.type)
              (any (λ q. not (is_whitelisted q)) (params_of a).paths) (is_cleanup-Parsed a p)
              (validate_action-paths action p.valid);
      }
