-- ===== src/Batch/Dispatch/Selected.antt =====
-- errander/agent/graph.py: what the selection of an operator does to the actions that a VM gets.
use mathlib.Core.Path.{subst}
use errander_ai.Common.{
  String, ◌≡◌, refl, sym, ap, ◌∙◌, Bool, true, false, not, ◌&&◌, inl, inr, ◌⊎◌, Option, none, some,
  List, [], ◌∷◌, str_eq, All, if_holds, arith, select_where,
}
use errander_ai.Batch.State.{Package, PlannedAction, BatchState, effective_vm_plans}
use errander_ai.Batch.Dispatch.{
  is_approved_name, has_names, filter_preview, filter_patching_packages, approved_actions,
  selection, select_actions, dispatch_planned, dispatch_vm,
}

abbrev pub OnlyOf : List Package → Option (List Package) → Type 0
OnlyOf approved none = Unit
OnlyOf approved (some pkgs) = All (λ p. is_approved_name approved p.name ≡ true) pkgs

-- An action is no patching, or lists only packages whose names are approved.
abbrev pub InstallsOnly : List Package → PlannedAction → Type 0
InstallsOnly approved a = (str_eq a.action_type "patching" ≡ false) ⊎ OnlyOf approved a.packages

select_where-All :
    (test : Package → Bool) (pkgs : List Package)
    → All (λ p. test p ≡ true) (select_where test pkgs)
unfolding select_where
select_where-All test [] = tt
select_where-All test (p ∷ ps) =
    if_holds (All (λ q. test q ≡ true)) (test p) (λ ok. (ok, select_where-All test ps))
      (λ _. select_where-All test ps)

filter_preview-OnlyOf :
    (approved : List Package) (type tier : String) (pkgs : Option (List Package))
    → OnlyOf approved
        (filter_preview approved
          (record { action_type = type; risk_tier = tier; packages = pkgs })).packages
filter_preview-OnlyOf approved type tier none = tt
filter_preview-OnlyOf approved type tier (some all) =
    select_where-All (λ p. is_approved_name approved p.name) all

filter_patching_packages-InstallsOnly :
    (actions : List PlannedAction) (approved : List Package)
    → has_names approved ≡ true
    → All (InstallsOnly approved) (filter_patching_packages actions approved)
unfolding filter_patching_packages
filter_patching_packages-InstallsOnly [] approved named = tt
filter_patching_packages-InstallsOnly (a ∷ rest) approved named = (
  if_holds (InstallsOnly approved) (str_eq a.action_type "patching" && has_names approved)
      (λ _. inr (filter_preview-OnlyOf approved a.action_type a.risk_tier a.packages))
      (λ other. inl (ground (arith, other, named))),
  filter_patching_packages-InstallsOnly rest approved named,
)

filter_patching_packages-none :
    (actions : List PlannedAction) (approved : List Package)
    → has_names approved ≡ false
    → filter_patching_packages actions approved ≡ actions
unfolding filter_patching_packages
filter_patching_packages-none [] approved empty = refl
filter_patching_packages-none (a ∷ rest) approved empty =
    if_holds (λ (b : PlannedAction). b ∷ filter_patching_packages rest approved ≡ a ∷ rest)
      (str_eq a.action_type "patching" && has_names approved)
      (λ patches. absurd (ground (arith, patches, empty)))
      (λ _. ap (λ later. a ∷ later) (filter_patching_packages-none rest approved empty))

select_actions-InstallsOnly :
    (actions : List PlannedAction) (chosen : Option (List Package)) (approved : List Package)
    → chosen ≡ some approved
    → has_names approved ≡ true
    → All (InstallsOnly approved) (select_actions chosen actions)
select_actions-InstallsOnly actions none approved e named = absurd (ground (arith, e))
select_actions-InstallsOnly actions (some pkgs) approved e named =
    subst (λ c. All (InstallsOnly approved) (select_actions c actions)) (sym e)
      (filter_patching_packages-InstallsOnly actions approved named)

dispatch_planned-InstallsOnly :
    (s : BatchState) (id : String) (approved : List Package) (plan : Option (List PlannedAction))
    → selection s.operator_approved_packages id ≡ some approved
    → has_names approved ≡ true
    → All (InstallsOnly approved) (dispatch_planned s id plan).planned_actions
dispatch_planned-InstallsOnly s id approved none chosen named = tt
dispatch_planned-InstallsOnly s id approved (some actions) chosen named =
    select_actions-InstallsOnly actions (selection s.operator_approved_packages id) approved chosen
      named

dispatch_planned_live :
    (s : BatchState) (id : String) (plan : Option (List PlannedAction))
    → s.dry_run ≡ false
    → ((dispatch_planned s id plan).pre_approved_plan_set ≡ true)
      × (((dispatch_planned s id plan).refused ≡ false)
          ⊎ ((plan ≡ none)
              × ((dispatch_planned s id plan).refused ≡ true)
              × ((dispatch_planned s id plan).planned_actions ≡ [])))
dispatch_planned_live s id none live = (ap not live, inr (refl, ap not live, refl))
dispatch_planned_live s id (some actions) live = (refl, inl refl)

-- If the operator has ticked packages of a VM, and at least one of them has a name, then every
-- patching action that the VM gets lists only packages with a name that was ticked.
pub dispatch_vm-InstallsOnly :
    (s : BatchState) (id : String) (approved : List Package)
    → selection s.operator_approved_packages id ≡ some approved
    → has_names approved ≡ true
    → All (InstallsOnly approved) (dispatch_vm s id).planned_actions
unfolding dispatch_vm
dispatch_vm-InstallsOnly s id approved chosen named =
    dispatch_planned-InstallsOnly s id approved (approved_actions (effective_vm_plans s) id) chosen
      named

-- If the operator has ticked no package of a VM, then the VM gets its planned actions with all of
-- their packages.
pub nothing_ticked :
    (s : BatchState) (id : String) (actions : List PlannedAction)
    → approved_actions (effective_vm_plans s) id ≡ some actions
    → selection s.operator_approved_packages id ≡ some []
    → (dispatch_vm s id).planned_actions ≡ actions
unfolding dispatch_vm
nothing_ticked s id actions planned chosen =
    ap (λ plan. (dispatch_planned s id plan).planned_actions) planned
    ∙ (ap (λ pkgs. select_actions pkgs actions) chosen
        ∙ filter_patching_packages-none actions [] refl)

-- In a live batch no VM plans again, and a VM that is not in the approved plan gets an error and no
-- action.
pub live_dispatch :
    (s : BatchState) (id : String)
    → s.dry_run ≡ false
    → ((dispatch_vm s id).pre_approved_plan_set ≡ true)
      × (((dispatch_vm s id).refused ≡ false)
          ⊎ ((approved_actions (effective_vm_plans s) id ≡ none)
              × ((dispatch_vm s id).refused ≡ true)
              × ((dispatch_vm s id).planned_actions ≡ [])))
unfolding dispatch_vm
live_dispatch s id live =
    dispatch_planned_live s id (approved_actions (effective_vm_plans s) id) live
