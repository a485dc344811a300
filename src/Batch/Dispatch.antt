-- ===== src/Batch/Dispatch.antt =====
-- errander/agent/graph.py: `dispatch_current_wave`, which hands a VM the actions that were approved for
-- it, and `_filter_patching_packages`.
pub mod Selected
use mathlib.Core.Path.{subst}
use errander_ai.Common.{
  String, ◌≡◌, refl, sym, ap, ◌∙◌, Bool, true, false, not, ◌&&◌, ◌||◌, inl, inr, ◌⊎◌, Option, none,
  some, List, [], ◌∷◌, map, str_eq, any, All, if◌then◌else◌, if_holds, Bool-cases, arith,
  select_where,
}
use errander_ai.Batch.State.{Package, PlannedAction, VmPlan, BatchState, effective_vm_plans}

-- `name in approved_names`, the set of the names of `approved` that are not empty.
abbrev pub is_approved_name : List Package → String → Bool
is_approved_name approved name = any (λ p. not (str_eq p.name "") && str_eq p.name name) approved

abbrev pub has_names : List Package → Bool
has_names approved = any (λ p. not (str_eq p.name "")) approved

abbrev pub filter_preview : List Package → PlannedAction → PlannedAction
filter_preview approved a = elim a.packages [
  | none ↦ a
  | some pkgs ↦ record a {
    packages = some (select_where (λ p. is_approved_name approved p.name) pkgs);
  }
]

-- `_filter_patching_packages`.
unfoldable pub filter_patching_packages : List PlannedAction → List Package → List PlannedAction
filter_patching_packages [] approved = []
filter_patching_packages (a ∷ rest) approved =
    let later = filter_patching_packages rest approved in
    (if str_eq a.action_type "patching" && has_names approved then filter_preview approved a else a)
    ∷ later

-- The dict of the approved actions: the last plan of a VM counts.
unfoldable pub approved_actions : List VmPlan → String → Option (List PlannedAction)
approved_actions [] id = none
approved_actions (p ∷ rest) id =
    let later = approved_actions rest id in
    elim later [
      | some actions ↦ some actions
      | none ↦ if str_eq p.vm_id id then some p.planned_actions else none
    ]

unfoldable pub selection : List (String × List Package) → String → Option (List Package)
selection [] id = none
selection (entry ∷ rest) id =
    let later = selection rest id in if str_eq entry.0 id then some entry.1 else later

abbrev pub select_actions : Option (List Package) → List PlannedAction → List PlannedAction
select_actions none actions = actions
select_actions (some pkgs) actions = filter_patching_packages actions pkgs

-- What the VM graph gets of the plan; `refused` says that the error of an unapproved VM is set.
pub record VmDispatch : Type 0 where
  pub vm_id : String
  pub planned_actions : List PlannedAction
  pub pre_approved_plan_set : Bool
  pub refused : Bool

abbrev pub dispatch_planned : BatchState → String → Option (List PlannedAction) → VmDispatch
dispatch_planned s id (some actions) = record {
  vm_id = id;
  planned_actions = select_actions (selection s.operator_approved_packages id) actions;
  pre_approved_plan_set = true;
  refused = false;
}
dispatch_planned s id none = record {
  vm_id = id;
  planned_actions = [];
  pre_approved_plan_set = not s.dry_run;
  refused = not s.dry_run;
}

unfoldable pub dispatch_vm : BatchState → String → VmDispatch
dispatch_vm s id = dispatch_planned s id (approved_actions (effective_vm_plans s) id)
