-- ===== src/Vm/Validate.antt =====
-- errander/safety/validators.py and errander/config/policies.py: whether an action may run at all, and
-- which risk tiers a policy lets run without approval.
use errander_ai.Common.{
  ℕ, String, Bool, true, false, not, ◌&&◌, ◌||◌, Option, none, some, List, [], ◌∷◌, str_eq, ◌==◌,
  if◌then◌else◌, any,
}
use errander_ai.Batch.State.{RiskTier, low, medium, critical}

-- `ActionType`.
pub data ActionType : Type 0 where
  patching docker_prune docker_hygiene log_rotation disk_cleanup backup_verify service_restart :
      ActionType

abbrev pub parse_action_type : String → Option ActionType
parse_action_type text =
    if str_eq text "patching"
    then some patching
    else if str_eq text "docker_prune"
    then some docker_prune
    else if str_eq text "docker_hygiene"
    then some docker_hygiene
    else if str_eq text "log_rotation"
    then some log_rotation
    else if str_eq text "disk_cleanup"
    then some disk_cleanup
    else if str_eq text "backup_verify"
    then some backup_verify
    else if str_eq text "service_restart"
    then some service_restart
    else none

-- The branches of `dispatch_action_node`: the legacy type has no sub-graph.
abbrev pub is_scheduled : ActionType → Bool
is_scheduled docker_prune = false
is_scheduled _ = true

-- The lists under `packages` and `paths` of an action's params, as texts; empty where there is none.
pub record Params : Type 0 where
  pub packages : List String
  pub paths : List String

pub record Action : Type 0 where
  pub action_type : ActionType
  pub risk_tier : RiskTier
  pub params : Params

-- `str.startswith`, on code points.
unfoldable pub starts_with : List ℕ → List ℕ → Bool
starts_with [] text = true
starts_with (c ∷ cs) [] = false
starts_with (c ∷ cs) (d ∷ ds) = let rest = starts_with cs ds in c == d && rest

-- `_KERNEL_PATTERNS`, as code points.
abbrev pub kernel_patterns : List (List ℕ)
kernel_patterns =
    (b'l' ∷ b'i' ∷ b'n' ∷ b'u' ∷ b'x' ∷ b'-' ∷ b'i' ∷ b'm' ∷ b'a' ∷ b'g' ∷ b'e' ∷ [])
    ∷ (b'l' ∷ b'i' ∷ b'n' ∷ b'u' ∷ b'x' ∷ b'-' ∷ b'h' ∷ b'e' ∷ b'a' ∷ b'd' ∷ b'e' ∷ b'r' ∷ b's'
        ∷ [])
    ∷ (b'l' ∷ b'i' ∷ b'n' ∷ b'u' ∷ b'x' ∷ b'-' ∷ b'm' ∷ b'o' ∷ b'd' ∷ b'u' ∷ b'l' ∷ b'e' ∷ b's'
        ∷ [])
    ∷ (b'k' ∷ b'e' ∷ b'r' ∷ b'n' ∷ b'e' ∷ b'l' ∷ [])
    ∷ (b'k' ∷ b'e' ∷ b'r' ∷ b'n' ∷ b'e' ∷ b'l' ∷ b'-' ∷ b'c' ∷ b'o' ∷ b'r' ∷ b'e' ∷ [])
    ∷ (b'k' ∷ b'e' ∷ b'r' ∷ b'n' ∷ b'e' ∷ b'l' ∷ b'-' ∷ b'd' ∷ b'e' ∷ b'v' ∷ b'e' ∷ b'l' ∷ [])
    ∷ []

-- `path in ALLOWED_CLEANUP_PATHS`.
abbrev pub is_whitelisted : String → Bool
is_whitelisted path =
    str_eq path "/tmp"
    || str_eq path "apt-cache"
    || str_eq path "yum-cache"
    || str_eq path "journal"
    || str_eq path "orphaned-deps"

abbrev pub is_critical : RiskTier → Bool
is_critical critical = true
is_critical _ = false

abbrev pub is_patch : ActionType → Bool
is_patch patching = true
is_patch _ = false

abbrev pub is_cleanup : ActionType → Bool
is_cleanup disk_cleanup = true
is_cleanup _ = false

module _ (lower : String → List ℕ) where
  abbrev pub is_kernel_package : String → Bool
  is_kernel_package pkg = any (λ pattern. starts_with pattern (lower pkg)) kernel_patterns

  abbrev pub contains_kernel_packages : List String → Bool
  contains_kernel_packages packages = any is_kernel_package packages

  -- `validate_action`: the policy is only logged.
  unfoldable pub validate_action : Action → Bool
  validate_action a =
      if is_critical a.risk_tier
      then false
      else if is_patch a.action_type && contains_kernel_packages a.params.packages
      then false
      else not (is_cleanup a.action_type && any (λ p. not (is_whitelisted p)) a.params.paths)

-- `MaintenancePolicy`, but for its name.
pub record MaintenancePolicy : Type 0 where
  pub auto_approve : RiskTier → Bool
  pub max_retries : ℕ
  pub rollback_on_failure : Bool

abbrev pub up_to_medium : RiskTier → Bool
up_to_medium low = true
up_to_medium medium = true
up_to_medium _ = false

abbrev pub only_low : RiskTier → Bool
only_low low = true
only_low _ = false

-- `BUILTIN_POLICIES`.
abbrev pub builtin_policy : String → Option MaintenancePolicy
builtin_policy name =
    if str_eq name "relaxed"
    then some (record { auto_approve = up_to_medium; max_retries = 2; rollback_on_failure = true })
    else if str_eq name "moderate"
    then some (record { auto_approve = only_low; max_retries = 1; rollback_on_failure = true })
    else if str_eq name "strict"
    then some (record { auto_approve = λ t. false; max_retries = 0; rollback_on_failure = true })
    else none

-- `requires_approval` under a policy that `BUILTIN_POLICIES.get(policy) or ...["moderate"]` finds.
abbrev pub under_policy : Option MaintenancePolicy → RiskTier → Bool
under_policy none tier = not (only_low tier)
under_policy (some policy) tier = not (policy.auto_approve tier)

unfoldable pub requires_approval : RiskTier → String → Bool
requires_approval tier policy = under_policy (builtin_policy policy) tier
