-- ===== src/Hygiene.antt =====
-- errander/models/docker_hygiene.py: what is found on a VM, and what identifies an assessment.
pub mod Assess
pub mod Removal
pub mod Graph
pub mod Store
pub mod Form
pub mod Wait
pub mod Run
pub mod Rules
use Prim.Native.String
use errander_ai.Common.{
  ℕ, String, Bool, true, false, not, ◌&&◌, ◌||◌, Option, none, some, List, [], ◌∷◌, map, str_eq,
  if◌then◌else◌, any, select_where, ℤ, pos, negsuc, ltb_ℤ, lookup,
}

-- `DockerResourceClass` with the values of its members.
pub data ResourceClass : Type 0 where
  image_dangling image_unused container_stopped volume_unreferenced build_cache : ResourceClass

abbrev pub class_value : ResourceClass → String
class_value image_dangling = "image_dangling"
class_value image_unused = "image_unused"
class_value container_stopped = "container_stopped"
class_value volume_unreferenced = "volume_unreferenced"
class_value build_cache = "build_cache"

-- `DockerResourceClass(value)`; `none` is the ValueError.
unfoldable pub parse_class : String → Option ResourceClass
parse_class v =
    if str_eq v "image_dangling"
    then some image_dangling
    else if str_eq v "image_unused"
    then some image_unused
    else if str_eq v "container_stopped"
    then some container_stopped
    else if str_eq v "volume_unreferenced"
    then some volume_unreferenced
    else if str_eq v "build_cache"
    then some build_cache
    else none

-- `FindingClassification`.
pub data Classification : Type 0 where
  cleanup_candidate investigate report_only : Classification

abbrev pub classification_value : Classification → String
classification_value cleanup_candidate = "cleanup_candidate"
classification_value investigate = "investigate"
classification_value report_only = "report_only"

abbrev pub is_candidate : Classification → Bool
is_candidate cleanup_candidate = true
is_candidate _ = false

-- `DockerHygieneFinding`.
pub record Finding : Type 0 where
  pub resource_class : ResourceClass
  pub classification : Classification
  pub object_id : Option String
  pub name : Option String
  pub size_bytes : Option ℤ
  pub age_days : Option ℤ
  pub last_tag : Option String
  pub exit_code : Option ℤ
  pub stopped_age_hours : Option ℤ
  pub last_mount_days : Option ℤ
  pub reclaimable_bytes : Option ℤ

-- A text that is there and not empty.
abbrev pub truthy : Option String → Option String
truthy none = none
truthy (some s) = if str_eq s "" then none else some s

-- The property `identity`.
unfoldable pub identity : Finding → String
identity f = elim (truthy f.object_id) [
  | some id ↦ id
  | none ↦ elim (truthy f.name) [
    | some name ↦ name
    | none ↦ String.◌++◌ "<" (String.◌++◌ (class_value f.resource_class) ">")
  ]
]

-- The pair by which a finding is approved and its removal reported.
abbrev pub key_of : Finding → String × String
key_of f = (class_value f.resource_class, identity f)

abbrev pub same_key : String × String → String × String → Bool
same_key (c, i) (d, j) = str_eq c d && str_eq i j

-- `DockerHygieneAssessment` without its raw text.
pub record Assessment : Type 0 where
  pub vm_id : String
  pub findings : List Finding
  pub reachable : Bool
  pub error : Option String

unfoldable pub cleanup_candidates : Assessment → List Finding
cleanup_candidates a = select_where (λ f. is_candidate f.classification) a.findings

abbrev pub is_nil {ℓ} : {A : Type ℓ} → List A → Bool
is_nil [] = true
is_nil (x ∷ xs) = false

unfoldable pub nothing_to_surface : Assessment → Bool
nothing_to_surface a = is_nil a.findings

-- `compute_assessment_hash`, where `digest` sorts the triples, writes them as JSON and hashes them.
unfoldable pub compute_assessment_hash :
    (List (String × String × String) → String) → Assessment → String
compute_assessment_hash digest a = digest (
    map (λ f. (class_value f.resource_class, identity f, classification_value f.classification))
      a.findings)
