-- ===== src/Hygiene/Rules.antt =====
-- errander/agent/subgraphs/docker_hygiene.py: the classification of what is found, and the findings that a
-- line stands for.
use errander_ai.Common.{
  String, Bool, true, false, not, ◌&&◌, ◌||◌, Option, none, some, List, str_eq, if◌then◌else◌, ℤ,
  pos, ltb_ℤ, lookup,
}
use errander_ai.Hygiene.{
  Classification, Finding, ResourceClass, build_cache, cleanup_candidate, container_stopped,
  image_dangling, image_unused, investigate, report_only, truthy, volume_unreferenced,
}

-- An optional number above a bound, and one that is equal to a value.
abbrev pub above : ℤ → Option ℤ → Bool
above bound none = false
above bound (some n) = ltb_ℤ bound n

abbrev pub equals : ℤ → Option ℤ → Bool
equals v none = false
equals v (some n) = not (ltb_ℤ v n) && not (ltb_ℤ n v)

-- The thresholds of the classification.
abbrev pub unused_image_age_days : ℤ
unused_image_age_days = pos 30

abbrev pub stopped_container_age_hours : ℤ
stopped_container_age_hours = pos 168

abbrev pub is_dangling : ResourceClass → Bool
is_dangling image_dangling = true
is_dangling _ = false

abbrev pub is_unused : ResourceClass → Bool
is_unused image_unused = true
is_unused _ = false

unfoldable pub classify_image : ResourceClass → Option ℤ → Classification
classify_image c age_days =
    if is_dangling c
    then cleanup_candidate
    else if is_unused c && above unused_image_age_days age_days
    then cleanup_candidate
    else report_only

unfoldable pub classify_stopped_container : Option ℤ → Option ℤ → Classification
classify_stopped_container exit_code stopped_age_hours =
    if equals (pos 137) exit_code || equals (pos 139) exit_code
    then investigate
    else if equals (pos 0) exit_code && above stopped_container_age_hours stopped_age_hours
    then cleanup_candidate
    else report_only

unfoldable pub classify_volume : ℤ → Bool → Option ℤ → Classification
classify_volume threshold enabled last_mount_days =
    if not enabled
    then report_only
    else if above threshold last_mount_days
    then cleanup_candidate
    else report_only

unfoldable pub classify_build_cache : Bool → Option ℤ → Classification
classify_build_cache enabled reclaimable =
    if not enabled
    then report_only
    else if above (pos 0) reclaimable
    then cleanup_candidate
    else report_only

-- The part of the sub-graph's state that configures the rules.
pub record Config : Type 0 where
  pub volume_deletion_enabled : Bool
  pub volume_last_mount_days_threshold : ℤ
  pub build_cache_deletion_enabled : Bool

abbrev pub blank : ResourceClass → Classification → Finding
blank c k = record {
  resource_class = c;
  classification = k;
  object_id = none;
  name = none;
  size_bytes = none;
  age_days = none;
  last_tag = none;
  exit_code = none;
  stopped_age_hours = none;
  last_mount_days = none;
  reclaimable_bytes = none;
}

abbrev pub as_tag : Option String → Option String
as_tag none = none
as_tag (some t) = if str_eq t "<none>" then none else some t

-- The branches of `_build_finding`.
abbrev pub build_cache_finding : Config → Option ℤ → Option Finding
build_cache_finding cfg none = none
build_cache_finding cfg (some n) =
    if equals (pos 0) (some n)
    then none
    else some
        (record (blank build_cache
          (classify_build_cache cfg.build_cache_deletion_enabled (some n))) {
            name = some "build_cache";
            reclaimable_bytes = some n;
          })

-- `int` is Python's; `none` is its ValueError.
module _ (int : String → Option ℤ) where
  -- `_safe_int`.
  unfoldable pub safe_int : Option String → Option ℤ
  safe_int none = none
  safe_int (some s) = if str_eq s "" then none else int s

  abbrev pub number : String → List (String × String) → Option ℤ
  number k kv = safe_int (lookup k kv)

  abbrev pub volume_finding : Config → List (String × String) → Option String → Option Finding
  volume_finding cfg kv none = none
  volume_finding cfg kv (some name) =
      let mounted = number "last_mount_days" kv in
      some
        (record (blank volume_unreferenced (
          classify_volume cfg.volume_last_mount_days_threshold cfg.volume_deletion_enabled
            mounted)) {
              name = some name;
              size_bytes = number "size_bytes" kv;
              last_mount_days = mounted;
            })

  abbrev pub container_finding : List (String × String) → Option String → Option Finding
  container_finding kv none = none
  container_finding kv (some id) =
      let code = number "exit_code" kv in
      let age = number "stopped_age_hours" kv in
      some (record (blank container_stopped (classify_stopped_container code age)) {
        object_id = some id;
        name = lookup "name" kv;
        exit_code = code;
        stopped_age_hours = age;
      })

  abbrev pub image_finding : ResourceClass → List (String × String) → Option String → Option Finding
  image_finding c kv none = none
  image_finding c kv (some id) =
      let age = number "age_days" kv in
      some (record (blank c (classify_image c age)) {
        object_id = some id;
        size_bytes = number "size_bytes" kv;
        age_days = age;
        last_tag = as_tag (lookup "last_tag" kv);
      })

  unfoldable pub build_finding : Config → ResourceClass → List (String × String) → Option Finding
  unfolding safe_int classify_image classify_stopped_container classify_volume classify_build_cache
      lookup
  build_finding cfg build_cache kv = build_cache_finding cfg (number "reclaimable_bytes" kv)
  build_finding cfg volume_unreferenced kv = volume_finding cfg kv (truthy (lookup "name" kv))
  build_finding cfg container_stopped kv = container_finding kv (truthy (lookup "id" kv))
  build_finding cfg image_dangling kv = image_finding image_dangling kv (truthy (lookup "id" kv))
  build_finding cfg image_unused kv = image_finding image_unused kv (truthy (lookup "id" kv))
