-- ===== src/Hygiene/Removal.antt =====
-- errander/agent/subgraphs/docker_hygiene.py: the input of the remove wrapper, and the reading of
-- what it prints.
pub mod Outcomes
use Prim.Native.String
use errander_ai.Common.{
  ℕ, String, Bool, true, false, not, ◌&&◌, ◌||◌, Option, none, some, List, [], ◌∷◌, ◌++◌, map,
  str_eq, if◌then◌else◌, any, ℤ, strip, splitlines, after_prefix, lookup, join_lines,
}
use errander_ai.Vm.{ActionStatus, status_pending, skipped, dry_run_ok, success, failed}
use errander_ai.Hygiene.{
  class_value, classification_value, Finding, identity, key_of, same_key, Assessment, is_nil,
  nothing_to_surface, compute_assessment_hash, truthy,
}
use errander_ai.Hygiene.Rules.{Config}
use errander_ai.Hygiene.Assess.{parse_kv_line, parse_assess_v2_output}

-- `RemovalStatus`.
pub data RemovalStatus : Type 0 where
  removed drift_skipped removal_failed skipped_not_found : RemovalStatus

-- `RemovalStatus(value)`; `none` is the ValueError.
unfoldable pub parse_status : String → Option RemovalStatus
parse_status v =
    if str_eq v "removed"
    then some removed
    else if str_eq v "drift_skipped"
    then some drift_skipped
    else if str_eq v "failed"
    then some removal_failed
    else if str_eq v "skipped_not_found"
    then some skipped_not_found
    else none

abbrev pub is_removed : RemovalStatus → Bool
is_removed removed = true
is_removed _ = false

abbrev pub is_failed : RemovalStatus → Bool
is_failed removal_failed = true
is_failed _ = false

abbrev pub is_drifted : RemovalStatus → Bool
is_drifted drift_skipped = true
is_drifted _ = false

-- `DockerHygieneRemovalResult`.
pub record RemovalResult : Type 0 where
  pub finding : Finding
  pub status : RemovalStatus
  pub drift_reason : Option String
  pub error : Option String

-- `DockerHygieneApproval`, as far as it is read.
pub record HygieneApproval : Type 0 where
  pub approved_findings : List Finding
  pub snapshot_hash : String

-- The lines of the allowlist, joined.
abbrev pub allowlist_line : Finding → String
allowlist_line f = String.◌++◌ "class=" (
    String.◌++◌ (class_value f.resource_class) (
      String.◌++◌ " id=" (
        String.◌++◌ (identity f)
          (String.◌++◌ " expected=" (classification_value f.classification)))))

unfoldable pub build_allowlist : List Finding → String
unfolding identity join_lines
build_allowlist findings = String.◌++◌ (join_lines (map allowlist_line findings)) "\n"

-- A dict in the order in which its keys came in: an assignment to a key that is there keeps its place.
abbrev pub Keyed : Type 0
Keyed = List ((String × String) × Finding)

abbrev pub assign : String × String → Finding → Keyed → Keyed
assign k f [] = (k, f) ∷ []
assign k f ((j, g) ∷ d) =
    let rest = assign k f d in if same_key j k then (j, f) ∷ d else (j, g) ∷ rest

-- `by_key`.
unfoldable pub by_key : List Finding → Keyed → Keyed
by_key [] d = d
by_key (f ∷ fs) d = by_key fs (assign (key_of f) f d)

unfoldable pub find_key : String × String → Keyed → Option Finding
find_key k [] = none
find_key k ((j, f) ∷ d) = let rest = find_key k d in if same_key j k then some f else rest

abbrev pub or_empty : Option String → String
or_empty none = ""
or_empty (some s) = s

-- A result line with a status that is known, and one with another.
abbrev pub reported : Finding → Option String → Option RemovalStatus → String → RemovalResult
reported f reason (some s) text = record {
  finding = f;
  status = s;
  drift_reason = if is_drifted s then reason else none;
  error = if is_failed s then reason else none;
}
reported f reason none text = record {
  finding = f;
  status = removal_failed;
  drift_reason = none;
  error = some (String.◌++◌ "unknown_status:" text);
}

abbrev pub field : String → List (String × String) → String
field k kv = or_empty (lookup k kv)

-- The results with the keys that they are for, which are the set `seen`.
abbrev pub Results : Type 0
Results = List ((String × String) × RemovalResult)

abbrev pub add_reported : List (String × String) → Option Finding → Results → Results
add_reported kv none rs = rs
add_reported kv (some f) rs =
    rs
    ++ (
      (field "class" kv, field "id" kv),
      reported f (truthy (some (field "reason" kv))) (parse_status (field "status" kv))
          (field "status" kv),
    )
      ∷ []

unfoldable pub read_result : Keyed → Option String → Results → Results
read_result d none rs = rs
read_result d (some line) rs =
    let kv = parse_kv_line line in add_reported kv (find_key (field "class" kv, field "id" kv) d) rs

unfoldable pub read_results : Keyed → List String → Results → Results
read_results d [] rs = rs
read_results d (line ∷ lines) rs =
    read_results d lines (read_result d (after_prefix "result " (strip line)) rs)

abbrev pub missing : Finding → RemovalResult
missing f = record {
  finding = f;
  status = removal_failed;
  drift_reason = none;
  error = some "no_result_from_wrapper";
}

abbrev pub seen : Results → String × String → Bool
seen rs k = any (λ r. same_key r.0 k) rs

-- The results of the objects that the wrapper said nothing of.
unfoldable pub fill : Results → Keyed → List RemovalResult
fill rs [] = []
fill rs ((k, f) ∷ d) = let rest = fill rs d in if seen rs k then rest else missing f ∷ rest

unfoldable pub parse_remove_v2_output : String → List Finding → List RemovalResult
unfolding by_key read_results read_result parse_status fill find_key splitlines strip after_prefix
    parse_kv_line lookup identity
parse_remove_v2_output stdout approved =
    let d = by_key approved [] in
    let rs = read_results d (splitlines stdout) [] in map (λ r. r.1) rs ++ fill rs d

-- The status of the action by those of its objects.
unfoldable pub aggregate_status : List RemovalResult → ActionStatus
aggregate_status rs =
    if any (λ r. is_failed r.status) rs
    then failed
    else if any (λ r. is_removed r.status) rs
    then success
    else skipped
