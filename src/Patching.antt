-- ===== src/Patching.antt =====
-- errander/agent/subgraphs/patching.py: the sub-graph that upgrades packages. Here are its state, what it
-- sends, and the reading of what package managers print.
pub mod Nodes
pub mod Graph
pub mod Execute
use Prim.Native.Char.{code}
use Prim.Native.String
use errander_ai.Common.{
  ℕ, String, Bool, true, false, not, ◌&&◌, ◌||◌, Option, none, some, List, [], ◌∷◌, ◌++◌, map,
  str_eq, leb, ◌==◌, if◌then◌else◌, any, select_where, strip, splitlines, split, partition,
  after_prefix, lookup, put, rsplit_first,
}
use errander_ai.Vm.{ActionStatus}

-- `MANDATORY_KERNEL_EXCLUDES`.
abbrev pub kernel_excludes : List String
kernel_excludes =
    "linux-*" ∷ "linux-image-*" ∷ "linux-headers-*" ∷ "kernel-*" ∷ "kernel-core-*"
    ∷ "kernel-modules-*" ∷ []

-- `fnmatch` is Python's `fnmatch.fnmatch`.
abbrev pub is_excluded : (String → String → Bool) → List String → String → Bool
is_excluded fnmatch patterns name = any (λ p. fnmatch name p) patterns

-- `_is_kernel_package`.
unfoldable pub is_kernel : (String → String → Bool) → String → Bool
is_kernel fnmatch name = is_excluded fnmatch kernel_excludes name

-- `safe_pkg` and `safe_ver`, which have the same pattern: whether they accept a text.
abbrev is_letter : ℕ → Bool
is_letter c = (leb b'a' c && leb c b'z') || (leb b'A' c && leb c b'Z') || (leb b'0' c && leb c b'9')

abbrev is_safe_char : ℕ → Bool
is_safe_char c =
    is_letter c || c == b'+' || c == b'-' || c == b'.' || c == b':' || c == b'~' || c == b'_'

safe_rest : String → Bool
safe_rest String.[] = true
safe_rest (String.◌∷◌ c s) =
    let rest = safe_rest s in (is_safe_char (code c) && rest) || (code c == 10 && str_eq s "")

unfoldable pub is_safe : String → Bool
unfolding safe_rest
is_safe String.[] = false
is_safe (String.◌∷◌ c s) = is_letter (code c) && safe_rest s

abbrev pub all_safe : List String → Bool
all_safe names = not (any (λ n. not (is_safe n)) names)

-- What the sub-graph sends over SSH.
pub data PatchCall : Type 0 where
  detect_lock refresh_lists list_upgradable simulate_upgrade reboot_probe : PatchCall
  installed_versions service_states : List String → PatchCall
  install_pinned simulate_pinned roll_back : List (String × String) → PatchCall

pub record PatchReply : Type 0 where
  pub is_success : Bool
  pub stdout : String

-- What the VM answers, by the calls that it has got before; `none` is an exception.
abbrev pub PatchVm : Type 0
PatchVm = List PatchCall → PatchCall → Option PatchReply

-- A package of the approved artifact; a target that is missing is empty.
pub record ApprovedPackage : Type 0 where
  pub name : String
  pub target : String

-- `PatchingGraphState`, with an error reduced to whether its text is there and not empty.
pub record PatchState : Type 0 where
  pub os_family : String
  pub dry_run : Bool
  pub exclude_patterns : List String
  pub approved_packages : List ApprovedPackage
  pub critical_services : List String
  pub status : ActionStatus
  pub has_error : Bool
  pub nothing_to_do : Bool
  pub pending_updates : List String
  pub version_snapshot : List (String × String)
  pub updated_versions : List (String × String)
  pub service_pre_snapshot : List (String × String)
  pub service_regressions : List String
  pub reboot_status_detected : Bool

-- The parameters of `build_patching_subgraph`.
pub record Checks : Type 0 where
  pub sre_preflight_lock_check : Bool
  pub sre_reboot_check : Bool
  pub sre_service_check : Bool

abbrev pub is_blank : String → Bool
is_blank s = str_eq s ""

-- The line of `_parse_upgradable` for apt and for dnf.
abbrev pub apt_name : Option (String × String) → List String
apt_name none = []
apt_name (some (name, rest)) = if is_blank name then [] else name ∷ []

abbrev pub dnf_name : List String → List String
dnf_name [] = []
dnf_name (word ∷ words) =
    let name = rsplit_first b'.' word in if is_blank name then [] else name ∷ []

abbrev pub is_debian : String → Bool
is_debian family = str_eq family "ubuntu" || str_eq family "debian"

abbrev pub starts : String → String → Bool
starts p s = elim (after_prefix p s) [ none ↦ false | some rest ↦ true ]

unfoldable pub upgradable_in : String → String → List String
upgradable_in family line =
    if is_blank line || starts "Listing" line || starts "Last metadata" line
    then []
    else if is_debian family
    then apt_name (partition b'/' line)
    else dnf_name (split line)

unfoldable pub upgradable_lines : String → List String → List String
upgradable_lines family [] = []
upgradable_lines family (line ∷ lines) =
    upgradable_in family (strip line) ++ upgradable_lines family lines

unfoldable pub parse_upgradable : String → String → List String
unfolding upgradable_lines upgradable_in strip splitlines split partition after_prefix rsplit_first
parse_upgradable output family = upgradable_lines family (splitlines (strip output))

abbrev pub put_pair : Option (String × String) → List (String × String) → List (String × String)
put_pair none d = d
put_pair (some (k, v)) d = put k v d

unfoldable pub version_lines : List String → List (String × String) → List (String × String)
version_lines [] d = d
version_lines (line ∷ lines) d = version_lines lines (put_pair (partition b'=' (strip line)) d)

unfoldable pub parse_versions : String → List (String × String)
unfolding version_lines strip splitlines partition put
parse_versions output = version_lines (splitlines (strip output)) []

-- `parse_service_statuses`, where a state is kept as its text.
abbrev pub put_service : Option (String × String) → List (String × String) → List (String × String)
put_service none d = d
put_service (some (name, state)) d =
    let shown = strip state in
    if is_blank (strip name)
    then d
    else put (strip name) (if is_blank shown then "unknown" else shown) d

unfoldable pub service_lines : List String → List (String × String) → List (String × String)
service_lines [] d = d
service_lines (line ∷ lines) d = service_lines lines (put_service (partition b'=' (strip line)) d)

abbrev pub put_missing : String → Option String → List (String × String) → List (String × String)
put_missing name none d = put name "unknown" d
put_missing name (some state) d = d

unfoldable pub fill_services : List String → List (String × String) → List (String × String)
fill_services [] d = d
fill_services (name ∷ names) d = fill_services names (put_missing name (lookup name d) d)

unfoldable pub parse_service_statuses : String → List String → List (String × String)
unfolding service_lines fill_services strip splitlines partition put lookup
parse_service_statuses stdout services =
    fill_services services (service_lines (splitlines (strip stdout)) [])

-- `find_regressions`: the services that were active and are not any more; one that is missing after the
-- action counts as it was before.
abbrev pub is_active : Option String → Bool
is_active none = true
is_active (some state) = str_eq state "active"

unfoldable pub find_regressions : List (String × String) → List (String × String) → List String
find_regressions [] post = []
find_regressions ((name, state) ∷ pre) post =
    let rest = find_regressions pre post in
    if str_eq state "active" && not (is_active (lookup name post)) then name ∷ rest else rest

-- `parse_reboot_status(...).needs_reboot`.
abbrev pub first_is_reboot : List String → Bool
first_is_reboot [] = false
first_is_reboot (line ∷ lines) = str_eq (strip line) "REBOOT=1"

unfoldable pub exit_is_one : List String → Bool
exit_is_one [] = false
exit_is_one (line ∷ lines) = elim (after_prefix "EXIT=" (strip line)) [
  | some code ↦ str_eq code "1"
  | none ↦ exit_is_one lines
]

unfoldable pub needs_reboot : String → String → Bool
unfolding exit_is_one strip splitlines after_prefix
needs_reboot stdout family =
    let lines = splitlines (strip stdout) in
    if is_debian family then first_is_reboot lines else exit_is_one lines
