-- ===== src/Cleanup.antt =====
-- errander/agent/subgraphs/disk_cleanup.py: the sub-graph that cleans up the disk of a VM, with what it
-- sends over SSH. Texts of commands are left out, and so is the os family, which picks among them.
pub mod Reads
pub mod Requested
use errander_ai.Common.{
  ℕ, String, Bool, true, false, not, ◌&&◌, ◌||◌, Option, none, some, List, [], ◌∷◌, ◌++◌, str_eq,
  if◌then◌else◌, any,
}
use errander_ai.Vm.{ActionStatus, dry_run_ok, success, failed}
use errander_ai.Vm.Validate.{is_whitelisted}

-- The commands of the sub-graph; the ages are in days.
pub data Command : Type 0 where
  disk_usage cache_size journal_size simulate_autoremove clean_cache autoremove : Command
  tmp_assess tmp_cleanup vacuum_journal : ℕ → Command

-- An `SSHResult`, with its text read: whether it is blank, and the packages that
-- `_parse_autoremove_candidates` finds in it.
pub record Reply : Type 0 where
  pub is_success : Bool
  pub is_blank : Bool
  pub candidates : List String

-- What the VM answers to a command, by the commands that it has got before.
abbrev pub Answers : Type 0
Answers = List Command → Command → Reply

-- `SandboxExecutor.execute`: in a dry run the simulate command is sent in place of the other one.
abbrev pub execute : Answers → Command → Command → Bool → List Command → List Command × Reply
execute vm command simulate dry_run sent =
    let c = if dry_run then simulate else command in (sent ++ c ∷ [], vm sent c)

-- `EXPLICIT_OPT_IN_PATHS` is orphaned-deps alone; the order of the set of the other paths is chosen.
abbrev pub default_paths : List String
default_paths = "/tmp" ∷ "apt-cache" ∷ "yum-cache" ∷ "journal" ∷ []

-- What the sub-graph gets: `whitelist_paths` may be missing.
pub record Request : Type 0 where
  pub dry_run : Bool
  pub whitelist_paths : Option (List String)
  pub tmp_age_days : ℕ
  pub journal_vacuum_days : ℕ

abbrev pub paths_of : Request → List String
paths_of r = elim r.whitelist_paths [ none ↦ default_paths | some paths ↦ paths ]

-- `validate_node` without its messages.
unfoldable pub validate : List String → Bool
validate paths = not (any (λ p. not (is_whitelisted p)) paths)

abbrev pub is_cache : String → Bool
is_cache path = str_eq path "apt-cache" || str_eq path "yum-cache"

-- What the simulation of an autoremove shows.
abbrev pub assessed_in : Reply → List String
assessed_in reply = if reply.is_success && not reply.is_blank then reply.candidates else []

-- One path of `assess_node`, with the `orphaned_candidates` found before it.
unfoldable pub assess_path :
    Answers → Request → String → List Command × List String → List Command × List String
assess_path vm r path (sent, orphans) =
    let (after, reply) = execute vm simulate_autoremove simulate_autoremove false sent in
    if str_eq path "/tmp"
    then (
      (execute vm (tmp_assess r.tmp_age_days) (tmp_assess r.tmp_age_days) false sent).0,
      orphans,
    )
    else if is_cache path
    then ((execute vm cache_size cache_size false sent).0, orphans)
    else if str_eq path "journal"
    then ((execute vm journal_size journal_size false sent).0, orphans)
    else if str_eq path "orphaned-deps"
    then (after, assessed_in reply)
    else (sent, orphans)

unfoldable pub assess_paths :
    Answers → Request → List String → List Command × List String → List Command × List String
assess_paths vm r [] a = a
assess_paths vm r (path ∷ paths) a = assess_paths vm r paths (assess_path vm r path a)

-- `assess_node`: a blank answer to `df` ends it, but the graph goes on to `execute_node`.
unfoldable pub assess : Answers → Request → List String → List Command × List String
assess vm r paths =
    let (sent, reply) = execute vm disk_usage disk_usage false [] in
    let assessed = assess_paths vm r paths (sent, []) in
    if reply.is_success && reply.is_blank then (sent, []) else assessed

abbrev pub is_in : String → List String → Bool
is_in name names = any (λ n. str_eq n name) names

-- `set(current) == set(assessed)`.
abbrev pub same_set : List String → List String → Bool
same_set xs ys = not (any (λ x. not (is_in x ys)) xs) && not (any (λ y. not (is_in y xs)) ys)

-- A command for one path, and the path among the failed ones if a live command fails.
abbrev pub clean_with :
    Answers
    → Command
    → Command
    → Bool
    → String
    → List Command × List String
    → List Command × List String
clean_with vm command simulate dry_run path (sent, failures) =
    let (after, reply) = execute vm command simulate dry_run sent in
    (after, if not reply.is_success && not dry_run then failures ++ path ∷ [] else failures)

abbrev pub current_in : Reply → List String
current_in reply = if reply.is_success then reply.candidates else []

-- The path orphaned-deps of `execute_node`, with its second simulation in a live run.
unfoldable pub remove_orphans :
    Answers → Bool → List String → List Command × List String → List Command × List String
remove_orphans vm dry_run assessed (sent, failures) =
    let (again, reply) = execute vm simulate_autoremove simulate_autoremove false sent in
    let simulated =
      clean_with vm autoremove simulate_autoremove dry_run "orphaned-deps" (sent, failures) in
    let removed =
      clean_with vm autoremove simulate_autoremove dry_run "orphaned-deps" (again, failures) in
    if dry_run
    then simulated
    else if same_set (current_in reply) assessed
    then removed
    else (again, failures)

-- One path of `execute_node`, with the paths that have failed before it.
unfoldable pub clean_path :
    Answers
    → Request
    → List String
    → List String
    → String
    → List Command × List String
    → List Command × List String
clean_path vm r paths assessed path e =
    let orphans = remove_orphans vm r.dry_run assessed e in
    if str_eq path "/tmp"
    then clean_with vm (tmp_cleanup r.tmp_age_days) (tmp_assess r.tmp_age_days) r.dry_run path e
    else if is_cache path
    then clean_with vm clean_cache cache_size r.dry_run path e
    else if str_eq path "journal"
    then clean_with vm (vacuum_journal r.journal_vacuum_days) journal_size r.dry_run path e
    else if str_eq path "orphaned-deps" && is_in "orphaned-deps" paths
    then orphans
    else e

-- The loop of `execute_node` over what is left of the paths.
unfoldable pub clean_paths :
    Answers
    → Request
    → List String
    → List String
    → List String
    → List Command × List String
    → List Command × List String
clean_paths vm r paths assessed [] e = e
clean_paths vm r paths assessed (path ∷ rest) e =
    clean_paths vm r paths assessed rest (clean_path vm r paths assessed path e)

abbrev pub status_of : Bool → List String → ActionStatus
status_of true failures = dry_run_ok
status_of false [] = success
status_of false (path ∷ failures) = failed

-- `execute_node` and, in a live run, `verify_node`.
abbrev pub finish : Answers → Bool → List Command × List String → List Command × ActionStatus
finish vm dry_run (sent, failures) =
    (if dry_run then sent else sent ++ disk_usage ∷ [], status_of dry_run failures)

-- The graph: the commands that it sends, and the final status.
unfoldable pub disk_cleanup : Answers → Request → List Command × ActionStatus
disk_cleanup vm r =
    let paths = paths_of r in
    let (sent, assessed) = assess vm r paths in
    let done = finish vm r.dry_run (clean_paths vm r paths assessed paths (sent, [])) in
    if validate paths then done else ([], failed)
