-- ===== src/Cleanup/Requested.antt =====
-- errander/agent/subgraphs/disk_cleanup.py: what a run may change, and the gate before an autoremove.
use errander_ai.Common.{
  ℕ, String, ◌≡◌, refl, sym, ap, ◌∙◌, Bool, true, false, not, ◌&&◌, ◌||◌, Option, none, some, List,
  [], ◌∷◌, ◌++◌, arith, str_eq, eq_iff, if◌then◌else◌, if_holds, All, All-append_one, ◌==◌,
  Bool-cases, ◌⊎◌, inl, inr,
}
use errander_ai.Vm.{failed}
use errander_ai.Cleanup.{
  Command, disk_usage, cache_size, journal_size, simulate_autoremove, clean_cache, autoremove,
  tmp_assess, tmp_cleanup, vacuum_journal, Answers, Request, default_paths, paths_of, validate,
  is_cache, assess_path, assess_paths, assess, is_in, same_set, current_in, clean_with,
  remove_orphans, clean_path, clean_paths, disk_cleanup,
}
use errander_ai.Cleanup.Reads.{changes, Sent, disk_cleanup-Sent}

module _ (P : Command → Type 0) (vm : Answers) where
  clean_with-Sent :
      (command simulate : Command) (dry : Bool) (path : String) (e : List Command × List String)
      → P (if dry then simulate else command)
      → Sent P e
      → Sent P (clean_with vm command simulate dry path e)
  clean_with-Sent command simulate dry path (sent, failures) p s =
      All-append_one P sent (if dry then simulate else command) s p

  remove_orphans-Sent :
      (dry : Bool) (assessed : List String) (e : List Command × List String)
      → P simulate_autoremove
      → P (if dry then simulate_autoremove else autoremove)
      → Sent P e
      → Sent P (remove_orphans vm dry assessed e)
  unfolding remove_orphans
  remove_orphans-Sent dry assessed (sent, failures) reads p s =
      let again = All-append_one P sent simulate_autoremove s reads in
      let simulated =
        clean_with-Sent autoremove simulate_autoremove dry "orphaned-deps" (sent, failures) p s in
      let removed =
        clean_with-Sent autoremove simulate_autoremove dry "orphaned-deps"
          (sent ++ simulate_autoremove ∷ [], failures) p again in
      if_holds (Sent P) dry (λ _. simulated)
        (λ _.
          if_holds (Sent P) (same_set (current_in (vm sent simulate_autoremove)) assessed)
            (λ _. removed) (λ _. again))

  -- What the commands of a path keep, if each of them keeps it where its path is among the paths.
  record Allows (r : Request) (paths : List String) : Type 0 where
    read : (c : Command) → changes c ≡ false → P c
    tmp :
        is_in "/tmp" paths ≡ true
        → P (if r.dry_run then tmp_assess r.tmp_age_days else tmp_cleanup r.tmp_age_days)
    cache :
        (is_in "apt-cache" paths || is_in "yum-cache" paths) ≡ true
        → P (if r.dry_run then cache_size else clean_cache)
    journal :
        is_in "journal" paths ≡ true
        → P (if r.dry_run then journal_size else vacuum_journal r.journal_vacuum_days)
    orphans :
        is_in "orphaned-deps" paths ≡ true
        → P (if r.dry_run then simulate_autoremove else autoremove)

  same_path :
      (path name : String) (paths : List String)
      → str_eq path name ≡ true
      → is_in path paths ≡ true
      → is_in name paths ≡ true
  same_path path name paths same here =
      sym (ap (λ n. is_in n paths) ((eq_iff path name).0 same)) ∙ here

  cache_path :
      (path : String) (paths : List String)
      → is_cache path ≡ true
      → is_in path paths ≡ true
      → (is_in "apt-cache" paths || is_in "yum-cache" paths) ≡ true
  cache_path path paths same here = elim (Bool-cases (str_eq path "apt-cache")) [
    | inl apt ↦ ground (arith, same_path path "apt-cache" paths apt here)
    | inr other ↦
        let yum : str_eq path "yum-cache" ≡ true = ground (arith, same, other) in
        ground (arith, same_path path "yum-cache" paths yum here)
  ]

  clean_path-Sent :
      (r : Request) (paths assessed : List String) (path : String) (e : List Command × List String)
      → Allows r paths
      → is_in path paths ≡ true
      → Sent P e
      → Sent P (clean_path vm r paths assessed path e)
  unfolding clean_path
  clean_path-Sent r paths assessed path e a here s =
      if_holds (Sent P) (str_eq path "/tmp")
        (λ same.
          clean_with-Sent (tmp_cleanup r.tmp_age_days) (tmp_assess r.tmp_age_days) r.dry_run path e
            (a.tmp (same_path path "/tmp" paths same here)) s)
        (λ _.
          if_holds (Sent P) (is_cache path)
            (λ same.
              clean_with-Sent clean_cache cache_size r.dry_run path e
                (a.cache (cache_path path paths same here)) s)
            (λ _.
              if_holds (Sent P) (str_eq path "journal")
                (λ same.
                  clean_with-Sent (vacuum_journal r.journal_vacuum_days) journal_size r.dry_run path
                    e (a.journal (same_path path "journal" paths same here)) s)
                (λ _.
                  if_holds (Sent P) (str_eq path "orphaned-deps" && is_in "orphaned-deps" paths)
                    (λ same.
                      remove_orphans-Sent r.dry_run assessed e (a.read simulate_autoremove refl)
                        (a.orphans (ground (arith, same))) s)
                    (λ _. s))))

-- A dry run sends only commands that read, whatever the VM answers.
pub dry_run_reads :
    (vm : Answers) (r : Request)
    → r.dry_run ≡ true
    → All (λ c. changes c ≡ false) (disk_cleanup vm r).0
dry_run_reads vm r dry =
    let P = λ (c : Command). changes c ≡ false in
    disk_cleanup-Sent P vm r (λ c reads. reads)
      (λ assessed path f here s.
        clean_path-Sent P vm r (paths_of r) assessed path f
          (record {
            read = λ c reads. reads;
            tmp = λ _.
                ap
                  (λ b.
                    changes (if b then tmp_assess r.tmp_age_days else tmp_cleanup r.tmp_age_days))
                  dry;
            cache = λ _. ap (λ b. changes (if b then cache_size else clean_cache)) dry;
            journal = λ _.
                ap (λ b. changes (if b then journal_size else vacuum_journal r.journal_vacuum_days))
                  dry;
            orphans = λ _. ap (λ b. changes (if b then simulate_autoremove else autoremove)) dry;
          })
          here s)

-- Whether the caller lets a path be changed: it named the path, or it named no paths at all and the path
-- is not orphaned-deps.
abbrev is_allowed : Option (List String) → String → Bool
is_allowed none name = not (str_eq name "orphaned-deps")
is_allowed (some paths) name = is_in name paths

-- Whether a command reads, or changes what the caller lets be changed, with the age that is configured.
abbrev pub is_requested : Request → Command → Bool
is_requested r clean_cache =
    is_allowed r.whitelist_paths "apt-cache" || is_allowed r.whitelist_paths "yum-cache"
is_requested r autoremove = is_allowed r.whitelist_paths "orphaned-deps"
is_requested r (tmp_cleanup days) = is_allowed r.whitelist_paths "/tmp" && days == r.tmp_age_days
is_requested r (vacuum_journal days) =
    is_allowed r.whitelist_paths "journal" && days == r.journal_vacuum_days
is_requested r _ = true

default_paths-is_allowed :
    (name : String) → is_in name default_paths ≡ true → is_allowed none name ≡ true
default_paths-is_allowed name here = elim (Bool-cases (str_eq name "orphaned-deps")) [
  | inl same ↦ absurd (
      ground
        (arith, ap (λ n. is_in n default_paths) (sym ((eq_iff name "orphaned-deps").0 same)), here))
  | inr other ↦ rw other refl
]

chosen-is_allowed :
    (name : String) (whitelist : Option (List String))
    → is_in name (elim whitelist [ none ↦ default_paths | some paths ↦ paths ]) ≡ true
    → is_allowed whitelist name ≡ true
chosen-is_allowed name none here = default_paths-is_allowed name here
chosen-is_allowed name (some paths) here = here

-- A path that the run takes is one that the caller lets be changed.
paths_of-is_allowed :
    (name : String) (r : Request)
    → is_in name (paths_of r) ≡ true
    → is_allowed r.whitelist_paths name ≡ true
paths_of-is_allowed name r here = chosen-is_allowed name r.whitelist_paths here

caches-is_allowed :
    (r : Request)
    → (is_in "apt-cache" (paths_of r) || is_in "yum-cache" (paths_of r)) ≡ true
    → (is_allowed r.whitelist_paths "apt-cache" || is_allowed r.whitelist_paths "yum-cache") ≡ true
caches-is_allowed r here = elim (Bool-cases (is_in "apt-cache" (paths_of r))) [
  | inl apt ↦ ground (arith, paths_of-is_allowed "apt-cache" r apt)
  | inr other ↦ ground (arith, paths_of-is_allowed "yum-cache" r (ground (arith, here, other)))
]

reads-is_requested : (r : Request) (c : Command) → changes c ≡ false → is_requested r c ≡ true
reads-is_requested r c reads = ground (arith, reads)

refused :
    (vm : Answers) (r : Request)
    → (validate (paths_of r) ≡ true) ⊎ (disk_cleanup vm r ≡ ([], failed))
unfolding disk_cleanup
refused vm r = elim (Bool-cases (validate (paths_of r))) [
  | inl valid ↦ inl valid
  | inr bad ↦ inr (rw bad refl)
]

-- Every command of a run reads, or changes what the caller lets be changed, with the configured age: a
-- path that the caller named, or, where the caller named no paths, one that is not orphaned-deps.
-- So an autoremove is only sent if the caller named orphaned-deps. And either all paths are on the
-- whitelist, or the run fails and sends nothing.
pub only_requested :
    (vm : Answers) (r : Request)
    → All (λ c. is_requested r c ≡ true) (disk_cleanup vm r).0
      × ((validate (paths_of r) ≡ true) ⊎ (disk_cleanup vm r ≡ ([], failed)))
only_requested vm r =
    let P = λ (c : Command). is_requested r c ≡ true in
    (
      disk_cleanup-Sent P vm r (reads-is_requested r) (λ assessed path f here s.
          clean_path-Sent P vm r (paths_of r) assessed path f
            (record {
              read = reads-is_requested r;
              tmp = λ asked.
                  if_holds P r.dry_run (λ _. refl)
                    (λ _. ground (arith, paths_of-is_allowed "/tmp" r asked));
              cache = λ asked. if_holds P r.dry_run (λ _. refl) (λ _. caches-is_allowed r asked);
              journal = λ asked.
                  if_holds P r.dry_run (λ _. refl)
                    (λ _. ground (arith, paths_of-is_allowed "journal" r asked));
              orphans = λ asked.
                  if_holds P r.dry_run (λ _. refl)
                    (λ _. paths_of-is_allowed "orphaned-deps" r asked);
            })
            here s),
      refused vm r,
    )

-- A request for the orphaned packages alone, in a live run.
abbrev pub only_orphans : ℕ → ℕ → Request
only_orphans tmp_age journal_age = record {
  dry_run = false;
  whitelist_paths = some ("orphaned-deps" ∷ []);
  tmp_age_days = tmp_age;
  journal_vacuum_days = journal_age;
}

one_by_one :
    (sent : List Command) (a b c : Command)
    → ((sent ++ a ∷ []) ++ b ∷ []) ++ c ∷ [] ≡ sent ++ a ∷ b ∷ c ∷ []
one_by_one [] a b c = refl
one_by_one (d ∷ sent) a b c = ap (λ rest. d ∷ rest) (one_by_one sent a b c)

module _ (vm : Answers)
    (fails : (sent : List Command) → (vm sent simulate_autoremove).is_success ≡ false) where
  blind_removal :
      (commands : List Command) (paths : List String)
      → (remove_orphans vm false [] (commands, paths)).0
        ≡ (commands ++ simulate_autoremove ∷ []) ++ autoremove ∷ []
  unfolding remove_orphans
  blind_removal commands paths = rw (fails commands) refl

  blind_assessment :
      (tmp_age journal_age : ℕ)
      → ((assess vm (only_orphans tmp_age journal_age) ("orphaned-deps" ∷ [])).1 ≡ [])
  unfolding assess assess_paths assess_path
  blind_assessment tmp_age journal_age =
      if_holds (λ (a : List Command × List String). a.1 ≡ [])
        ((vm [] disk_usage).is_success && (vm [] disk_usage).is_blank) (λ _. refl)
        (λ _. rw (fails (disk_usage ∷ [])) refl)

  -- If the simulation fails both at the assessment and before the removal, the two empty lists agree, and
  -- a live run that was asked for orphaned-deps still sends the removal, after the commands of the
  -- assessment and the failed simulation.
  pub unlisted_autoremove :
      (tmp_age journal_age : ℕ)
      → (disk_cleanup vm (only_orphans tmp_age journal_age)).0
        ≡ (assess vm (only_orphans tmp_age journal_age) ("orphaned-deps" ∷ [])).0
          ++ simulate_autoremove ∷ autoremove ∷ disk_usage ∷ []
  unfolding disk_cleanup validate clean_paths clean_path
  unlisted_autoremove tmp_age journal_age =
      let a = assess vm (only_orphans tmp_age journal_age) ("orphaned-deps" ∷ []) in
      ap (λ assessed. (remove_orphans vm false assessed (a.0, [])).0 ++ disk_usage ∷ [])
        (blind_assessment tmp_age journal_age)
      ∙ (ap (λ sent. sent ++ disk_usage ∷ []) (blind_removal a.0 [])
          ∙ one_by_one a.0 simulate_autoremove autoremove disk_usage)
