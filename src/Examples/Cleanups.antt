-- ===== src/Examples/Cleanups.antt =====
-- Runs of errander/agent/subgraphs/disk_cleanup.py on two VMs.
use errander_ai.Common.{◌≡◌, ◌⊎◌, refl, true, false, some, [], ◌∷◌, All}
use errander_ai.Vm.{success, failed}
use errander_ai.Cleanup.{
  disk_usage, simulate_autoremove, autoremove, Answers, Request, validate, assess, assess_paths,
  assess_path, remove_orphans, clean_path, clean_paths, disk_cleanup,
}
use errander_ai.Cleanup.Reads.{changes}
use errander_ai.Cleanup.Requested.{is_requested, only_orphans, dry_run_reads, only_requested}

-- A VM on which two packages are orphaned.
abbrev two_orphans : Answers
two_orphans = λ sent c. record {
  is_success = true;
  is_blank = false;
  candidates = "libold" ∷ "libolder" ∷ [];
}

-- A VM on which every command but the usage of the disk fails.
abbrev broken_apt : Answers
broken_apt = λ sent c. record {
  is_success = elim c [ disk_usage ↦ true | _ ↦ false ];
  is_blank = false;
  candidates = [];
}

abbrev rehearsal : Request
rehearsal = record {
  dry_run = true;
  whitelist_paths = some ("/tmp" ∷ "orphaned-deps" ∷ []);
  tmp_age_days = 7;
  journal_vacuum_days = 7;
}

dry_run_reads_example : All (λ c. changes c ≡ false) (disk_cleanup two_orphans rehearsal).0
dry_run_reads_example = dry_run_reads two_orphans rehearsal refl

only_requested_example :
    All
      (λ c. is_requested (only_orphans 7 7) c ≡ true)
      (disk_cleanup two_orphans (only_orphans 7 7)).0
    × ((validate ("orphaned-deps" ∷ []) ≡ true)
        ⊎ (disk_cleanup two_orphans (only_orphans 7 7) ≡ ([], failed)))
only_requested_example = only_requested two_orphans (only_orphans 7 7)

removes_listed : disk_cleanup two_orphans (only_orphans 7 7) ≡ (
  disk_usage ∷ simulate_autoremove ∷ simulate_autoremove ∷ autoremove ∷ disk_usage ∷ [],
  success,
)
unfolding disk_cleanup validate assess assess_paths assess_path clean_paths clean_path
    remove_orphans
removes_listed = refl
