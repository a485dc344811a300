-- ===== src/Cleanup/Reads.antt =====
-- errander/agent/subgraphs/disk_cleanup.py: a dry run only reads.
use errander_ai.Common.{
  String, ◌≡◌, refl, Bool, true, false, ◌&&◌, List, [], ◌∷◌, arith, str_eq, if_holds, All,
  All-append_one, eq_refl,
}
use errander_ai.Vm.{ActionStatus}
use errander_ai.Cleanup.{
  Command, disk_usage, cache_size, journal_size, simulate_autoremove, clean_cache, autoremove,
  tmp_assess, tmp_cleanup, vacuum_journal, Answers, Request, paths_of, validate, is_cache,
  assess_path, assess_paths, assess, is_in, clean_path, clean_paths, disk_cleanup,
}

-- Whether a command changes the VM.
abbrev pub changes : Command → Bool
changes clean_cache = true
changes autoremove = true
changes (tmp_cleanup days) = true
changes (vacuum_journal days) = true
changes _ = false

-- Every element of a list is in it.
is_in-more :
    (xs : List String) (y : String) (zs : List String)
    → All (λ x. is_in x zs ≡ true) xs
    → All (λ x. is_in x (y ∷ zs) ≡ true) xs
is_in-more [] y zs a = tt
is_in-more (x ∷ xs) y zs (h, t) = (ground (arith, h), is_in-more xs y zs t)

every_is_in : (xs : List String) → All (λ x. is_in x xs ≡ true) xs
every_is_in [] = tt
every_is_in (x ∷ xs) = (ground (arith, eq_refl x), is_in-more xs x xs (every_is_in xs))

module _ (P : Command → Type 0) where
  abbrev pub Sent : List Command × List String → Type 0
  Sent r = All P r.0

  module _ (vm : Answers) (r : Request) (reads : (c : Command) → changes c ≡ false → P c) where
    assess_path-Sent :
        (path : String) (a : List Command × List String) → Sent a → Sent (assess_path vm r path a)
    unfolding assess_path
    assess_path-Sent path (sent, orphans) s =
        if_holds Sent (str_eq path "/tmp")
          (λ _.
            All-append_one P sent (tmp_assess r.tmp_age_days) s
              (reads (tmp_assess r.tmp_age_days) refl))
          (λ _.
            if_holds Sent (is_cache path)
              (λ _. All-append_one P sent cache_size s (reads cache_size refl))
              (λ _.
                if_holds Sent (str_eq path "journal")
                  (λ _. All-append_one P sent journal_size s (reads journal_size refl))
                  (λ _.
                    if_holds Sent (str_eq path "orphaned-deps")
                      (λ _.
                        All-append_one P sent simulate_autoremove s
                          (reads simulate_autoremove refl))
                      (λ _. s))))

    assess_paths-Sent :
        (paths : List String) (a : List Command × List String)
        → Sent a
        → Sent (assess_paths vm r paths a)
    unfolding assess_paths
    assess_paths-Sent [] a s = s
    assess_paths-Sent (path ∷ paths) a s =
        assess_paths-Sent paths (assess_path vm r path a) (assess_path-Sent path a s)

    -- The assessment only reads.
    pub assess-Sent : (paths : List String) → Sent (assess vm r paths)
    unfolding assess
    assess-Sent paths =
        let first : Sent (disk_usage ∷ [], []) = (reads disk_usage refl, tt) in
        if_holds Sent ((vm [] disk_usage).is_success && (vm [] disk_usage).is_blank) (λ _. first)
          (λ _. assess_paths-Sent paths (disk_usage ∷ [], []) first)

    -- A loop that keeps a property of the commands for each path keeps it for all.
    clean_paths-Sent :
        (paths assessed rest : List String) (e : List Command × List String)
        → ((path : String) (f : List Command × List String)
            → is_in path paths ≡ true
            → Sent f
            → Sent (clean_path vm r paths assessed path f))
        → All (λ path. is_in path paths ≡ true) rest
        → Sent e
        → Sent (clean_paths vm r paths assessed rest e)
    unfolding clean_paths
    clean_paths-Sent paths assessed [] e keeps among s = s
    clean_paths-Sent paths assessed (path ∷ rest) e keeps (here, among) s =
        clean_paths-Sent paths assessed rest (clean_path vm r paths assessed path e) keeps among
          (keeps path e here s)

    pub disk_cleanup-Sent :
        ((assessed : List String) (path : String) (f : List Command × List String)
          → is_in path (paths_of r) ≡ true
          → Sent f
          → Sent (clean_path vm r (paths_of r) assessed path f))
        → All P (disk_cleanup vm r).0
    unfolding disk_cleanup
    disk_cleanup-Sent keeps =
        let paths = paths_of r in
        let a = assess vm r paths in
        let e = clean_paths vm r paths a.1 paths (a.0, []) in
        let cleaned : Sent e =
          clean_paths-Sent paths a.1 paths (a.0, []) (λ path f. keeps a.1 path f)
            (every_is_in paths) (assess-Sent paths) in
        if_holds (λ (x : List Command × ActionStatus). All P x.0) (validate paths)
          (λ _.
            if_holds (λ (sent : List Command). All P sent) r.dry_run (λ _. cleaned)
              (λ _. All-append_one P e.0 disk_usage cleaned (reads disk_usage refl)))
          (λ _. tt)
