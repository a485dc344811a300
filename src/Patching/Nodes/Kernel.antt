-- ===== src/Patching/Nodes/Kernel.antt =====
-- errander/agent/subgraphs/patching.py: the assessment of a VM without an artifact leaves out the kernel.
use mathlib.Core.Path.{subst}
use errander_ai.Common.{
  String, ◌≡◌, refl, sym, Bool, true, false, not, ◌||◌, List, [], ◌∷◌, ◌++◌, arith, if◌then◌else◌,
  if_holds, All, All-imp, All-select_where, any,
}
use errander_ai.Patching.{
  kernel_excludes, is_excluded, is_kernel, PatchCall, refresh_lists, list_upgradable, PatchReply,
  PatchVm, PatchState, parse_upgradable,
}
use errander_ai.Patching.Nodes.{
  send, done, fail_patch, validate_patch, with_pending, not_excluded, assess_fresh, assess_patch,
  is_empty_list,
}
use errander_ai.Patching.Graph.History.{Follows, Good, send-Good}
use errander_ai.Patching.Graph.Changes.{AtEnd, at_end}

any-append :
    (test : String → Bool) (xs ys : List String)
    → any test (xs ++ ys) ≡ (any test xs || any test ys)
any-append test [] ys = refl
any-append test (x ∷ xs) ys = ground (arith, any-append test xs ys)

anything : (before sent : List PatchCall) → Follows (λ earlier c. Unit {0}) before sent
anything before [] = tt
anything before (c ∷ sent) = (tt, anything (before ++ c ∷ []) sent)

module _ (fnmatch : String → String → Bool) where
  abbrev NoKernel : List String → Type 0
  NoKernel names = All (λ n. is_kernel fnmatch n ≡ false) names

  abbrev pub WithoutKernel : PatchState → Type 0
  WithoutKernel t = NoKernel t.pending_updates

  not_kernel :
      (user : List String) (n : String)
      → not (is_excluded fnmatch (kernel_excludes ++ user) n) ≡ true
      → is_kernel fnmatch n ≡ false
  unfolding is_kernel
  not_kernel user n e = ground (arith, any-append (λ p. fnmatch n p) kernel_excludes user)

  with_pending-WithoutKernel :
      (s : PatchState) (names : List String) → NoKernel names → WithoutKernel (with_pending s names)
  with_pending-WithoutKernel s [] a = tt
  with_pending-WithoutKernel s (n ∷ ns) a = a

  -- Whatever the package manager lists and whatever patterns the operator adds, no package that an
  -- assessment without an artifact leaves to be updated matches a pattern of the kernel. The assessment
  -- starts with no pending updates.
  pub assess-WithoutKernel :
      (vm : PatchVm) (sent : List PatchCall) (s : PatchState)
      → is_empty_list s.approved_packages ≡ true
      → s.pending_updates ≡ []
      → AtEnd WithoutKernel (assess_patch fnmatch vm sent (validate_patch s))
  unfolding assess_patch validate_patch assess_fresh
  assess-WithoutKernel vm sent s no_artifact idle =
      let P = λ (before : List PatchCall) (c : PatchCall). Unit {0} in
      let Q = λ (calls : List PatchCall). WithoutKernel in
      let t = validate_patch s in
      let listed = λ (reply : PatchReply).
        if reply.is_success
        then with_pending t (not_excluded fnmatch t (parse_upgradable reply.stdout s.os_family))
        else fail_patch t in
      let fresh : Good P Q (assess_fresh fnmatch vm sent t) =
        send-Good P Q vm sent refresh_lists
          (λ sent' refresh.
            send vm sent' list_upgradable (λ sent'' reply. done (listed reply) sent''))
          (anything [] sent) tt
          (λ refresh e b.
            send-Good P Q vm (sent ++ refresh_lists ∷ []) list_upgradable
              (λ sent'' reply. done (listed reply) sent'') b tt
              (λ reply e' c. (
                c,
                if_holds WithoutKernel reply.is_success
                    (λ _.
                      let names = parse_upgradable reply.stdout s.os_family in
                      with_pending-WithoutKernel t (not_excluded fnmatch t names) (
                        All-imp (not_excluded fnmatch t names) (not_kernel s.exclude_patterns) (
                          All-select_where
                            (λ n.
                              not (is_excluded fnmatch (kernel_excludes ++ s.exclude_patterns) n))
                            names)))
                    (λ _. subst NoKernel (sym idle) tt),
              ))) in
      rw no_artifact ((at_end P Q (assess_fresh fnmatch vm sent t) fresh).1)
