-- ===== src/Patching/Graph/History.antt =====
-- errander/agent/subgraphs/patching.py: what a property of the calls of a run, each with those before it,
-- and of its end needs, and what a run knows of its calls.
use mathlib.Core.List.{append_assoc}
use mathlib.Core.Path.{subst}
use errander_ai.Common.{
  String, append_nil, sym, ap, ◌∙◌, ◌≡◌, ◌⊎◌, inl, inr, refl, Bool, true, false, Option, none, some,
  List, [], ◌∷◌, ◌++◌, All, All-append_one,
}
use errander_ai.Patching.{
  PatchCall, installed_versions, install_pinned, roll_back, PatchReply, PatchVm, ApprovedPackage,
  PatchState, parse_versions,
}
use errander_ai.Patching.Nodes.{PatchRun, and_then, on_reply, send}

-- Whether a call changes the packages of the VM; refreshing the lists does not.
abbrev pub changes_packages : PatchCall → Bool
changes_packages (install_pinned pinned) = true
changes_packages (roll_back specs) = true
changes_packages _ = false

-- What holds of each call together with those before it.
abbrev pub Follows :
    (List PatchCall → PatchCall → Type 0) → List PatchCall → List PatchCall → Type 0
Follows P before [] = Unit
Follows P before (c ∷ calls) = P before c × Follows P (before ++ c ∷ []) calls

pub Follows-append_one :
    (P : List PatchCall → PatchCall → Type 0) (before calls : List PatchCall) (c : PatchCall)
    → Follows P before calls
    → P (before ++ calls) c
    → Follows P before (calls ++ c ∷ [])
Follows-append_one P before [] c a p = (subst (λ x. P x c) (append_nil before) p, tt)
Follows-append_one P before (d ∷ calls) c (h, a) p = (
  h,
  Follows-append_one P (before ++ d ∷ []) calls c a
      (subst (λ x. P x c) (sym (append_assoc before (d ∷ []) calls)) p),
)

-- What holds of the calls of a run, and of its calls and state if no exception was raised.
module _ (P : List PatchCall → PatchCall → Type 0) where
  module _ (Q : List PatchCall → PatchState → Type 0) where
    abbrev pub Good : PatchRun → Type 0
    Good (sent, none) = Follows P [] sent
    Good (sent, some s) = Follows P [] sent × Q sent s

    on_reply-Good :
        (sent : List PatchCall) (o : Option PatchReply) (k : List PatchCall → PatchReply → PatchRun)
        → Follows P [] sent
        → ((reply : PatchReply) → o ≡ some reply → Good (k sent reply))
        → Good (on_reply sent o k)
    on_reply-Good sent none k a next = a
    on_reply-Good sent (some reply) k a next = next reply refl

    pub send-Good :
        (vm : PatchVm) (sent : List PatchCall) (c : PatchCall)
        (k : List PatchCall → PatchReply → PatchRun)
        → Follows P [] sent
        → P sent c
        → ((reply : PatchReply)
            → vm sent c ≡ some reply
            → Follows P [] (sent ++ c ∷ [])
            → Good (k (sent ++ c ∷ []) reply))
        → Good (send vm sent c k)
    send-Good vm sent c k a p next =
        let more = Follows-append_one P [] sent c a p in
        on_reply-Good (sent ++ c ∷ []) (vm sent c) k more (λ reply e. next reply e more)

  pub and_then-Good :
      (Q R : List PatchCall → PatchState → Type 0) (run : PatchRun)
      (next : List PatchCall → PatchState → PatchRun)
      → Good Q run
      → ((sent : List PatchCall) (t : PatchState)
          → Follows P [] sent
          → Q sent t
          → Good R (next sent t))
      → Good R (and_then run next)
  and_then-Good Q R (sent, none) next g f = g
  and_then-Good Q R (sent, some t) next (a, q) f = f sent t a q

-- The mode and the artifact of a run, which no node changes.
abbrev pub Same : Bool → List ApprovedPackage → PatchState → Type 0
Same dry ps t = (t.dry_run ≡ dry) × (t.approved_packages ≡ ps)

-- Versions that the VM has reported in the run, asked when only reading calls had been sent.
pub record Reported (vm : PatchVm) (sent : List PatchCall) (versions : List (String × String))
    : Type 0 where
  pub earlier : List PatchCall
  pub later : List PatchCall
  pub names : List String
  pub reply : PatchReply
  pub in_run : sent ≡ earlier ++ installed_versions names ∷ later
  pub only_reads : All (λ c. changes_packages c ≡ false) earlier
  pub replied : vm earlier (installed_versions names) ≡ some reply
  pub shown : versions ≡ parse_versions reply.stdout

Reported-append :
    (vm : PatchVm) (sent : List PatchCall) (versions : List (String × String)) (c : PatchCall)
    → Reported vm sent versions
    → Reported vm (sent ++ c ∷ []) versions
Reported-append vm sent versions c o = record {
  earlier = o.earlier;
  later = o.later ++ c ∷ [];
  names = o.names;
  reply = o.reply;
  in_run =
      ap (λ calls. calls ++ c ∷ []) o.in_run
      ∙ append_assoc o.earlier (installed_versions o.names ∷ o.later) (c ∷ []);
  only_reads = o.only_reads;
  replied = o.replied;
  shown = o.shown;
}

-- The snapshot is empty or has been reported.
abbrev pub Recorded : PatchVm → List PatchCall → List (String × String) → Type 0
Recorded vm sent versions = (versions ≡ []) ⊎ Reported vm sent versions

pub Recorded-append :
    (vm : PatchVm) (sent : List PatchCall) (versions : List (String × String)) (c : PatchCall)
    → Recorded vm sent versions
    → Recorded vm (sent ++ c ∷ []) versions
Recorded-append vm sent versions c (inl empty) = inl empty
Recorded-append vm sent versions c (inr o) = inr (Reported-append vm sent versions c o)

-- What holds before the execution: the calls so far only read.
abbrev pub Before : PatchVm → Bool → List ApprovedPackage → List PatchCall → PatchState → Type 0
Before vm dry ps sent t =
    Same dry ps t × All (λ c. changes_packages c ≡ false) sent × Recorded vm sent t.version_snapshot

pub Before-append :
    (vm : PatchVm) (dry : Bool) (ps : List ApprovedPackage) (sent : List PatchCall) (t : PatchState)
    (c : PatchCall)
    → changes_packages c ≡ false
    → Before vm dry ps sent t
    → Before vm dry ps (sent ++ c ∷ []) t
Before-append vm dry ps sent t c reads (same, only, recorded) = (
  same,
  All-append_one (λ d. changes_packages d ≡ false) sent c only reads,
  Recorded-append vm sent t.version_snapshot c recorded,
)
