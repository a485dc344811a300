-- ===== src/Vm/Loop.antt =====
-- errander/agent/vm_graph.py: the cycle over the planned actions.
use mathlib.Core.Path.{subst}
use errander_ai.Common.{
  ℕ, zero, suc, ◌+◌, ◌≤◌, ◌<◌, String, ◌≡◌, refl, sym, ap, ◌∙◌, true, ◌&&◌, Option, none, some,
  List, [], ◌∷◌, ◌++◌, arith, eq_iff, ltb, ltb→lt, if◌then◌else◌, if_holds, length, take, get_elem?,
  All,
}
use errander_ai.Batch.State.{PlannedAction}
use errander_ai.Vm.{
  ActionStatus, skipped, ActionResult, VmState, Target, add_result, action_of, is_runnable,
  dispatch_at, dispatch_action, last_type, frees_disk, is_patching, is_full, post_cleanup_disk_gate,
  action_loop,
}
use errander_ai.Vm.Validate.{Params}
use errander_ai.Vm.Admitted.{IsAdmitted, is_runnable-IsAdmitted}

abbrev pub result_types : List ActionResult → List String
result_types [] = []
result_types (r ∷ rs) = r.action_type ∷ result_types rs

abbrev pub plan_types : List PlannedAction → List String
plan_types [] = []
plan_types (a ∷ as') = a.action_type ∷ plan_types as'

result_types-append :
    (rs : List ActionResult) (r : ActionResult)
    → result_types (rs ++ r ∷ []) ≡ result_types rs ++ r.action_type ∷ []
result_types-append [] r = refl
result_types-append (q ∷ rs) r = ap (λ ts. q.action_type ∷ ts) (result_types-append rs r)

take-next :
    (plan : List PlannedAction) (i : ℕ) (a : PlannedAction)
    → get_elem? plan i ≡ some a
    → take (suc i) (plan_types plan) ≡ take i (plan_types plan) ++ a.action_type ∷ []
take-next [] i a here = absurd (ground (arith, here))
take-next (b ∷ plan) zero a here =
    let same : b ≡ a = ground (arith, here) in ap (λ (c : PlannedAction). c.action_type ∷ []) same
take-next (b ∷ plan) (suc i) a here = ap (λ ts. b.action_type ∷ ts) (take-next plan i a here)

pub take-all :
    (plan : List PlannedAction) (i : ℕ)
    → length plan ≤ i
    → take i (plan_types plan) ≡ plan_types plan
take-all [] zero h = refl
take-all [] (suc i) h = refl
take-all (a ∷ plan) zero h = absurd (omega (arith, h))
take-all (a ∷ plan) (suc i) h = ap (λ ts. a.action_type ∷ ts) (take-all plan i (omega (arith, h)))

element :
    (plan : List PlannedAction) (i : ℕ)
    → i < length plan
    → (a : PlannedAction) × (get_elem? plan i ≡ some a)
element [] i h = absurd (omega (arith, h))
element (a ∷ plan) zero h = (a, refl)
element (a ∷ plan) (suc i) h = element plan i (omega (arith, h))

index-element :
    (plan : List PlannedAction) (i : ℕ) (a : PlannedAction)
    → get_elem? plan i ≡ some a
    → i < length plan
index-element [] i a here = absurd (ground (arith, here))
index-element (b ∷ plan) zero a here = omega arith
index-element (b ∷ plan) (suc i) a here = omega (arith, index-element plan i a here)

All-snoc :
    {A : Type 0} (P : A → Type 0) (xs : List A) (x : A) → All P xs → P x → All P (xs ++ x ∷ [])
All-snoc P [] x all px = (px, tt)
All-snoc P (y ∷ xs) x all px = (all.0, All-snoc P xs x all.1 px)

module _ (params_of : PlannedAction → Params) (lower : String → List ℕ) where
  -- The results are those of the actions so far, one for each, in order.
  pub record Aligned (s : VmState) : Type 0 where
    pub in_order :
        result_types s.results ≡ take s.current_action_index (plan_types s.planned_actions)
    pub in_plan : s.current_action_index ≤ length s.planned_actions
    pub admitted : All (IsAdmitted params_of lower) s.ran

  -- A node that works on an action goes on, and keeps the plan and the rest of the state.
  pub record Continues (s t : VmState) : Type 0 where
    pub same_plan : t.planned_actions ≡ s.planned_actions
    pub same_probes : t.probes ≡ s.probes
    pub same_error : t.error ≡ s.error
    pub not_back : s.current_action_index ≤ t.current_action_index

  Aligned-add_result :
      (s : VmState) (a : PlannedAction) (status : ActionStatus)
      → Aligned s
      → get_elem? s.planned_actions s.current_action_index ≡ some a
      → Aligned (add_result a.action_type status s)
  Aligned-add_result s a status h here = record {
    in_order =
        result_types-append s.results (record { action_type = a.action_type; status = status })
        ∙ (ap (λ ts. ts ++ a.action_type ∷ []) h.in_order
            ∙ sym (take-next s.planned_actions s.current_action_index a here));
    in_plan = omega (arith, index-element s.planned_actions s.current_action_index a here);
    admitted = h.admitted;
  }

  Continues-add_result :
      (s : VmState) (type : String) (status : ActionStatus) → Continues s (add_result type status s)
  Continues-add_result s type status = record {
    same_plan = refl;
    same_probes = refl;
    same_error = refl;
    not_back = omega arith;
  }

  pub Continues-refl : (s : VmState) → Continues s s
  Continues-refl s = record {
    same_plan = refl;
    same_probes = refl;
    same_error = refl;
    not_back = omega arith;
  }

  Continues-trans : (s t u : VmState) → Continues s t → Continues t u → Continues s u
  Continues-trans s t u f g = record {
    same_plan = g.same_plan ∙ f.same_plan;
    same_probes = g.same_probes ∙ f.same_probes;
    same_error = g.same_error ∙ f.same_error;
    not_back = omega (arith, f.not_back, g.not_back);
  }

  -- What a node does that may work on the action at the index.
  abbrev Works : VmState → VmState → Type 0
  Works s t = Aligned t × Continues s t

  dispatch_at-Works :
      (target : Target) (s : VmState) (a : PlannedAction)
      → Aligned s
      → get_elem? s.planned_actions s.current_action_index ≡ some a
      → Works s (dispatch_at params_of lower target s (some a))
        × (s.current_action_index
            < (dispatch_at params_of lower target s (some a)).current_action_index)
  dispatch_at-Works target s a h here =
      if_holds (λ (t : VmState). Works s t × (s.current_action_index < t.current_action_index))
        (is_runnable params_of lower (action_of params_of lower a))
        (λ runs.
          let sent = Aligned-add_result s a (target.outcome s.current_action_index) h here in
          (
            (
              record {
                in_order = sent.in_order;
                in_plan = sent.in_plan;
                admitted =
                    All-snoc (IsAdmitted params_of lower) s.ran a h.admitted
                      (is_runnable-IsAdmitted params_of lower a runs);
              },
              record {
                same_plan = refl;
                same_probes = refl;
                same_error = refl;
                not_back = omega arith;
              },
            ),
            omega arith,
          ))
        (λ _. (
          (Aligned-add_result s a skipped h here, Continues-add_result s a.action_type skipped),
          omega arith,
        ))

  gate-Works :
      (target : Target) (s : VmState) (o : Option PlannedAction)
      → Aligned s
      → get_elem? s.planned_actions s.current_action_index ≡ o
      → is_patching o ≡ true
      → Works s (add_result "patching" skipped s)
  gate-Works target s none h here patches = absurd (ground (arith, patches))
  gate-Works target s (some a) h here patches = (
    subst (λ type. Aligned (add_result type skipped s))
        ((eq_iff a.action_type "patching").0 patches) (Aligned-add_result s a skipped h here),
    Continues-add_result s "patching" skipped,
  )

  post_cleanup_disk_gate-Works :
      (target : Target) (s : VmState)
      → Aligned s
      → Works s (post_cleanup_disk_gate params_of lower target s)
  unfolding post_cleanup_disk_gate
  post_cleanup_disk_gate-Works target s h =
      let next = get_elem? s.planned_actions s.current_action_index in
      if_holds (Works s)
        (frees_disk (last_type s.results)
          && (is_patching next && is_full (target.disk_pct s.current_action_index)))
        (λ full. gate-Works target s next h refl (ground (arith, full)))
        (λ _. (h, Continues-refl s))

  -- One round of the cycle.
  abbrev pub round : Target → VmState → VmState
  round target s =
      post_cleanup_disk_gate params_of lower target (dispatch_action params_of lower target s)

  dispatch_action-some :
      (target : Target) (s : VmState) (a : PlannedAction)
      → get_elem? s.planned_actions s.current_action_index ≡ some a
      → dispatch_action params_of lower target s ≡ dispatch_at params_of lower target s (some a)
  unfolding dispatch_action
  dispatch_action-some target s a here = ap (dispatch_at params_of lower target s) here

  round-Works :
      (target : Target) (s : VmState)
      → Aligned s
      → s.current_action_index < length s.planned_actions
      → Works s (round target s) × (s.current_action_index < (round target s).current_action_index)
  round-Works target s h left =
      let (a, here) = element s.planned_actions s.current_action_index left in
      let (first, more) = dispatch_at-Works target s a h here in
      let second =
        post_cleanup_disk_gate-Works target (dispatch_at params_of lower target s (some a))
          first.0 in
      rw (dispatch_action-some target s a here)
        ((second.0, Continues-trans s _ _ first.1 second.1), omega (arith, more, second.1.not_back))

  -- The cycle has ended: the state is the one at the end of the plan.
  pub record Ends (s t : VmState) : Type 0 where
    pub is_aligned : Aligned t
    pub continues : Continues s t
    pub at_end : length t.planned_actions ≤ t.current_action_index

  pub action_loop-next :
      (fuel : ℕ) (target : Target) (s : VmState)
      → action_loop params_of lower (suc fuel) target s ≡ (
          if ltb (round target s).current_action_index (length (round target s).planned_actions)
          then action_loop params_of lower fuel target (round target s)
          else some (round target s))
  unfolding action_loop
  action_loop-next fuel target s = refl

  pub action_loop-Ends :
      (fuel : ℕ) (target : Target) (s : VmState)
      → Aligned s
      → s.current_action_index < length s.planned_actions
      → length s.planned_actions ≤ fuel + s.current_action_index
      → (t : VmState) × (action_loop params_of lower fuel target s ≡ some t) × Ends s t
  action_loop-Ends zero target s h left enough = absurd (omega (arith, left, enough))
  action_loop-Ends (suc fuel) target s h left enough =
      let (w, more) = round-Works target s h left in
      let s' = round target s in
      let same : length s'.planned_actions ≡ length s.planned_actions =
        ap (λ p. length p) w.1.same_plan in
      rw (action_loop-next fuel target s) (
        if_holds (λ (r : Option VmState). (t : VmState) × (r ≡ some t) × Ends s t)
          (ltb s'.current_action_index (length s'.planned_actions))
          (λ again.
            let (t, returns, e) =
              action_loop-Ends fuel target s' w.0 (ltb→lt _ _ again)
                (omega (arith, more, enough, same)) in
            (
              t,
              returns,
              record {
                is_aligned = e.is_aligned;
                continues = Continues-trans s s' t w.1 e.continues;
                at_end = e.at_end;
              },
            ))
          (λ done. (
            s',
            refl,
            record { is_aligned = w.0; continues = w.1; at_end = ground (arith, done) },
          )))
