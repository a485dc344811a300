-- ===== src/Hygiene/Run/Approved.antt =====
-- errander/agent/vm_graph.py: `_run_docker_hygiene` removes what an operator has picked, and nothing else.
use mathlib.Core.Path.{subst}
use errander_ai.Common.{
  String, ◌≡◌, refl, true, false, not, ◌⊎◌, inl, inr, Option, none, some, List, [], ◌∷◌, if_holds,
  Bool-cases, All, All-zip, All-Mem, Mem, ℤ, select_where, All-select_where, All-select_where_of,
}
use errander_ai.Approval.{Status, is_approved}
use errander_ai.Hygiene.{Finding, Assessment, key_of, same_key, is_nil, cleanup_candidates}
use errander_ai.Hygiene.Removal.Outcomes.{same_key-eq}
use errander_ai.Hygiene.Graph.{WrapperCall, Wrappers, HygieneState, docker_hygiene}
use errander_ai.Hygiene.Store.{HygieneRow, HygieneStore, has_key, create_hygiene, get_hygiene}
use errander_ai.Hygiene.Store.Sound.{
  is_selectable, HasItems, SoundRow, Sound, find_where-All, create_hygiene-Sound,
}
use errander_ai.Hygiene.Form.{run_hygiene, is_picked}
use errander_ai.Hygiene.Form.Selected.{run_hygiene-Sound}
use errander_ai.Hygiene.Wait.{
  HygieneWait, decided, nothing, waits, wait_for_hygiene, or_no_items, items_of, row_to_approval,
}
use errander_ai.Hygiene.Wait.Answered.{Ends, wait_for_hygiene-Answered}
use errander_ai.Hygiene.Run.{
  HygieneRun, Surroundings, after_wait, ask, after_assessment, after_first, run_docker_hygiene,
}
use errander_ai.Hygiene.Run.Cleared.{OnlyAssesses, Removes, docker_hygiene-Sends}

-- What an operator can have picked for removal: a finding of the stored assessment whose key is among the
-- items, and which is an image or a container.
abbrev pub Picked : HygieneRow → Finding → Type 0
Picked row f =
    Mem f row.assessment.findings
    × (is_picked (key_of f) (items_of row) ≡ true)
    × (is_selectable (key_of f) ≡ true)

selectable-of_picked :
    (k : String × String) (status : Status) (items : List (String × String))
    → All (λ i. is_selectable i ≡ true) items
    → is_picked k items ≡ true
    → is_selectable k ≡ true
selectable-of_picked k status [] a p = cc
selectable-of_picked k status (i ∷ items) (h, a) p = elim (Bool-cases (same_key i k)) [
  | inl same ↦ subst (λ x. is_selectable x ≡ true) (same_key-eq i k same) h
  | inr other ↦ selectable-of_picked k status items a (rw other at p)
]

-- Without items nothing is picked.
none_picked : (fs : List Finding) → is_nil (select_where (λ f. is_picked (key_of f) []) fs) ≡ true
unfolding select_where
none_picked [] = refl
none_picked (f ∷ fs) = none_picked fs

approved_items-Approved :
    (status : Status) (items : Option (List (String × String))) (fs : List Finding)
    → HasItems status items
    → is_nil (select_where (λ f. is_picked (key_of f) (or_no_items items)) fs) ≡ false
    → (is_approved status ≡ true) × All (λ i. is_selectable i ≡ true) (or_no_items items)
approved_items-Approved status none fs h some_picked = cc (none_picked fs)
approved_items-Approved status (some items) fs h some_picked = h

row-Picked :
    (row : HygieneRow)
    → All (λ i. is_selectable i ≡ true) (items_of row)
    → All (Picked row) (row_to_approval row).approved_findings
unfolding row_to_approval
row-Picked row a =
    let test = λ (f : Finding). is_picked (key_of f) (items_of row) in
    All-zip (λ f. Mem f row.assessment.findings) (λ f. test f ≡ true) (Picked row)
      (select_where test row.assessment.findings)
      (λ f m p. (m, p, selectable-of_picked (key_of f) row.status (items_of row) a p))
      (All-select_where_of (λ f. Mem f row.assessment.findings) test row.assessment.findings
        (All-Mem row.assessment.findings))
      (All-select_where test row.assessment.findings)

module _ (digest : List (String × String × String) → String) (int : String → Option ℤ)
    (lower : String → String) (vm : Wrappers) (s : HygieneState) (env : Surroundings) where
  -- The last call of a run removes the findings that its request was approved with.
  pub record Cleared (run : HygieneRun) : Type 0 where
    pub row : HygieneRow
    pub found : get_hygiene run.store env.request_key ≡ some row
    pub approved : is_approved row.status ≡ true
    pub picked : All (Picked row) (row_to_approval row).approved_findings
    pub removes : Removes digest int lower vm s (row_to_approval row) run.sent

  abbrev pub OnlyCleared : HygieneRun → Type 0
  OnlyCleared run = OnlyAssesses run.sent ⊎ Cleared run

  after_wait-OnlyCleared :
      (sent : List WrapperCall) (r : HygieneWait × HygieneStore)
      → OnlyAssesses sent
      → Ends digest env.request_key r
      → OnlyCleared (after_wait digest int lower vm s sent r)
  after_wait-OnlyCleared sent (nothing, store) a e = inl a
  after_wait-OnlyCleared sent (waits, store) a e = inl a
  after_wait-OnlyCleared sent (decided row, store) a (found, done, live, v) =
      let approval = row_to_approval row in
      if_holds OnlyCleared (is_nil approval.approved_findings) (λ _. inl a)
        (λ full.
          let h : HasItems row.status row.approved_items =
            unfold get_hygiene in
            find_where-All SoundRow (has_key env.request_key) store.rows row found v in
          let (approved, items) =
            approved_items-Approved row.status row.approved_items row.assessment.findings h
              (unfold row_to_approval in full) in
          elim (docker_hygiene-Sends digest int lower vm s sent a (some approval)) [
            | inl only ↦ inl only
            | inr removes ↦ inr (record {
              row = row;
              found = found;
              approved = approved;
              picked = row-Picked row items;
              removes = removes;
            })
          ])

  ask-OnlyCleared :
      (sent : List WrapperCall) (a : Assessment) (store : HygieneStore)
      → OnlyAssesses sent
      → Sound store
      → OnlyCleared (ask digest int lower vm s env sent a store)
  ask-OnlyCleared sent a store only v =
      let others = run_hygiene digest store env.before_register in
      let asked = create_hygiene others env.registered_at env.request_key a 1800 in
      after_wait-OnlyCleared sent
        (wait_for_hygiene digest env.request_key env.waits_from env.approval_timeout_seconds
          env.rounds asked)
        only
        (wait_for_hygiene-Answered digest env.request_key env.waits_from
          env.approval_timeout_seconds env.rounds asked
          (create_hygiene-Sound others env.registered_at env.request_key a 1800
            (run_hygiene-Sound digest store env.before_register v)))

  after_assessment-OnlyCleared :
      (sent : List WrapperCall) (state : HygieneState) (o : Option Assessment)
      (store : HygieneStore)
      → OnlyAssesses sent
      → Sound store
      → OnlyCleared (after_assessment digest int lower vm s env sent state o store)
  after_assessment-OnlyCleared sent state none store only v = inl only
  after_assessment-OnlyCleared sent state (some a) store only v =
      if_holds OnlyCleared (is_nil (cleanup_candidates a)) (λ _. inl only)
        (λ _.
          if_holds OnlyCleared s.dry_run (λ _. inl only)
            (λ _.
              if_holds OnlyCleared (not env.has_manager) (λ _. inl only)
                (λ _. ask-OnlyCleared sent a store only v)))

  after_first-OnlyCleared :
      (sent : List WrapperCall) (state : Option HygieneState) (store : HygieneStore)
      → OnlyAssesses sent
      → Sound store
      → OnlyCleared (after_first digest int lower vm s env sent state store)
  after_first-OnlyCleared sent none store only v = inl only
  after_first-OnlyCleared sent (some state) store only v =
      after_assessment-OnlyCleared sent state state.assessment store only v

  -- Whatever a VM answers and the other tasks write, a run that got no approval with its parameters only
  -- assesses, or its last call alone removes something: then the run is live, its request was approved,
  -- the list is of findings of the stored assessment that are among the approved items and are images or
  -- containers, and the assessment directly before has the approved hash. The table has items only in
  -- approved rows and of these classes at the start.
  pub run_docker_hygiene-OnlyCleared :
      (store : HygieneStore)
      → Sound store
      → OnlyCleared (run_docker_hygiene digest int lower vm s env none store)
  unfolding run_docker_hygiene
  run_docker_hygiene-OnlyCleared store v =
      let (sent, state) = docker_hygiene digest int lower vm [] (record s { approval = none }) in
      after_first-OnlyCleared sent state store
        (docker_hygiene-Sends digest int lower vm s [] tt none) v
