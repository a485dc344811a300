-- ===== src/Hygiene/Form/Stays.antt =====
-- errander/safety/hygiene_store.py: what a run of other tasks leaves of a request.
use Prim.Native.String
use errander_ai.Common.{String, ◌≡◌, false, List, [], ◌∷◌, some}
use errander_ai.Approval.{is_pending}
use errander_ai.Hygiene.{compute_assessment_hash}
use errander_ai.Hygiene.Store.{HygieneRow, HygieneStore, get_hygiene}
use errander_ai.Hygiene.Store.Settled.{
  Kept, Exists, create-settled, decide-settled, time_out-settled, sweep-settled, create-Exists,
  decide-Exists, time_out-Exists, sweep-Exists,
}
use errander_ai.Hygiene.Form.{
  items_of_form, write_decision, HygieneOp, register, give_up, sweep, answer, hygiene_step,
  run_hygiene,
}

module _ (digest : List (String × String × String) → String) (k : String × String) where
  step-settled :
      (s : HygieneStore) (row : HygieneRow) (op : HygieneOp)
      → is_pending row.status ≡ false
      → Kept s k row
      → Kept (hygiene_step digest s op) k row
  unfolding hygiene_step write_decision
  step-settled s row (register now j a timeout_seconds) d found =
      create-settled s k row found d now j a timeout_seconds
  step-settled s row (give_up now j) d found = time_out-settled s k row found d now j
  step-settled s row (sweep now) d found = sweep-settled s k row found d now
  step-settled s row (answer now j a form) d found =
      decide-settled s k row found d now j form.approve (String.◌++◌ "ui:" form.user)
        (some (compute_assessment_hash digest a)) (items_of_form form a)

  -- Once a request is decided or has timed out, no task changes it: not another decision, not a sweep,
  -- not a second registration of the same batch and VM.
  pub run_hygiene-settled :
      (s : HygieneStore) (row : HygieneRow) (ops : List HygieneOp)
      → get_hygiene s k ≡ some row
      → is_pending row.status ≡ false
      → get_hygiene (run_hygiene digest s ops) k ≡ some row
  unfolding run_hygiene
  run_hygiene-settled s row [] found d = found
  run_hygiene-settled s row (op ∷ ops) found d =
      run_hygiene-settled (hygiene_step digest s op) row ops (step-settled s row op d found) d

  step-Exists :
      (s : HygieneStore) (op : HygieneOp) → Exists s k → Exists (hygiene_step digest s op) k
  unfolding hygiene_step write_decision
  step-Exists s (register now j a timeout_seconds) e = create-Exists s k e now j a timeout_seconds
  step-Exists s (give_up now j) e = time_out-Exists s k e now j
  step-Exists s (sweep now) e = sweep-Exists s k e now
  step-Exists s (answer now j a form) e =
      decide-Exists s k e now j form.approve (String.◌++◌ "ui:" form.user)
        (some (compute_assessment_hash digest a)) (items_of_form form a)

  pub run_hygiene-Exists :
      (s : HygieneStore) (ops : List HygieneOp) → Exists s k → Exists (run_hygiene digest s ops) k
  unfolding run_hygiene
  run_hygiene-Exists s [] e = e
  run_hygiene-Exists s (op ∷ ops) e =
      run_hygiene-Exists (hygiene_step digest s op) ops (step-Exists s op e)
