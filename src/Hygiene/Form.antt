-- ===== src/Hygiene/Form.antt =====
-- errander/web/ui.py: the form by which an operator decides a docker_hygiene request.
pub mod Selected
pub mod Stays
pub mod Exact
use Prim.Native.String
use errander_ai.Common.{
  ℕ, suc, String, Bool, not, ◌&&◌, Option, none, some, List, [], ◌∷◌, ◌++◌, str_eq, if◌then◌else◌,
  any, length, select_where,
}
use errander_ai.Approval.{is_pending}
use errander_ai.Hygiene.{
  ResourceClass, image_dangling, image_unused, container_stopped, class_value, Finding, Assessment,
  key_of, same_key, is_nil, compute_assessment_hash,
}
use errander_ai.Hygiene.Store.{
  HygieneRow, HygieneStore, create_hygiene, decide_hygiene, time_out_hygiene, sweep_hygiene,
  get_hygiene,
}

-- A form that was sent: the button, the user, and whether the field finding_<class>_<number> is there.
pub record Form : Type 0 where
  pub approve : Bool
  pub user : String
  pub ticked : ResourceClass → ℕ → Bool

abbrev pub is_picked : String × String → List (String × String) → Bool
is_picked k items = any (λ i. same_key i k) items

-- The findings of one class, numbered from 1.
abbrev pub of_class : ResourceClass → Assessment → List Finding
of_class c a = select_where (λ f. str_eq (class_value f.resource_class) (class_value c)) a.findings

-- The items of one class that are ticked, after those of the classes before it.
unfoldable pub collect :
    (ℕ → Bool) → ℕ → List Finding → List (String × String) → List (String × String)
collect ticked i [] items = items
collect ticked i (f ∷ fs) items =
    collect ticked (suc i) fs
      (if ticked i && not (is_picked (key_of f) items) then items ++ key_of f ∷ [] else items)

abbrev pub collect_class :
    Form → Assessment → ResourceClass → List (String × String) → List (String × String)
collect_class form a c items = collect (form.ticked c) 1 (of_class c a) items

unfoldable pub selection : Form → Assessment → List (String × String)
unfolding collect
selection form a =
    collect_class form a container_stopped
      (collect_class form a image_unused (collect_class form a image_dangling []))

-- `approved_items` of the call of `decide`.
unfoldable pub items_of_form : Form → Assessment → Option (List (String × String))
unfolding selection
items_of_form form a =
    let items = selection form a in
    if form.approve then (if is_nil items then none else some items) else none

-- The end of a handler that has read the assessment: what the user decided is written.
module _ (digest : List (String × String × String) → String) where
  unfoldable pub write_decision :
      HygieneStore → ℕ → String × String → Assessment → Form → HygieneStore
  unfolding decide_hygiene items_of_form compute_assessment_hash
  write_decision s now k a form =
      (decide_hygiene s now k form.approve (String.◌++◌ "ui:" form.user)
        (some (compute_assessment_hash digest a)) (items_of_form form a)).0

-- What the tasks do to the store: the agent's `create` and `mark_timeout`, its sweep, and the writes of
-- the web handlers, with the assessment that a handler has read before.
pub data HygieneOp : Type 0 where
  register : ℕ → String × String → Assessment → ℕ → HygieneOp
  give_up : ℕ → String × String → HygieneOp
  sweep : ℕ → HygieneOp
  answer : ℕ → String × String → Assessment → Form → HygieneOp

module _ (digest : List (String × String × String) → String) where
  unfoldable pub hygiene_step : HygieneStore → HygieneOp → HygieneStore
  unfolding create_hygiene time_out_hygiene sweep_hygiene write_decision
  hygiene_step s (register now k a timeout_seconds) = create_hygiene s now k a timeout_seconds
  hygiene_step s (give_up now k) = (time_out_hygiene s now k).0
  hygiene_step s (sweep now) = (sweep_hygiene s now).0
  hygiene_step s (answer now k a form) = write_decision digest s now k a form

  unfoldable pub run_hygiene : HygieneStore → List HygieneOp → HygieneStore
  unfolding hygiene_step
  run_hygiene s [] = s
  run_hygiene s (op ∷ ops) = run_hygiene (hygiene_step s op) ops

-- The pages that the handler answers with.
pub data Page : Type 0 where
  forbidden invalid_decision invalid_token not_pending rejected_page : Page
  approved_page : ℕ → Page

-- A request: whether the session may decide approvals, the value of `decision` if it is one of the two,
-- and what the signed token locates if it is valid.
pub record FormRequest : Type 0 where
  pub may_decide : Bool
  pub is_decision : Bool
  pub located : Option (String × String)
  pub form : Form

module _ (digest : List (String × String × String) → String) where
  abbrev pub page_of : Form → Assessment → Page
  page_of form a = if form.approve then approved_page (length (selection form a)) else rejected_page

  abbrev pub decide_row :
      HygieneStore
      → List HygieneOp
      → ℕ
      → String × String
      → Form
      → Option HygieneRow
      → HygieneStore × Page
  decide_row s meanwhile now k form none = (s, not_pending)
  decide_row s meanwhile now k form (some row) =
      if not (is_pending row.status) then (s, not_pending) else (
        write_decision digest (run_hygiene digest s meanwhile) now k row.assessment form,
        page_of form row.assessment,
      )

  abbrev pub decide_located :
      HygieneStore → List HygieneOp → ℕ → Form → Option (String × String) → HygieneStore × Page
  decide_located s meanwhile now form none = (s, invalid_token)
  decide_located s meanwhile now form (some k) = decide_row s meanwhile now k form (get_hygiene s k)

  -- `_ui_hygiene_approve_post`; the other tasks write `meanwhile` between its read and its write.
  unfoldable pub hygiene_approve_post :
      HygieneStore → List HygieneOp → ℕ → FormRequest → HygieneStore × Page
  unfolding get_hygiene write_decision run_hygiene selection
  hygiene_approve_post s meanwhile now request =
      if not request.may_decide
      then (s, forbidden)
      else if not request.is_decision
      then (s, invalid_decision)
      else decide_located s meanwhile now request.form request.located
