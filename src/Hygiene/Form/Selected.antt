-- ===== src/Hygiene/Form/Selected.antt =====
-- errander/web/ui.py: what a form selects, and what the tasks write to the table of requests.
use Prim.Native.String
use mathlib.Core.Path.{subst}
use errander_ai.Common.{
  ℕ, suc, String, ◌≡◌, refl, sym, Bool, true, false, not, ◌&&◌, none, some, List, [], ◌∷◌, ◌++◌,
  str_eq, eq_iff, if◌then◌else◌, if_holds, All, All-append_one, All-imp, All-select_where,
}
use errander_ai.Approval.{approved, rejected}
use errander_ai.Hygiene.{
  ResourceClass, image_dangling, image_unused, container_stopped, class_value, Finding, Assessment,
  key_of, is_nil, compute_assessment_hash,
}
use errander_ai.Hygiene.Store.{HygieneStore}
use errander_ai.Hygiene.Store.Sound.{
  is_selectable, HasItems, Sound, create_hygiene-Sound, time_out_hygiene-Sound, sweep_hygiene-Sound,
  decide_hygiene-Sound,
}
use errander_ai.Hygiene.Form.{
  Form, is_picked, of_class, collect, collect_class, selection, items_of_form, write_decision,
  HygieneOp, register, give_up, sweep, answer, hygiene_step, run_hygiene,
}

-- What holds of the keys of the findings of a class holds of the items that are added.
collect-All :
    (P : String × String → Type 0) (ticked : ℕ → Bool) (i : ℕ) (fs : List Finding)
    (items : List (String × String))
    → All (λ f. P (key_of f)) fs
    → All P items
    → All P (collect ticked i fs items)
unfolding collect
collect-All P ticked i [] items a h = h
collect-All P ticked i (f ∷ fs) items (p, a) h =
    let new = ticked i && not (is_picked (key_of f) items) in
    collect-All P ticked (suc i) fs (if new then items ++ key_of f ∷ [] else items) a
      (if_holds (All P) new (λ _. All-append_one P items (key_of f) h p) (λ _. h))

abbrev Selectable : List (String × String) → Type 0
Selectable items = All (λ k. is_selectable k ≡ true) items

selectable-of_class :
    (c : ResourceClass) (a : Assessment)
    → is_selectable (class_value c, "") ≡ true
    → All (λ f. is_selectable (key_of f) ≡ true) (of_class c a)
selectable-of_class c a e =
    All-imp (of_class c a)
      (λ f same.
        subst (λ v. is_selectable (v, "") ≡ true)
          (sym ((eq_iff (class_value f.resource_class) (class_value c)).0 same)) e)
      (All-select_where (λ f. str_eq (class_value f.resource_class) (class_value c)) a.findings)

selection-Selectable : (form : Form) (a : Assessment) → Selectable (selection form a)
unfolding selection
selection-Selectable form a =
    let add =
      λ (c : ResourceClass) (e : is_selectable (class_value c, "") ≡ true)
          (items : List (String × String)).
        collect-All (λ k. is_selectable k ≡ true) (form.ticked c) 1 (of_class c a) items
          (selectable-of_class c a e) in
    let first = collect_class form a image_dangling [] in
    let second = collect_class form a image_unused first in
    add container_stopped refl second (add image_unused refl first (add image_dangling refl [] tt))

HasItems-form :
    (approve : Bool) (items : List (String × String))
    → Selectable items
    → HasItems
        (if approve then approved else rejected)
        (if approve then (if is_nil items then none else some items) else none)
HasItems-form true [] h = tt
HasItems-form true (k ∷ items) h = (refl, h)
HasItems-form false items h = tt

items_of_form-HasItems :
    (form : Form) (a : Assessment)
    → HasItems (if form.approve then approved else rejected) (items_of_form form a)
unfolding items_of_form
items_of_form-HasItems form a =
    HasItems-form form.approve (selection form a) (selection-Selectable form a)

module _ (digest : List (String × String × String) → String) where
  pub write_decision-Sound :
      (s : HygieneStore) (now : ℕ) (k : String × String) (a : Assessment) (form : Form)
      → Sound s
      → Sound (write_decision digest s now k a form)
  unfolding write_decision
  write_decision-Sound s now k a form v =
      decide_hygiene-Sound s now k form.approve (String.◌++◌ "ui:" form.user)
        (some (compute_assessment_hash digest a)) (items_of_form form a)
        (items_of_form-HasItems form a) v

  hygiene_step-Sound :
      (s : HygieneStore) (op : HygieneOp) → Sound s → Sound (hygiene_step digest s op)
  unfolding hygiene_step
  hygiene_step-Sound s (register now k a timeout_seconds) v =
      create_hygiene-Sound s now k a timeout_seconds v
  hygiene_step-Sound s (give_up now k) v = time_out_hygiene-Sound s now k v
  hygiene_step-Sound s (sweep now) v = sweep_hygiene-Sound s now v
  hygiene_step-Sound s (answer now k a form) v = write_decision-Sound s now k a form v

  -- Whatever the tasks write, only approved rows have items.
  pub run_hygiene-Sound :
      (s : HygieneStore) (ops : List HygieneOp) → Sound s → Sound (run_hygiene digest s ops)
  unfolding run_hygiene
  run_hygiene-Sound s [] v = v
  run_hygiene-Sound s (op ∷ ops) v =
      run_hygiene-Sound (hygiene_step digest s op) ops (hygiene_step-Sound s op v)
