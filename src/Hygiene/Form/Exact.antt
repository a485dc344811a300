-- ===== src/Hygiene/Form/Exact.antt =====
-- errander/web/ui.py: exactly what a form selects, and what its sender is told.
use Prim.Native.String
use errander_ai.Common.{
  ℕ, suc, String, ◌≡◌, refl, sym, ap, ◌∙◌, Bool, true, false, not, ◌&&◌, ◌||◌, some, List, [], ◌∷◌,
  ◌++◌, arith, if◌then◌else◌, Bool-cases, inl, inr, length,
}
use errander_ai.Approval.{is_pending}
use errander_ai.Hygiene.{
  ResourceClass, image_dangling, image_unused, container_stopped, Finding, Assessment, key_of,
  same_key, compute_assessment_hash,
}
use errander_ai.Hygiene.Removal.Outcomes.{same_key-eq}
use errander_ai.Hygiene.Store.{HygieneRow, HygieneStore, get_hygiene}
use errander_ai.Hygiene.Store.Settled.{decide-settled}
use errander_ai.Hygiene.Form.{
  Form, HygieneOp, approved_page, is_picked, of_class, collect, collect_class, selection,
  items_of_form, run_hygiene, hygiene_approve_post,
}

-- Whether the field of a finding with the key is ticked; the findings are numbered on from `i`.
pub is_ticked : (ℕ → Bool) → ℕ → List Finding → String × String → Bool
is_ticked ticked i [] k = false
is_ticked ticked i (f ∷ fs) k = (ticked i && same_key (key_of f) k) || is_ticked ticked (suc i) fs k

is_picked-append :
    (k j : String × String) (items : List (String × String))
    → is_picked k (items ++ j ∷ []) ≡ (is_picked k items || same_key j k)
is_picked-append k j [] = ground arith
is_picked-append k j (i ∷ items) = ground (arith, is_picked-append k j items)

add_item-picked :
    (ticked : Bool) (j k : String × String) (items : List (String × String))
    → is_picked k (if ticked && not (is_picked j items) then items ++ j ∷ [] else items)
      ≡ (is_picked k items || (ticked && same_key j k))
add_item-picked false j k items = ground arith
add_item-picked true j k items = elim (Bool-cases (is_picked j items)) [
  | inr new ↦ rw new (is_picked-append k j items)
  | inl old ↦ elim (Bool-cases (same_key j k)) [
    | inl same ↦
        let here : is_picked k items ≡ true =
          sym (ap (λ x. is_picked x items) (same_key-eq j k same)) ∙ old in
        rw old (rw here refl)
    | inr other ↦ rw old (rw other (ground arith))
  ]
]

or_assoc : (a b c : Bool) → ((a || b) || c) ≡ (a || (b || c))
or_assoc true b c = refl
or_assoc false b c = refl

collect-picked :
    (ticked : ℕ → Bool) (i : ℕ) (fs : List Finding) (items : List (String × String))
    (k : String × String)
    → is_picked k (collect ticked i fs items) ≡ (is_picked k items || is_ticked ticked i fs k)
unfolding collect is_ticked
collect-picked ticked i [] items k = ground arith
collect-picked ticked i (f ∷ fs) items k =
    collect-picked ticked (suc i) fs
      (if ticked i && not (is_picked (key_of f) items) then items ++ key_of f ∷ [] else items) k
    ∙ ap (λ b. b || is_ticked ticked (suc i) fs k) (add_item-picked (ticked i) (key_of f) k items)
    ∙ or_assoc (is_picked k items) (ticked i && same_key (key_of f) k)
        (is_ticked ticked (suc i) fs k)

abbrev pub is_ticked_in : Form → Assessment → ResourceClass → String × String → Bool
is_ticked_in form a c k = is_ticked (form.ticked c) 1 (of_class c a) k

-- A form selects an object exactly if the field of a finding with its key is ticked among the dangling
-- images, the unused images or the stopped containers, whatever the finding is classified as.
pub selection-picked :
    (form : Form) (a : Assessment) (k : String × String)
    → is_picked k (selection form a) ≡ (
        (is_ticked_in form a image_dangling k || is_ticked_in form a image_unused k)
        || is_ticked_in form a container_stopped k)
unfolding selection
selection-picked form a k =
    let first = collect_class form a image_dangling [] in
    let second = collect_class form a image_unused first in
    let step = λ (c : ResourceClass) (items : List (String × String)).
      collect-picked (form.ticked c) 1 (of_class c a) items k in
    step container_stopped second
    ∙ ap (λ b. b || is_ticked_in form a container_stopped k)
        (step image_unused first
          ∙ ap (λ b. b || is_ticked_in form a image_unused k) (step image_dangling []))

module _ (digest : List (String × String × String) → String) where
  -- If a request that a handler has read as pending is decided or times out before its write, then the
  -- sender of an approval is told that it was approved although the other decision stands.
  pub lost_race_confirmed :
      (s : HygieneStore) (meanwhile : List HygieneOp) (now : ℕ) (k : String × String) (form : Form)
      (row other : HygieneRow)
      → get_hygiene s k ≡ some row
      → is_pending row.status ≡ true
      → get_hygiene (run_hygiene digest s meanwhile) k ≡ some other
      → is_pending other.status ≡ false
      → form.approve ≡ true
      → let answer =
          hygiene_approve_post digest s meanwhile now
            (record { may_decide = true; is_decision = true; located = some k; form = form }) in
        (answer.1 ≡ approved_page (length (selection form row.assessment)))
        × (get_hygiene answer.0 k ≡ some other)
  unfolding hygiene_approve_post
  lost_race_confirmed s meanwhile now k form row other found waiting stands decided approving =
      let after = run_hygiene digest s meanwhile in
      rw found (
        rw waiting (
          rw approving refl,
          decide-settled after k other stands decided now k form.approve
              (String.◌++◌ "ui:" form.user) (some (compute_assessment_hash digest row.assessment))
              (items_of_form form row.assessment),
        ))
