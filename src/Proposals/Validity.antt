-- ===== src/Proposals/Validity.antt =====
-- errander/models/proposals.py: what the validators let through.
use Prim.Native.Char.{code}
use Prim.Native.String
use text.Mathlib.TextLemmas.{cons-append}
use errander_ai.Common.{
  ℕ, zero, suc, ◌≤◌, String, ◌≡◌, refl, sym, ap, ◌∙◌, ◌≢◌, ◌⊎◌, inl, inr, true, false, List, [],
  ◌∷◌, ◌++◌, arith, str_eq, eq_iff, All, ◌==◌, length, Bool-cases, ◌&&◌,
}
use errander_ai.Proposals.{
  ProposalKind, AgentProposal, is_alphanumeric, is_identifier_char, matches_rest,
  matches_identifier, is_action, is_proposable, is_valid, action_key, is_actionable,
}

abbrev pub IsName : List ℕ → Type 0
IsName = All (λ c. is_identifier_char c ≡ true)

-- A text of at most `n` identifier characters, or such a text and a line feed.
abbrev pub Fits : ℕ → List ℕ → Type 0
Fits n cs =
    (name : List ℕ) × IsName name × (length name ≤ n) × ((cs ≡ name) ⊎ (cs ≡ name ++ 10 ∷ []))

Fits-cons :
    (c n : ℕ) (cs : List ℕ) → is_identifier_char c ≡ true → Fits n cs → Fits (suc n) (c ∷ cs)
Fits-cons c n cs ok (name, chars, short, inl e) =
    (c ∷ name, (ok, chars), omega arith, inl (ap (λ t. c ∷ t) e))
Fits-cons c n cs ok (name, chars, short, inr e) =
    (c ∷ name, (ok, chars), omega arith, inr (ap (λ t. c ∷ t) e))

line_feed_only : (c n : ℕ) (cs : List ℕ) → (c == 10 && length cs == 0) ≡ true → Fits n (c ∷ cs)
line_feed_only c n [] h = ([], tt, omega arith, inr (ground arith))
line_feed_only c n (d ∷ cs) h = absurd (ground arith)

matches_rest-Fits : (n : ℕ) (cs : List ℕ) → matches_rest n cs ≡ true → Fits n cs
unfolding matches_rest
matches_rest-Fits n [] h = ([], tt, omega arith, inl refl)
matches_rest-Fits zero (c ∷ cs) h = line_feed_only c zero cs h
matches_rest-Fits (suc n) (c ∷ cs) h = elim (Bool-cases (c == 10 && length cs == 0)) [
  | inl feed ↦ line_feed_only c (suc n) cs feed
  | inr other ↦ Fits-cons c n cs (ground arith) (matches_rest-Fits n cs (ground arith))
]

-- An identifier that is accepted has 1 to 128 letters, digits, dots, underscores and dashes, and
-- begins with a letter or a digit; one line feed may follow.
pub matches_identifier_sound :
    (cs : List ℕ)
    → matches_identifier cs ≡ true
    → (c : ℕ) × (name : List ℕ) × (is_alphanumeric c ≡ true)
      × IsName name
      × (length name ≤ 127)
      × ((cs ≡ c ∷ name) ⊎ (cs ≡ c ∷ name ++ 10 ∷ []))
unfolding matches_identifier
matches_identifier_sound [] h = cc
matches_identifier_sound (c ∷ cs) h =
    let start : is_alphanumeric c ≡ true = ground arith in
    let (name, chars, short, shape) = matches_rest-Fits 127 cs (ground arith) in
    (
      c,
      name,
      start,
      chars,
      short,
      elim shape [ inl e ↦ inl (ap (λ t. c ∷ t) e) | inr e ↦ inr (ap (λ t. c ∷ t) e) ],
    )

-- Two texts that begin differently are told apart.
abbrev first : String → ℕ
first String.[] = 0
first (String.◌∷◌ c s) = code c

differ : (s t : String) → first s ≢ first t → str_eq s t ≡ false
differ s t h = elim (Bool-cases (str_eq s t)) [
  | inl e ↦ absurd (h (ap first ((eq_iff s t).0 e)))
  | inr e ↦ e
]

first-review : (s : String) → first (String.◌++◌ "review:" s) ≡ b'r'
first-review s = ap first (cons-append "r" "eview:" s)

review-ne-action : (s : String) → is_proposable (String.◌++◌ "review:" s) ≡ false
unfolding is_proposable
review-ne-action s = rw (
  differ (String.◌++◌ "review:" s) "disk_cleanup" (omega (arith, first-review s)),
  differ (String.◌++◌ "review:" s) "log_rotation" (omega (arith, first-review s)),
)

-- An accepted proposal runs something when approved exactly if it is an action, and then it names a
-- proposable action.
pub is_actionable-of_valid :
    {E : Type 0} (p : AgentProposal E)
    → is_valid p ≡ true
    → (is_actionable p ≡ is_action p.kind)
      × (is_actionable p ≡ true → is_proposable p.action_type ≡ true)
unfolding is_valid is_actionable
is_actionable-of_valid p v = ground arith

-- The dedup key of an accepted proposal names a proposable action exactly for an action.
is_proposable-action_key :
    {E : Type 0} (p : AgentProposal E)
    → is_valid p ≡ true
    → is_proposable (action_key p) ≡ is_action p.kind
unfolding is_valid action_key
is_proposable-action_key p v = ground (arith, review-ne-action p.signal_kind)

is_action_injective : (k l : ProposalKind) → is_action k ≡ is_action l → k ≡ l
is_action_injective k l e = ground arith

-- Accepted proposals with one dedup key are of one kind: a review never refreshes, suppresses or is
-- suppressed by an action.
pub action_key-kind :
    {E : Type 0} (p q : AgentProposal E)
    → is_valid p ≡ true
    → is_valid q ≡ true
    → action_key p ≡ action_key q
    → p.kind ≡ q.kind
action_key-kind p q vp vq e =
    is_action_injective p.kind q.kind
      (sym (is_proposable-action_key p vp) ∙ ap is_proposable e ∙ is_proposable-action_key q vq)

matches_rest-name :
    (n : ℕ) (name : List ℕ)
    → IsName name
    → length name ≤ n
    → (matches_rest n name ≡ true) × (matches_rest n (name ++ 10 ∷ []) ≡ true)
unfolding matches_rest
matches_rest-name zero [] chars short = (refl, refl)
matches_rest-name (suc n) [] chars short = (refl, refl)
matches_rest-name zero (c ∷ name) chars short = absurd (omega arith)
matches_rest-name (suc n) (c ∷ name) chars short =
    ground (arith, matches_rest-name n name chars.1 (omega arith))

-- Every identifier of 1 to 128 such characters is accepted, and so is the identifier with a line feed
-- behind it: the `$` of the pattern does not keep the line feed out.
pub matches_identifier_complete :
    (c : ℕ) (name : List ℕ)
    → is_alphanumeric c ≡ true
    → IsName name
    → length name ≤ 127
    → (matches_identifier (c ∷ name) ≡ true) × (matches_identifier (c ∷ name ++ 10 ∷ []) ≡ true)
unfolding matches_identifier
matches_identifier_complete c name start chars short =
    ground (arith, matches_rest-name 127 name chars short)
