-- ===== src/Proposals.antt =====
-- errander/models/proposals.py: the proposals of the agent and their validation. The store is in
-- Proposals/Store.antt.
pub mod Validity
pub mod Store
use Prim.Native.Char.{code}
use Prim.Native.String
use errander_ai.Common.{
  ℕ, zero, suc, String, Bool, true, false, not, ◌&&◌, ◌||◌, List, [], ◌∷◌, str_eq, leb, ◌==◌,
  if◌then◌else◌, length,
}

pub data ProposalKind : Type 0 where
  action review : ProposalKind

-- `ProposalStatus`, which the CHECK constraint of the table mirrors.
pub data ProposalStatus : Type 0 where
  pending approved rejected snoozed expired : ProposalStatus

abbrev pub is_pending : ProposalStatus → Bool
is_pending pending = true
is_pending _ = false

abbrev pub is_approved : ProposalStatus → Bool
is_approved approved = true
is_approved _ = false

abbrev pub is_snoozed : ProposalStatus → Bool
is_snoozed snoozed = true
is_snoozed _ = false

abbrev pub is_rejected : ProposalStatus → Bool
is_rejected rejected = true
is_rejected _ = false

abbrev pub is_action : ProposalKind → Bool
is_action action = true
is_action review = false

-- `AgentProposal` before it is stored. `E` is `ProposalEvidence`.
pub record AgentProposal (E : Type 0) : Type 0 where
  pub proposal_id : String
  pub env_name : String
  pub vm_id : String
  pub kind : ProposalKind
  pub action_type : String
  pub signal_kind : String
  pub origin : String
  pub probe_id : String
  pub evidence : List E
  pub confidence : String

-- The code points of a text.
abbrev pub codes : String → List ℕ
codes String.[] = []
codes (String.◌∷◌ c s) = code c ∷ codes s

abbrev pub is_alphanumeric : ℕ → Bool
is_alphanumeric c =
    (leb b'A' c && leb c b'Z') || (leb b'a' c && leb c b'z') || (leb b'0' c && leb c b'9')

abbrev pub is_identifier_char : ℕ → Bool
is_identifier_char c = is_alphanumeric c || c == b'.' || c == b'_' || c == b'-'

-- `[A-Za-z0-9._-]{0,n}$` of Python's `re`: `$` also matches before a line feed that ends the text.
pub matches_rest : ℕ → List ℕ → Bool
matches_rest n [] = true
matches_rest zero (c ∷ cs) = c == 10 && length cs == 0
matches_rest (suc n) (c ∷ cs) =
    let rest = matches_rest n cs in (c == 10 && length cs == 0) || (is_identifier_char c && rest)

-- `_IDENTIFIER_RE.match`.
unfoldable pub matches_identifier : List ℕ → Bool
unfolding matches_rest
matches_identifier [] = false
matches_identifier (c ∷ cs) = is_alphanumeric c && matches_rest 127 cs

-- `v in PROPOSABLE_ACTIONS`.
unfoldable pub is_proposable : String → Bool
is_proposable v = str_eq v "disk_cleanup" || str_eq v "log_rotation"

-- The field validators and `_kind_action_consistency`: whether the model accepts a proposal.
unfoldable pub is_valid : {E : Type 0} → AgentProposal E → Bool
unfolding matches_identifier is_proposable
is_valid p =
    matches_identifier (codes p.env_name)
    && matches_identifier (codes p.vm_id)
    && matches_identifier (codes p.signal_kind)
    && matches_identifier (codes p.origin)
    && (str_eq p.action_type "" || is_proposable p.action_type)
    && (if is_action p.kind then not (str_eq p.action_type "") else str_eq p.action_type "")

-- The property `action_key`.
unfoldable pub action_key : {E : Type 0} → AgentProposal E → String
action_key p = if is_action p.kind then p.action_type else String.◌++◌ "review:" p.signal_kind

-- The property `is_actionable`.
unfoldable pub is_actionable : {E : Type 0} → AgentProposal E → Bool
is_actionable p = is_action p.kind && not (str_eq p.action_type "")
