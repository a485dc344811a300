-- ===== src/Detector/Filing.antt =====
-- errander/agent/proposal_detector.py: the filing of proposals, with the counts of a run.
use errander_ai.Common.{
  ℕ, suc, String, Bool, Option, none, some, List, [], ◌∷◌, ◌++◌, if◌then◌else◌,
}
use errander_ai.Proposals.{AgentProposal, is_action}
use errander_ai.Proposals.Store.{Row, Result, ok, integrity_error, create_or_refresh}
use errander_ai.Proposals.Store.Reads.{create_or_refresh_unless_suppressed}

pub data Outcome : Type 0 where
  created refreshed suppressed : Outcome

-- The settings of a run, and the instant.
pub record Filing : Type 0 where
  pub now : ℕ
  pub threshold : ℕ
  pub window_days : ℕ
  pub expiry_days : ℕ

abbrev pub outcome_of : Bool → Outcome
outcome_of was_created = if was_created then created else refreshed

abbrev pub outcome_unless : Option Row → Bool → Outcome
outcome_unless none was_created = suppressed
outcome_unless (some r) was_created = outcome_of was_created

abbrev pub from_action :
    Result (List Row × Option Row × Bool) → Result (List Row × Option Row × Outcome)
from_action (ok (rows, stored, was_created)) = ok (rows, stored, outcome_unless stored was_created)
from_action integrity_error = integrity_error

abbrev pub from_review : Result (List Row × Row × Bool) → Result (List Row × Option Row × Outcome)
from_review (ok (rows, stored, was_created)) = ok (rows, some stored, outcome_of was_created)
from_review integrity_error = integrity_error

-- `file_or_suppress_one`.
unfoldable pub file_or_suppress_one :
    {E : Type 0}
    → (List E → String)
    → Filing
    → List Row
    → AgentProposal E
    → Result (List Row × Option Row × Outcome)
file_or_suppress_one dumps f rows p =
    if is_action p.kind
    then from_action (
        create_or_refresh_unless_suppressed dumps rows f.now f.threshold f.window_days f.expiry_days
          p)
    else from_review (create_or_refresh dumps rows f.now f.expiry_days p)

-- The three counts, and the proposals that are stored.
pub record Counts : Type 0 where
  pub created_count : ℕ
  pub refreshed_count : ℕ
  pub suppressed_count : ℕ
  pub stored_proposals : List Row

abbrev pub or_none : Option Row → List Row
or_none none = []
or_none (some r) = r ∷ []

abbrev pub counted : Option Row → Outcome → Counts → Counts
counted stored created c = record c {
  created_count = suc c.created_count;
  stored_proposals = c.stored_proposals ++ or_none stored;
}
counted stored refreshed c = record c {
  refreshed_count = suc c.refreshed_count;
  stored_proposals = c.stored_proposals ++ or_none stored;
}
counted stored suppressed c = record c { suppressed_count = suc c.suppressed_count }

-- The loop of `file_proposals`; an IntegrityError ends it, and what was stored before stays.
unfoldable pub file_all :
    {E : Type 0}
    → (List E → String)
    → Filing
    → List (AgentProposal E)
    → List Row
    → Counts
    → List Row × Option Counts
file_all dumps f [] rows c = (rows, some c)
file_all dumps f (p ∷ ps) rows c = elim (file_or_suppress_one dumps f rows p) [
  | integrity_error ↦ (rows, none)
  | ok (rows', stored, outcome) ↦ file_all dumps f ps rows' (counted stored outcome c)
]

-- `file_proposals`.
unfoldable pub file_proposals :
    {E : Type 0}
    → (List E → String)
    → Filing
    → List (AgentProposal E)
    → List Row
    → List Row × Option Counts
file_proposals dumps f ps rows =
    file_all dumps f ps rows (record {
      created_count = 0;
      refreshed_count = 0;
      suppressed_count = 0;
      stored_proposals = [];
    })
