-- ===== src/Proposals/Store.antt =====
-- errander/safety/proposal_store.py: the class `ProposalStore`. A statement that would break the
-- primary key or the partial unique index on (vm_id, action_key) of the pending rows fails as a
-- whole, with the IntegrityError of the database.
pub mod Filing
pub mod Steps
pub mod Dedup
pub mod Wake
pub mod Claims
pub mod Suppression
pub mod Stored
pub mod Run
pub mod Reads
use errander_ai.Common.{
  ℕ, ◌+◌, ◌-◌, ◌*◌, String, Bool, true, false, ◌&&◌, ◌||◌, Option, none, some, List, [], ◌∷◌, ◌++◌,
  map, str_eq, leb, ltb, ◌==◌, if◌then◌else◌, any, select_where, find_where, count_where,
  update_where, order_by,
}
use errander_ai.Proposals.{
  ProposalKind, ProposalStatus, pending, approved, rejected, snoozed, expired, is_pending,
  is_approved, is_snoozed, is_rejected, is_action, AgentProposal, action_key,
}

-- One row of `agent_proposals`. A time is the instant, in microseconds, that its text stands for.
pub record Row : Type 0 where
  pub proposal_id : String
  pub env_name : String
  pub vm_id : String
  pub kind : ProposalKind
  pub action_type : String
  pub action_key : String
  pub signal_kind : String
  pub origin : String
  pub probe_id : String
  pub evidence_json : String
  pub confidence : String
  pub status : ProposalStatus
  pub created_at : ℕ
  pub updated_at : ℕ
  pub expires_at : Option ℕ
  pub decided_by : Option String
  pub decided_by_group : Option String
  pub decided_at : Option ℕ
  pub snoozed_until : Option ℕ
  pub execution_started_at : Option ℕ
  pub execution_status : Option String

pub data Result (A : Type 0) : Type 0 where
  ok : A → Result A
  integrity_error : Result A

abbrev pub has_id : String → Row → Bool
has_id id r = str_eq r.proposal_id id

abbrev pub has_key : String → String → Row → Bool
has_key vm key r = str_eq r.vm_id vm && str_eq r.action_key key

-- The rows that the partial index covers, at one key.
abbrev pub open_at : String → String → Row → Bool
open_at vm key r = has_key vm key r && is_pending r.status

-- `timedelta(days=n)` in microseconds.
abbrev pub days : ℕ → ℕ
days n = n * 86400000000

abbrev pub due : Option ℕ → ℕ → Bool
due none now = false
due (some t) now = leb t now

-- The row that `create_or_refresh` inserts; `evidence_json` is the JSON text of the evidence.
unfoldable pub new_row : {E : Type 0} → ℕ → ℕ → String → AgentProposal E → Row
new_row now expires_at evidence_json p = record {
  proposal_id = p.proposal_id;
  env_name = p.env_name;
  vm_id = p.vm_id;
  kind = p.kind;
  action_type = p.action_type;
  action_key = action_key p;
  signal_kind = p.signal_kind;
  origin = p.origin;
  probe_id = p.probe_id;
  evidence_json = evidence_json;
  confidence = p.confidence;
  status = pending;
  created_at = now;
  updated_at = now;
  expires_at = some expires_at;
  decided_by = none;
  decided_by_group = none;
  decided_at = none;
  snoozed_until = none;
  execution_started_at = none;
  execution_status = none;
}

-- The DO UPDATE of `create_or_refresh`.
unfoldable pub refresh : {E : Type 0} → ℕ → ℕ → String → AgentProposal E → Row → Row
refresh now expires_at evidence_json p r = record r {
  evidence_json = evidence_json;
  confidence = p.confidence;
  probe_id = p.probe_id;
  updated_at = now;
  expires_at = some expires_at;
}

-- INSERT ... ON CONFLICT (vm_id, action_key) WHERE status = 'pending' DO UPDATE ... RETURNING: the
-- table, the row that is stored, and whether its two times agree. A conflict on the primary key is
-- none that the clause names.
unfoldable pub create_or_refresh :
    {E : Type 0}
    → (List E → String)
    → List Row
    → ℕ
    → ℕ
    → AgentProposal E
    → Result (List Row × Row × Bool)
unfolding new_row refresh
create_or_refresh dumps rows now expiry_days p =
    let expires_at = now + days expiry_days in
    let evidence_json = dumps p.evidence in
    let open_row = open_at p.vm_id (action_key p) in
    elim (find_where open_row rows) [
      | some r ↦
          let r' = refresh now expires_at evidence_json p r in
          ok (
            update_where open_row (refresh now expires_at evidence_json p) rows,
            r',
            r'.created_at == r'.updated_at,
          )
      | none ↦
          let r = new_row now expires_at evidence_json p in
          elim (find_where (has_id p.proposal_id) rows) [
            | some _ ↦ integrity_error
            | none ↦ ok (rows ++ r ∷ [], r, r.created_at == r.updated_at)
          ]
    ]

abbrev pub pending_with : String → Row → Bool
pending_with id r = has_id id r && is_pending r.status

abbrev pub record_decision : ℕ → Bool → Option String → Option String → Row → Row
record_decision now approve by group r = record r {
  status = if approve then approved else rejected;
  decided_by = by;
  decided_by_group = group;
  decided_at = some now;
  updated_at = now;
}

unfoldable pub decide :
    List Row → ℕ → String → Bool → Option String → Option String → List Row × Bool
decide rows now id approve by group = (
  update_where (pending_with id) (record_decision now approve by group) rows,
  count_where (pending_with id) rows == 1,
)

abbrev pub record_snooze : ℕ → ℕ → Option String → Option String → Row → Row
record_snooze now until by group r = record r {
  status = snoozed;
  snoozed_until = some until;
  decided_by = by;
  decided_by_group = group;
  decided_at = some now;
  updated_at = now;
}

unfoldable pub snooze : List Row → ℕ → String → ℕ → Option String → Option String → List Row × Bool
snooze rows now id until by group = (
  update_where (pending_with id) (record_snooze now until by group) rows,
  count_where (pending_with id) rows == 1,
)

abbrev pub overdue : ℕ → Row → Bool
overdue now r = is_pending r.status && due r.expires_at now

abbrev pub record_expiry : ℕ → Row → Row
record_expiry now r = record r { status = expired; updated_at = now }

unfoldable pub expire_overdue : List Row → ℕ → List Row × List String
expire_overdue rows now = (
  update_where (overdue now) (record_expiry now) rows,
  map (λ r. r.proposal_id) (select_where (overdue now) rows),
)

abbrev pub is_null : {A : Type 0} → Option A → Bool
is_null none = true
is_null (some _) = false

-- status = 'approved' AND kind = 'action' AND execution_started_at IS NULL
abbrev pub unclaimed : Row → Bool
unclaimed r = is_approved r.status && (is_action r.kind && is_null r.execution_started_at)

abbrev pub stamp_execution : ℕ → Row → Row
stamp_execution now r = record r { execution_started_at = some now; updated_at = now }

unfoldable pub mark_execution_started : List Row → ℕ → String → List Row × Bool
mark_execution_started rows now id =
    let claimable = λ (r : Row). has_id id r && unclaimed r in
    (update_where claimable (stamp_execution now) rows, count_where claimable rows == 1)

unfoldable pub set_execution_status : List Row → ℕ → String → String → List Row
set_execution_status rows now id status =
    update_where (has_id id) (λ r. record r { execution_status = some status; updated_at = now })
      rows

abbrev pub snooze_over : ℕ → Row → Bool
snooze_over now r = is_snoozed r.status && due r.snoozed_until now

abbrev pub wake : ℕ → Row → Row
wake now r = record r { status = pending; snoozed_until = none; updated_at = now }

-- Whether two pending rows share a key of the partial index.
unfoldable pub has_duplicates : List Row → Bool
has_duplicates [] = false
has_duplicates (r ∷ rows) =
    let rest = has_duplicates rows in
    (is_pending r.status && any (open_at r.vm_id r.action_key) rows) || rest

unfoldable pub wake_snoozed : List Row → ℕ → Result (List Row × List String)
unfolding has_duplicates
wake_snoozed rows now =
    let woken = update_where (snooze_over now) (wake now) rows in
    if has_duplicates woken
    then integrity_error
    else ok (woken, map (λ r. r.proposal_id) (select_where (snooze_over now) rows))
