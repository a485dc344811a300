-- ===== src/Examples/Proposals.antt =====
-- Proposals that go through errander/models/proposals.py and errander/safety/proposal_store.py.
use errander_ai.Common.{
  ℕ, String, ◌≡◌, refl, true, none, some, List, [], ◌∷◌, arith, count_where, find_where,
  update_where,
}
use errander_ai.Proposals.{AgentProposal, action, pending, snoozed, action_key}
use errander_ai.Proposals.Store.{Row, open_at, create_or_refresh}
use errander_ai.Proposals.Store.Run.{Op, file, decision, postpone, claim, run}
use errander_ai.Proposals.Store.Steps.{row_of}
use errander_ai.Proposals.Store.Dedup.{IsDeduped, run-IsDeduped}
use errander_ai.Proposals.Store.Claims.{HasUniqueIds}

abbrev clean_web : AgentProposal ℕ
clean_web = record {
  proposal_id = "u1";
  env_name = "prod";
  vm_id = "web-01";
  kind = action;
  action_type = "disk_cleanup";
  signal_kind = "disk_growth";
  origin = "probe_detector";
  probe_id = "p1";
  evidence = [];
  confidence = "high";
}

abbrev again : AgentProposal ℕ
again = record clean_web { proposal_id = "u2" }

abbrev dumps : List ℕ → String
dumps evidence = "[]"

empty-IsDeduped : IsDeduped []
unfolding count_where
empty-IsDeduped = record { one_open = λ vm key. omega arith }

empty-HasUniqueIds : HasUniqueIds []
unfolding count_where
empty-HasUniqueIds = record { unique = λ id. omega arith }

-- A proposal is snoozed, and the next probe files the same one again.
abbrev snoozed_twice : List (Op ℕ)
snoozed_twice = file 0 7 clean_web ∷ postpone 1 "u1" 5 none none ∷ file 2 7 again ∷ []

abbrev table : List Row
table = run dumps [] snoozed_twice

run-IsDeduped_example : IsDeduped table
run-IsDeduped_example = run-IsDeduped dumps snoozed_twice [] empty-IsDeduped

abbrev executed_once : List (Op ℕ)
executed_once =
    file 0 7 clean_web ∷ decision 1 "u1" true none none ∷ claim 2 "u1" ∷ claim 3 "u1" ∷ []

abbrev open_web : Row
open_web = record {
  proposal_id = "u2";
  env_name = "prod";
  vm_id = "web-01";
  kind = action;
  action_type = "disk_cleanup";
  action_key = "disk_cleanup";
  signal_kind = "disk_growth";
  origin = "probe_detector";
  probe_id = "p1";
  evidence_json = "[]";
  confidence = "high";
  status = pending;
  created_at = 2;
  updated_at = 2;
  expires_at = some 604800000002;
  decided_by = none;
  decided_by_group = none;
  decided_at = none;
  snoozed_until = none;
  execution_started_at = none;
  execution_status = none;
}

abbrev snoozed_web : Row
snoozed_web = record open_web {
  proposal_id = "u1";
  status = snoozed;
  created_at = 0;
  updated_at = 1;
  expires_at = some 604800000000;
  decided_at = some 1;
  snoozed_until = some 5;
}

snoozed_web_found : row_of table "u1" ≡ some snoozed_web
unfolding run create_or_refresh action_key find_where update_where
snoozed_web_found = refl

open_found : find_where (open_at "web-01" (action_key clean_web)) (open_web ∷ []) ≡ some open_web
unfolding find_where action_key
open_found = refl
