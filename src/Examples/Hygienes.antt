-- ===== src/Examples/Hygienes.antt =====
-- Runs of docker_hygiene: errander/agent/subgraphs/docker_hygiene.py, errander/agent/vm_graph.py,
-- errander/safety/hygiene_store.py and the form of errander/web/ui.py.
use errander_ai.Common.{
  ◌≡◌, ◌≢◌, refl, String, true, false, ◌||◌, Option, none, some, List, [], ◌∷◌, All, Mem, str_eq,
  find_where, update_where, select_where, ℤ, pos, if◌then◌else◌, length,
}
use errander_ai.Approval.{rejected}
use errander_ai.Vm.{status_pending}
use errander_ai.Hygiene.{
  image_dangling, image_unused, container_stopped, cleanup_candidate, report_only, Finding,
  Assessment, key_of, identity,
}
use errander_ai.Hygiene.Rules.{Config, blank}
use errander_ai.Hygiene.Assess.{parse_assess_v2_output}
use errander_ai.Hygiene.Assess.Classified.{IsClassified, parse_assess-IsClassified}
use errander_ai.Hygiene.Removal.{parse_remove_v2_output}
use errander_ai.Hygiene.Removal.Outcomes.{covers, parse_remove-Covers}
use errander_ai.Hygiene.Graph.{assess_v2, remove_v2, Wrappers, HygieneState, docker_hygiene}
use errander_ai.Hygiene.Store.{HygieneRow, HygieneStore, hygiene_row, get_hygiene}
use errander_ai.Hygiene.Form.{
  Form, answer, sweep, approved_page, is_picked, selection, run_hygiene, hygiene_approve_post,
}
use errander_ai.Hygiene.Form.Stays.{run_hygiene-settled}
use errander_ai.Hygiene.Form.Exact.{is_ticked_in, selection-picked, lost_race_confirmed}
use errander_ai.Hygiene.Wait.{HygieneRound, waits, wait_for_hygiene}
use errander_ai.Hygiene.Wait.Answered.{Ends, wait_for_hygiene-Returns}
use errander_ai.Hygiene.Run.{Surroundings, run_docker_hygiene}
use errander_ai.Hygiene.Run.Approved.{OnlyCleared, run_docker_hygiene-OnlyCleared}

abbrev small_int : String → Option ℤ
small_int =
    λ s. if str_eq s "40" then some (pos 40) else if str_eq s "5" then some (pos 5) else none

abbrev lower : String → String
lower = λ s. s

-- A digest that tells empty lists from the others.
abbrev digest : List (String × String × String) → String
digest = λ triples. elim triples [ [] ↦ "empty" | t ∷ ts ↦ "some" ]

abbrev no_volumes : Config
no_volumes = record {
  volume_deletion_enabled = false;
  volume_last_mount_days_threshold = pos 90;
  build_cache_deletion_enabled = false;
}

abbrev printed : String
printed =
    "reachable=yes\ndocker_hygiene_begin\nclass=image_unused\n  id=sha256:old age_days=40\n  id=sha256:new age_days=5\ndocker_hygiene_end\n"

abbrev unused_image : Finding
unused_image = record (blank image_unused report_only) {
  object_id = some "sha256:new";
  age_days = some (pos 5);
}

abbrev one_image : Assessment
one_image = record { vm_id = "web1"; findings = unused_image ∷ []; reachable = true; error = none }

parse_assess-IsClassified_example :
    All
      (IsClassified no_volumes)
      (parse_assess_v2_output small_int lower no_volumes "web1" printed).findings
parse_assess-IsClassified_example =
    parse_assess-IsClassified small_int no_volumes lower "web1" printed

two_images : length (parse_assess_v2_output small_int lower no_volumes "web1" printed).findings ≡ 2
unfolding parse_assess_v2_output
two_images = refl

parse_remove-Covers_example :
    All
      (λ r. Mem r.finding (unused_image ∷ []))
      (parse_remove_v2_output "result class=image_unused id=sha256:new status=removed\n"
        (unused_image ∷ []))
    × All
        (λ f.
          covers
            (parse_remove_v2_output "result class=image_unused id=sha256:new status=removed\n"
              (unused_image ∷ []))
            (key_of f)
          ≡ true)
        (unused_image ∷ [])
parse_remove-Covers_example =
    parse_remove-Covers "result class=image_unused id=sha256:new status=removed\n"
      (unused_image ∷ [])

abbrev hygiene_start : HygieneState
hygiene_start = record {
  vm_id = "web1";
  dry_run = false;
  docker_available = true;
  docker_command_mode = "wrapper";
  config = no_volumes;
  approval = none;
  status = status_pending;
  assessment = none;
  nothing_to_do = false;
  removal_results = [];
}

abbrev empty_store : HygieneStore
empty_store = record { rows = []; waiters = [] }

abbrev request : String × String
request = ("b1", "web1")

-- Every unused image is ticked.
abbrev tick_unused : Form
tick_unused = record {
  approve = true;
  user = "ann";
  ticked = λ c i. elim c [ image_unused ↦ true | _ ↦ false ];
}

abbrev reject_all : Form
reject_all = record { approve = false; user = "bob"; ticked = λ c i. false }

abbrev late_round : HygieneRound
late_round = record {
  now = 9000000;
  before_mark = sweep 5 ∷ [];
  marked_at = 9000001;
  before_reread = [];
  elsewhere = [];
}

-- A host with one dangling image, whose approval is at hand.
abbrev dangling_host : Wrappers
dangling_host = λ sent c. some (record {
  is_success = true;
  stdout = elim c [
    | assess_v2 ↦ "docker_hygiene_begin\nclass=image_dangling\nid=a\n"
    | remove_v2 text ↦ "result class=image_dangling id=a status=removed\n"
  ];
})

abbrev dangling_image : Finding
dangling_image = record (blank image_dangling cleanup_candidate) { object_id = some "a" }

abbrev image_approved : HygieneState
image_approved = record hygiene_start {
  approval = some (record { approved_findings = dangling_image ∷ []; snapshot_hash = "some" });
}

removes_image :
    (docker_hygiene digest small_int lower dangling_host [] image_approved).0
    ≡ assess_v2 ∷ remove_v2 "class=image_dangling id=a expected=cleanup_candidate\n" ∷ []
unfolding docker_hygiene
removes_image = refl

-- The whole run on this host: the operator ticks the image and the agent removes it.
abbrev tick_dangling : Form
tick_dangling = record {
  approve = true;
  user = "ann";
  ticked = λ c i. elim c [ image_dangling ↦ true | _ ↦ false ];
}

abbrev approving_round : HygieneRound
approving_round = record {
  now = 10;
  before_mark = [];
  marked_at = 10;
  before_reread = [];
  elsewhere =
      answer 11 request (record one_image { findings = dangling_image ∷ [] }) tick_dangling ∷ [];
}

abbrev approved_run : Surroundings
approved_run = record {
  request_key = request;
  has_manager = true;
  before_register = [];
  registered_at = 1;
  waits_from = 2;
  approval_timeout_seconds = 5;
  rounds = approving_round ∷ late_round ∷ [];
}

run_docker_hygiene-OnlyCleared_example :
    OnlyCleared digest small_int lower dangling_host hygiene_start approved_run (
      run_docker_hygiene digest small_int lower dangling_host hygiene_start approved_run none
        empty_store)
run_docker_hygiene-OnlyCleared_example =
    run_docker_hygiene-OnlyCleared digest small_int lower dangling_host hygiene_start approved_run
      empty_store tt

removes_approved :
    (run_docker_hygiene digest small_int lower dangling_host hygiene_start approved_run none
      empty_store).sent
    ≡ assess_v2
      ∷ assess_v2
      ∷ remove_v2 "class=image_dangling id=a expected=cleanup_candidate\n"
      ∷ []
unfolding run_docker_hygiene docker_hygiene find_where update_where select_where
removes_approved = refl

abbrev pending_row : HygieneRow
pending_row = hygiene_row 1 request one_image 1800

abbrev rejected_row : HygieneRow
rejected_row = record pending_row { status = rejected }

abbrev one_pending : HygieneStore
one_pending = record { rows = pending_row ∷ []; waiters = [] }

abbrev one_rejected : HygieneStore
one_rejected = record { rows = rejected_row ∷ []; waiters = [] }

rejected_found : get_hygiene one_rejected request ≡ some rejected_row
unfolding get_hygiene find_where
rejected_found = refl

run_hygiene-settled_example :
    get_hygiene
      (run_hygiene digest one_rejected (sweep 9 ∷ answer 10 request one_image tick_unused ∷ []))
      request
    ≡ some rejected_row
run_hygiene-settled_example =
    run_hygiene-settled digest request one_rejected rejected_row
      (sweep 9 ∷ answer 10 request one_image tick_unused ∷ []) rejected_found refl

wait_for_hygiene-Returns_example :
    ((wait_for_hygiene digest request 2 5 (late_round ∷ []) one_pending).0 ≢ waits)
    × Ends digest request (wait_for_hygiene digest request 2 5 (late_round ∷ []) one_pending)
wait_for_hygiene-Returns_example =
    wait_for_hygiene-Returns digest request 2 5 (late_round ∷ []) one_pending (tt, tt) refl

selection-picked_example :
    is_picked ("image_unused", "sha256:new") (selection tick_unused one_image) ≡ (
      (is_ticked_in tick_unused one_image image_dangling ("image_unused", "sha256:new")
        || is_ticked_in tick_unused one_image image_unused ("image_unused", "sha256:new"))
      || is_ticked_in tick_unused one_image container_stopped ("image_unused", "sha256:new"))
selection-picked_example = selection-picked tick_unused one_image ("image_unused", "sha256:new")

-- An image that is only reported can be approved.
picks_reported : is_picked ("image_unused", "sha256:new") (selection tick_unused one_image) ≡ true
unfolding selection select_where identity
picks_reported = refl

abbrev bobs_row : HygieneRow
bobs_row = record pending_row {
  status = rejected;
  decided_by = some "ui:bob";
  snapshot_hash = some "some";
  decided_at = some 6;
}

pending_found : get_hygiene one_pending request ≡ some pending_row
unfolding get_hygiene find_where
pending_found = refl

bob_was_first :
    get_hygiene
      (run_hygiene digest one_pending (answer 6 request one_image reject_all ∷ []))
      request
    ≡ some bobs_row
unfolding get_hygiene run_hygiene find_where update_where
bob_was_first = refl

lost_race_confirmed_example :
    let result =
      hygiene_approve_post digest one_pending
        (answer 6 request one_image reject_all ∷ [])
        7
        (record {
          may_decide = true;
          is_decision = true;
          located = some request;
          form = tick_unused;
        }) in
    (result.1 ≡ approved_page (length (selection tick_unused one_image)))
    × (get_hygiene result.0 request ≡ some bobs_row)
lost_race_confirmed_example =
    lost_race_confirmed digest one_pending (answer 6 request one_image reject_all ∷ []) 7 request
      tick_unused pending_row bobs_row pending_found refl bob_was_first refl refl
