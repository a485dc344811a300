-- ===== src/Examples/Restarts.antt =====
-- Runs of errander/agent/subgraphs/service_restart.py on a target that answers.
use errander_ai.Common.{◌≡◌, refl, true, false, some, [], ◌∷◌}
use errander_ai.Vm.{success, status_pending}
use errander_ai.Restart.{RestartContext}
use errander_ai.Restart.Graph.{
  check_wrapper, snapshot_only, restart, RestartTarget, RestartState, verify_ok, service_restart,
}
use errander_ai.Restart.Allowed.{AtRestartEnd, service_restart-IsTrace}

-- A target on which nginx is active after the restart.
abbrev nginx_host : RestartTarget
nginx_host = λ sent c. some (record {
  is_success = true;
  stdout = elim c [
    | check_wrapper ↦ "ok\n"
    | _ ↦ "pre_status_begin\ndead\npre_status_end\npost_active_begin\nactive\npost_active_end\n"
  ];
})

abbrev no_texts : RestartContext
no_texts = record {
  pre_status = "";
  pre_journal = "";
  post_active = "";
  post_status = "";
  post_journal = "";
}

abbrev restart_nginx : RestartState
restart_nginx = record {
  dry_run = false;
  unit_name = "nginx.service";
  restartable_units = "nginx.service" ∷ [];
  status = status_pending;
  context = no_texts;
  events = [];
}

service_restart-IsTrace_example :
    AtRestartEnd nginx_host restart_nginx (service_restart nginx_host restart_nginx)
service_restart-IsTrace_example = service_restart-IsTrace nginx_host restart_nginx

restarts_nginx : service_restart nginx_host restart_nginx ≡ (
  check_wrapper ∷ snapshot_only "nginx.service" ∷ restart "nginx.service" ∷ [],
  some (record restart_nginx {
    status = success;
    context = record no_texts { pre_status = "dead"; post_active = "active" };
    events = verify_ok ∷ [];
  }),
)
unfolding service_restart
restarts_nginx = refl
