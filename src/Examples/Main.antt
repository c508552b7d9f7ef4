-- ===== src/Examples/Main.antt =====
-- A run of main outside Kubernetes.
use correlation.Base.{
  ◌↔◌, true, ◌≢◌, if◌then◌else◌, text_eq, Text, codes, [], ◌∷◌, ◌≡◌, refl, Map, none, some, Result,
  ok, err,
}
use correlation.Service.{with_defaults, new_service, check_input, generate_config}
use correlation.Service.Creation.{IsComplete}
use correlation.Main.{
  Environment, Url, GlobalOptions, parse_arguments, use_kubernetes, set_log_levels,
  get_kubernetes_namespace,
}
use correlation.Main.Levels.{level_of, or_default, level_of-set_log_levels}
use correlation.Main.{service_log_name, watcher_log_name}
use correlation.Main.Prepare.{Outside, Prepared, etcd, cmd_main_run}
use correlation.Main.Exit.{or_exit}
use correlation.Main.Run.{cmd_main_run-IsComplete, is_kubernetes}
use correlation.Announced.{update_config_from_docker}
use correlation.Etcd.{new_etcd_backend}
use correlation.Strconv.{itoa}
use correlation.Examples.Etcd.{nodes, idle}
use correlation.Examples.K8s.{pods}
use correlation.Examples.Service.{given, inspect, run_command, service}

abbrev pub outside : Outside pods
outside = record {
  cluster_state = (0, []);
  in_cluster = none;
  pod_ip = λ namespace name. ok (codes "10.1.1.1");
  inspect = inspect;
  level_error = λ level. none;
  new_client = λ endpoints. none;
  run_command = run_command;
  api_key = codes "k";
}

abbrev pub bare : Environment
bare = record { service_host = []; service_port = [] }

abbrev pub flags : GlobalOptions
flags = record {
  log_level = codes "debug";
  backend_log_level = [];
  service_log_level = [];
  watcher_log_level = codes "info";
  etcd_addr = [];
  etcd_endpoints = codes "http://e:2379" ∷ [];
  etcd_path = codes "/c";
  kubernetes_pod_name = [];
  service_config = record given { container_id = [] };
}

abbrev pub no_url : Text → Result Url
no_url s = err (codes "invalid")

abbrev pub levels : Map Text
levels =
    (codes "service", codes "debug")
    ∷ (codes "service", codes "debug")
    ∷ (codes "watcher", codes "info")
    ∷ []

abbrev pub prepared : Prepared nodes pods
prepared = record {
  backend = etcd (record idle { watcher = some 0 });
  service = record service { config = with_defaults (record given { container_id = [] }) };
}

cmd_main_run-IsComplete_example :
    (parsed : GlobalOptions) × (parse_arguments no_url flags ≡ ok parsed)
    × IsComplete prepared.service.config
    × ((is_kubernetes nodes pods prepared.backend ≡ true) ↔ (
        (bare.service_host ≢ [])
        × (bare.service_port ≢ [])
        × (get_kubernetes_namespace (err (codes "none")) ≢ [])
        × (parsed.kubernetes_pod_name ≢ [])))
unfolding cmd_main_run or_exit set_log_levels parse_arguments use_kubernetes new_etcd_backend
    update_config_from_docker new_service with_defaults check_input generate_config itoa
cmd_main_run-IsComplete_example =
    cmd_main_run-IsComplete nodes pods outside bare (err (codes "none")) no_url flags levels
      prepared refl

level_of-set_log_levels_example : level_of levels service_log_name ≡ (
    if text_eq watcher_log_name service_log_name
    then some (or_default flags.watcher_log_level flags.log_level)
    else if text_eq service_log_name service_log_name
    then some (or_default flags.service_log_level flags.log_level)
    else none)
unfolding set_log_levels
level_of-set_log_levels_example =
    level_of-set_log_levels (λ level. none) flags levels service_log_name refl
