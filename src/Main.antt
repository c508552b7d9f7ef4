-- ===== src/Main.antt =====
-- main.go: the flags and what cmdMainRun makes of them, and pkg/kubernetes/downward_api.go. The environment,
-- the file with the namespace, url.Parse and the levels of the package logging are arguments. A process
-- that exits is an error with the text that it has printed.
pub mod Exit
pub mod Selection
pub mod Levels
pub mod Prepare
pub mod Run
pub mod Start
use correlation.Base.{
  is_empty, ℕ, Text, codes, List, [], ◌∷◌, ◌++◌, Bool, true, false, not, ◌&&◌, ◌||◌, if◌then◌else◌,
  Option, none, some, Result, ok, err, ◌>>=◌, ◌>>◌, trim_prefix, pos, Map,
}
use Exit.{exitf}
use correlation.Strings.{replace_byte, trim_space}
use correlation.Paths.{slash}
use correlation.Service.{ServiceConfig, Service, new_service}
use correlation.Announced.{Network, update_config_from_docker, update_config_from_kubernetes}
use correlation.Etcd.{KeysApi, EtcdBackend, new_etcd_backend}
use correlation.K8s.{Cluster, K8sBackend, new_kubernetes_backend}

-- GetKubernetesNamespace, on what reading the file gives
unfoldable pub get_kubernetes_namespace : Result Text → Text
get_kubernetes_namespace (err e) = []
get_kubernetes_namespace (ok raw) = trim_space raw

-- the fields of a url.URL that the code reads
pub record Url : Type 0 where
  pub scheme : Text
  pub host : Text
  pub path : Text

-- globalOptions
pub record GlobalOptions : Type 0 where
  pub log_level : Text
  pub backend_log_level : Text
  pub service_log_level : Text
  pub watcher_log_level : Text
  pub etcd_addr : Text
  pub etcd_endpoints : List Text
  pub etcd_path : Text
  pub kubernetes_pod_name : Text
  pub service_config : ServiceConfig

abbrev with_url : GlobalOptions → Result Url → Result GlobalOptions
with_url flags (err e) =
    err (exitf (codes "--etcd-addr '%s' is not valid: %#v") (flags.etcd_addr ∷ e ∷ []))
with_url flags (ok u) =
    ok (record flags {
      etcd_endpoints = (u.scheme ++ codes "://" ++ u.host) ∷ [];
      etcd_path = u.path;
    })

-- "Parse arguments"
unfoldable pub parse_arguments : (Text → Result Url) → GlobalOptions → Result GlobalOptions
parse_arguments parse_url flags =
    if not (is_empty flags.etcd_addr) then with_url flags (parse_url flags.etcd_addr) else ok flags

-- the label value that the pods of a group share
unfoldable pub label_selection_value : Text → Text
label_selection_value etcd_path = trim_prefix (replace_byte slash b'_' etcd_path) (b'_' ∷ [])

-- KUBERNETES_SERVICE_HOST and KUBERNETES_SERVICE_PORT
pub record Environment : Type 0 where
  pub service_host : Text
  pub service_port : Text

-- the test for Kubernetes
unfoldable pub use_kubernetes : Environment → Text → Text → Bool
use_kubernetes env namespace pod_name =
    not (is_empty env.service_host)
    && not (is_empty env.service_port)
    && not (is_empty namespace)
    && not (is_empty pod_name)

-- setLogLevel, with the error of logging.LogLevel: the logger and the level that it is given
unfoldable pub set_log_level : (Text → Option Text) → Text → Text → Text → Result (Text × Text)
set_log_level level_error level default_level logger_name =
    let log_level = if is_empty level then default_level else level in
    elim (level_error log_level) [
      | none ↦ ok (logger_name, log_level)
      | some e ↦ err (exitf (codes "Invalid log-level '%s': %#v") (log_level ∷ e ∷ []))
    ]

abbrev pub backend_log_name : Text
backend_log_name = codes "service"

abbrev pub service_log_name : Text
service_log_name = codes "service"

abbrev pub watcher_log_name : Text
watcher_log_name = codes "watcher"

-- "Set log levels": the loggers with their levels, in the order in which they are set
unfoldable pub set_log_levels : (Text → Option Text) → GlobalOptions → Result (Map Text)
unfolding set_log_level
set_log_levels level_error flags = do
  b ← set_log_level level_error flags.backend_log_level flags.log_level backend_log_name
  s ← set_log_level level_error flags.service_log_level flags.log_level service_log_name
  w ← set_log_level level_error flags.watcher_log_level flags.log_level watcher_log_name
  ok (b ∷ s ∷ w ∷ [])

-- the values of the flags that init declares, if none is given; the argument is J2_POD_NAME
unfoldable pub default_options : Text → GlobalOptions
default_options default_pod_name = record {
  log_level = codes "debug";
  backend_log_level = [];
  service_log_level = [];
  watcher_log_level = codes "info";
  etcd_addr = [];
  etcd_endpoints = [];
  etcd_path = [];
  kubernetes_pod_name = default_pod_name;
  service_config = record {
    sync_port = pos 5808;
    http_port = pos 5812;
    docker_endpoint = codes "unix:///var/run/docker.sock";
    container_id = [];
    announce_ip = [];
    announce_port = pos 0;
    syncthing_path = [];
    sync_dir = [];
    config_dir = [];
    master = false;
    rescan_interval = 30;
    no_watcher = false;
    user = [];
    password = [];
  };
}
