-- ===== src/Main/Prepare.antt =====
-- main.go, cmdMainRun: from the flags to a backend and a service.
use correlation.Base.{Text, codes, List, if◌then◌else◌, Option, Result, ok, ◌>>=◌, Map}
use correlation.Service.{ServiceConfig, Service, new_service}
use correlation.Announced.{Network, update_config_from_docker, update_config_from_kubernetes}
use correlation.Etcd.{KeysApi, EtcdBackend, new_etcd_backend}
use correlation.K8s.{Cluster, K8sBackend, new_kubernetes_backend}
use correlation.Main.Exit.{or_exit}
use correlation.Main.{
  GlobalOptions, Environment, Url, parse_arguments, set_log_levels, get_kubernetes_namespace,
  use_kubernetes, label_selection_value,
}

-- What lies outside of an instance: its cluster as NewInCluster finds it or its error, GetPod down to the
-- pod's address, docker, the error of a log level, the error of etcd's client.New, the run of syncthing and
-- the API key that uniuri makes up.
pub record Outside (k : Cluster) : Type 0 where
  pub cluster_state : k.State
  pub in_cluster : Option Text
  pub pod_ip : Text → Text → Result Text
  pub inspect : Text → Text → Result Network
  pub level_error : Text → Option Text
  pub new_client : List Text → Option Text
  pub run_command : Text → List Text → Option Text
  pub api_key : Text

module _ (api : KeysApi) (k : Cluster) where
  pub data Backend : Type 0 where
    kubernetes : K8sBackend → Backend
    etcd : EtcdBackend api → Backend

  -- what main has when it calls Run
  pub record Prepared : Type 0 where
    pub backend : Backend
    pub service : Service

  module _ (o : Outside k) where
    open o use {
      cluster_state, in_cluster, pod_ip, inspect, level_error, new_client, run_command, api_key,
    }

    -- NewService, with the backend among its dependencies
    abbrev pub with_service : Backend → ServiceConfig → Result Prepared
    with_service b cfg = do
      s ← or_exit (codes "Failed to create service: %#v") (new_service run_command api_key cfg)
      ok (record { backend = b; service = s })

    abbrev pub prepare_kubernetes : GlobalOptions → Text → Result Prepared
    prepare_kubernetes flags namespace = do
      b ← or_exit (codes "Failed to create Kubernetes backend: %#v") (
          new_kubernetes_backend k in_cluster cluster_state namespace flags.kubernetes_pod_name
            (label_selection_value flags.etcd_path))
      cfg ← or_exit (codes "Failed to update configuration from docker: %#v") (
          update_config_from_kubernetes pod_ip flags.service_config namespace
            flags.kubernetes_pod_name)
      with_service (kubernetes b) cfg

    abbrev pub prepare_etcd : GlobalOptions → Result Prepared
    prepare_etcd flags = do
      b ←
          or_exit (codes "Failed to create ETCD backend: %#v")
            (new_etcd_backend api (new_client flags.etcd_endpoints) flags.etcd_path)
      cfg ←
          or_exit (codes "Failed to update configuration from docker: %#v")
            (update_config_from_docker inspect flags.service_config)
      with_service (etcd b) cfg

    abbrev pub prepare : Environment → Text → GlobalOptions → Result Prepared
    prepare env namespace flags =
        if use_kubernetes env namespace flags.kubernetes_pod_name
        then prepare_kubernetes flags namespace
        else prepare_etcd flags

    -- cmdMainRun, up to the call of Run, with the levels of the loggers
    unfoldable pub cmd_main_run :
        Environment
        → Result Text
        → (Text → Result Url)
        → GlobalOptions
        → Result (Map Text × Prepared)
    unfolding parse_arguments set_log_levels get_kubernetes_namespace use_kubernetes
        label_selection_value or_exit
    cmd_main_run env namespace_file parse_url flags = do
      parsed ← parse_arguments parse_url flags
      levels ← set_log_levels level_error parsed
      prepared ← prepare env (get_kubernetes_namespace namespace_file) parsed
      ok (levels, prepared)
