-- ===== src/Main/Run.antt =====
-- What holds when main calls Run.
use correlation.Base.{
  Text, codes, [], ◌∷◌, ◌≡◌, refl, sym, ap, ◌∙◌, Bool, true, false, Option, none, some, Result, ok,
  err, ◌>>=◌, inl, inr, Bool-cases, Map, ◌≢◌, ◌↔◌, is_empty, not, ◌&&◌,
}
use mathlib.Core.List.{cons-ne-nil}
use mathlib.Core.Path.{subst}
use correlation.Service.{ServiceConfig, new_service}
use correlation.Service.Creation.{IsComplete, new_service-IsComplete, new_service-fresh}
use correlation.Etcd.{KeysApi, EtcdBackend, new_etcd_backend}
use correlation.K8s.{Cluster}
use correlation.K8s.Creation.{IsNew, new_kubernetes_backend-IsNew}
use correlation.Main.Exit.{or_exit, exitf}
use correlation.Main.{
  Environment, Url, GlobalOptions, parse_arguments, get_kubernetes_namespace, use_kubernetes,
  label_selection_value, set_log_levels,
}
use correlation.Main.Prepare.{
  Outside, Backend, kubernetes, etcd, Prepared, with_service, prepare_kubernetes, prepare_etcd,
  prepare, cmd_main_run,
}

ok_ne_err : {A : Type 0} {B : Type 0} (e : Text) (a : A) → err e ≡ ok a → B
ok_ne_err e a h = absurd (impossible h)
  where
    impossible : err e ≡ ok a → ⊥
    impossible q = cc

-- inversion of a step that succeeded
pub bind_ok :
    {A B : Type 0} (m : Result A) (f : A → Result B) (b : B)
    → (m >>= f) ≡ ok b
    → (a : A) × (m ≡ ok a) × (f a ≡ ok b)
bind_ok (ok a) f b h = (a, refl, h)
bind_ok (err e) f b h = ok_ne_err e b h

or_exit_ok :
    {A : Type 0} (format : Text) (r : Result A) (a : A) → or_exit format r ≡ ok a → r ≡ ok a
unfolding or_exit
or_exit_ok format (ok x) a h = h
or_exit_ok format (err e) a h = ok_ne_err (exitf format (e ∷ [])) a h

-- a step that did not end the process
step_ok :
    {A B : Type 0} (format : Text) (r : Result A) (f : A → Result B) (b : B)
    → (or_exit format r >>= f) ≡ ok b
    → (a : A) × (r ≡ ok a) × (f a ≡ ok b)
step_ok format r f b h =
    let (a, made, rest) = bind_ok (or_exit format r) f b h in (a, or_exit_ok format r a made, rest)

pub same_ok : {A : Type 0} (x y : A) → ok x ≡ ok y → x ≡ y
same_ok x y q = cc

new_etcd_backend_key :
    (api : KeysApi) (o : Option Text) (path : Text) (b : EtcdBackend api)
    → new_etcd_backend api o path ≡ ok b
    → b.devices_key ≡ path
unfolding new_etcd_backend
new_etcd_backend_key api (some e) path b h = ok_ne_err e b h
new_etcd_backend_key api none path b h =
    sym (ap (λ (x : EtcdBackend api). x.devices_key) (same_ok _ b h))

module _ (api : KeysApi) (k : Cluster) where
  abbrev pub is_kubernetes : Backend api k → Bool
  is_kubernetes (kubernetes b) = true
  is_kubernetes (etcd b) = false

  -- The backend is on the path in etcd, or on the pods whose label stands for the path.
  abbrev pub IsOn : Text → GlobalOptions → Backend api k → Type 0
  IsOn namespace flags (kubernetes b) =
      IsNew namespace flags.kubernetes_pod_name (label_selection_value flags.etcd_path) b
  IsOn namespace flags (etcd b) = b.devices_key ≡ flags.etcd_path

  -- What main has when it calls Run: a complete configuration, a service that has made no update, and a
  -- backend of the kind that the environment asks for.
  pub record IsPrepared (env : Environment) (namespace : Text) (flags : GlobalOptions)
      (p : Prepared api k) : Type 0 where
    pub complete : IsComplete p.service.config
    pub fresh : p.service.last_devices ≡ []
    pub kind : is_kubernetes p.backend ≡ use_kubernetes env namespace flags.kubernetes_pod_name
    pub on_path : IsOn namespace flags p.backend

  module _ (o : Outside k) (env : Environment) (namespace : Text) (flags : GlobalOptions) where
    with_service_ok :
        (b : Backend api k) (cfg : ServiceConfig) (p : Prepared api k)
        → with_service api k o b cfg ≡ ok p
        → is_kubernetes b ≡ use_kubernetes env namespace flags.kubernetes_pod_name
        → IsOn namespace flags b
        → IsPrepared env namespace flags p
    with_service_ok b cfg p h kind on_path =
        let (s, made, same) =
          step_ok (codes "Failed to create service: %#v") (new_service o.run_command o.api_key cfg)
            _ p h in
        let (complete, rest, run) = new_service-IsComplete o.run_command o.api_key cfg s made in
        subst (IsPrepared env namespace flags) (same_ok _ p same) (record {
          complete = complete;
          fresh = new_service-fresh o.run_command o.api_key cfg s made;
          kind = kind;
          on_path = on_path;
        })

    kubernetes_ok :
        (p : Prepared api k)
        → true ≡ use_kubernetes env namespace flags.kubernetes_pod_name
        → prepare_kubernetes api k o flags namespace ≡ ok p
        → IsPrepared env namespace flags p
    kubernetes_ok p kind h =
        let (b, made, rest) = step_ok (codes "Failed to create Kubernetes backend: %#v") _ _ p h in
        let (cfg, found, last) =
          step_ok (codes "Failed to update configuration from docker: %#v") _ _ p rest in
        with_service_ok (kubernetes b) cfg p last kind (
          new_kubernetes_backend-IsNew k o.in_cluster o.cluster_state namespace
            flags.kubernetes_pod_name (label_selection_value flags.etcd_path) b made)

    etcd_ok :
        (p : Prepared api k)
        → false ≡ use_kubernetes env namespace flags.kubernetes_pod_name
        → prepare_etcd api k o flags ≡ ok p
        → IsPrepared env namespace flags p
    etcd_ok p kind h =
        let (b, made, rest) = step_ok (codes "Failed to create ETCD backend: %#v") _ _ p h in
        let (cfg, found, last) =
          step_ok (codes "Failed to update configuration from docker: %#v") _ _ p rest in
        with_service_ok (etcd b) cfg p last kind
          (new_etcd_backend_key api (o.new_client flags.etcd_endpoints) flags.etcd_path b made)

    prepare_ok :
        (p : Prepared api k)
        → prepare api k o env namespace flags ≡ ok p
        → IsPrepared env namespace flags p
    prepare_ok p h = elim (Bool-cases (use_kubernetes env namespace flags.kubernetes_pod_name)) [
      | inl e ↦ kubernetes_ok p (sym e) (rw e at h)
      | inr e ↦ etcd_ok p (sym e) (rw e at h)
    ]

  same_pair :
      (levels levels' : Map Text) (p q : Prepared api k)
      → ◌≡◌ {A = Result (Map Text × Prepared api k)} (ok (levels, p)) (ok (levels', q))
      → p ≡ q
  same_pair levels levels' p q h = cc

  pub cmd_main_run-IsPrepared :
      (o : Outside k) (env : Environment) (namespace_file : Result Text)
      (parse_url : Text → Result Url) (flags : GlobalOptions) (levels : Map Text)
      (p : Prepared api k)
      → cmd_main_run api k o env namespace_file parse_url flags ≡ ok (levels, p)
      → (parsed : GlobalOptions) × (parse_arguments parse_url flags ≡ ok parsed)
        × IsPrepared env (get_kubernetes_namespace namespace_file) parsed p
  unfolding cmd_main_run
  cmd_main_run-IsPrepared o env namespace_file parse_url flags levels p h =
      let (parsed, read, rest) = bind_ok (parse_arguments parse_url flags) _ (levels, p) h in
      let (levels', set, more) = bind_ok (set_log_levels o.level_error parsed) _ (levels, p) rest in
      let namespace = get_kubernetes_namespace namespace_file in
      let (q, made, same) = bind_ok (prepare api k o env namespace parsed) _ (levels, p) more in
      (
        parsed,
        read,
        prepare_ok o env namespace parsed p (made ∙ ap ok (same_pair levels' levels q p same)),
      )

  false-true : false ≡ true → ⊥
  false-true q = cc

  all_full :
      (a b c d : Text)
      → (not (is_empty a) && not (is_empty b) && not (is_empty c) && not (is_empty d)) ≡ true
        ↔ ((a ≢ []) × (b ≢ []) × (c ≢ []) × (d ≢ []))
  all_full [] b c d = (λ h. absurd (false-true h), λ h. absurd (h.0 refl))
  all_full (x ∷ a) [] c d = (λ h. absurd (false-true h), λ h. absurd (h.1 refl))
  all_full (x ∷ a) (y ∷ b) [] d = (λ h. absurd (false-true h), λ h. absurd (h.2 refl))
  all_full (x ∷ a) (y ∷ b) (z ∷ c) [] = (λ h. absurd (false-true h), λ h. absurd (h.3 refl))
  all_full (x ∷ a) (y ∷ b) (z ∷ c) (u ∷ d) =
      (λ h. (cons-ne-nil _ _, cons-ne-nil _ _, cons-ne-nil _ _, cons-ne-nil _ _), λ h. refl)

  use_kubernetes_iff :
      (env : Environment) (namespace pod_name : Text)
      → use_kubernetes env namespace pod_name ≡ true
        ↔ ((env.service_host ≢ []) × (env.service_port ≢ []) × (namespace ≢ []) × (pod_name ≢ []))
  unfolding use_kubernetes
  use_kubernetes_iff env namespace pod_name =
      all_full env.service_host env.service_port namespace pod_name

  -- When main gets as far as Run, the configuration of the service is complete, and the backend is that
  -- of Kubernetes exactly when the host and the port of the Kubernetes service are set, the namespace is
  -- known and the flag with the name of the pod is set.
  pub cmd_main_run-IsComplete :
      (o : Outside k) (env : Environment) (namespace_file : Result Text)
      (parse_url : Text → Result Url) (flags : GlobalOptions) (levels : Map Text)
      (p : Prepared api k)
      → cmd_main_run api k o env namespace_file parse_url flags ≡ ok (levels, p)
      → (parsed : GlobalOptions) × (parse_arguments parse_url flags ≡ ok parsed)
        × IsComplete p.service.config
        × ((is_kubernetes p.backend ≡ true) ↔ (
            (env.service_host ≢ [])
            × (env.service_port ≢ [])
            × (get_kubernetes_namespace namespace_file ≢ [])
            × (parsed.kubernetes_pod_name ≢ [])))
  cmd_main_run-IsComplete o env namespace_file parse_url flags levels p h =
      let (parsed, read, is) =
        cmd_main_run-IsPrepared o env namespace_file parse_url flags levels p h in
      let asked =
        use_kubernetes_iff env (get_kubernetes_namespace namespace_file)
          parsed.kubernetes_pod_name in
      (
        parsed,
        read,
        is.complete,
        (λ kind. asked.0 (sym is.kind ∙ kind), λ full. is.kind ∙ asked.1 full),
      )
