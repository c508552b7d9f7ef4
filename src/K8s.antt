-- ===== src/K8s.antt =====
-- service/backend/k8s_backend.go: the backend that keeps each device in an annotation of its pod. The
-- client of Kubernetes and encoding/json are parameters. A nil slice of registrations is the empty
-- list: get never returns an empty slice that is not nil.
pub mod Watching
pub mod Retries
pub mod Creation
pub mod Registry
pub mod Announcing
pub mod Registered
pub mod Withdrawn
use correlation.Base.{
  is_empty, ℕ, zero, suc, Text, codes, List, [], ◌∷◌, ◌++◌, Bool, true, false, not, ◌||◌,
  if◌then◌else◌, Option, none, some, Result, ok, err, text_eq, Map, lookup, insert,
}
use correlation.Devices.{DeviceRegistration, DeviceRegistrations, list_full_string}
use correlation.Address.{parse_address}

abbrev pub announce_label : Text
announce_label = codes "pulcy.com/correlation"

abbrev pub announce_registration_annotation : Text
announce_registration_annotation = codes "pulcy_com_correlation_registration"

-- the fields of a pod that the code reads or writes; `none` is a nil map
pub record Pod : Type 0 where
  pub name : Text
  pub labels : Option (Map Text)
  pub annotations : Option (Map Text)

-- The client of Kubernetes on a state of its own, and the JSON of a registration.
pub record Cluster : Type 1 where
  pub State : Type 0
  pub get_pod : State → Text → Text → Result Pod
  pub update_pod : State → Text → Pod → State × Option Text
  pub list_pods : State → Text → Map Text → Result (List Pod)
  pub marshal : DeviceRegistration → Result Text
  pub unmarshal : Text → Option DeviceRegistration

pub record K8sBackend : Type 0 where
  pub namespace : Text
  pub pod_name : Text
  pub label_selection_value : Text
  pub last_state : Text
  pub last : DeviceRegistrations

-- a map that can be written to
abbrev or_make : Option (Map Text) → Map Text
or_make none = []
or_make (some m) = m

-- the registration that a pod is annotated with
abbrev annotation_of : Pod → Option Text
annotation_of pod = elim pod.annotations [
  | none ↦ none
  | some m ↦ lookup announce_registration_annotation m
]

module _ (k : Cluster) where
  open k use {State, get_pod, update_pod, list_pods, marshal, unmarshal}

  abbrev need : Bool → Text → Result (Unit {0})
  need true message = err message
  need false message = ok tt

  abbrev with_pod : Result Pod → K8sBackend → Result K8sBackend
  with_pod (err e) b = err e
  with_pod (ok pod) b = ok b

  -- NewKubernetesBackend; the first argument is the error of NewInCluster
  unfoldable pub new_kubernetes_backend :
      Option Text → State → Text → Text → Text → Result K8sBackend
  new_kubernetes_backend (some e) st namespace pod_name label = err e
  new_kubernetes_backend none st namespace pod_name label =
      if is_empty namespace
      then err (codes "namespace not set")
      else if is_empty pod_name
      then err (codes "podName not set")
      else if is_empty label
      then err (codes "labelSelectionValue not set")
      else with_pod (get_pod st namespace pod_name) (record {
        namespace = namespace;
        pod_name = pod_name;
        label_selection_value = label;
        last_state = [];
        last = [];
      })

  abbrev decoded : Option DeviceRegistration → DeviceRegistrations → DeviceRegistrations
  decoded none regs = regs
  decoded (some reg) regs = reg ∷ regs

  -- a pod's part of the registrations: nothing if it has no annotation, an empty one or one that
  -- does not parse
  abbrev registered : Option Text → DeviceRegistrations → DeviceRegistrations
  registered none regs = regs
  registered (some ann) regs = if is_empty ann then regs else decoded (unmarshal ann) regs

  -- the loop of get
  unfoldable pub collect : List Pod → DeviceRegistrations
  collect [] = []
  collect (pod ∷ pods) = registered (annotation_of pod) (collect pods)

  -- k8sBackend.get
  unfoldable pub fetch : K8sBackend → State → Result DeviceRegistrations
  unfolding collect
  fetch b st = elim (list_pods st b.namespace ((announce_label, b.label_selection_value) ∷ [])) [
    | err e ↦ err e
    | ok pods ↦ ok (collect pods)
  ]

  -- one round of Watch's loop: `some` returns from it
  unfoldable pub poll : K8sBackend → Result DeviceRegistrations → Option K8sBackend
  poll b (err e) = none
  poll b (ok regs) =
      if text_eq (list_full_string regs) b.last_state
      then none
      else some (record b { last_state = list_full_string regs; last = regs })

  -- k8sBackend.Watch, on the states of the cluster that its rounds meet; `none` while it waits
  unfoldable pub watch : K8sBackend → List State → Option K8sBackend
  unfolding poll
  watch b [] = none
  watch b (st ∷ sts) = elim (poll b (fetch b st)) [ some b' ↦ some b' | none ↦ watch b sts ]

  abbrev store_last :
      K8sBackend → Result DeviceRegistrations → K8sBackend × Result DeviceRegistrations
  store_last b (err e) = (b, err e)
  store_last b (ok regs) = (record b { last = regs }, ok regs)

  abbrev get_or_fetch :
      K8sBackend → State → DeviceRegistrations → K8sBackend × Result DeviceRegistrations
  get_or_fetch b st [] = store_last b (fetch b st)
  get_or_fetch b st (reg ∷ regs) = (b, ok (reg ∷ regs))

  -- k8sBackend.Get
  unfoldable pub get_devices : K8sBackend → State → K8sBackend × Result DeviceRegistrations
  get_devices b st = get_or_fetch b st b.last

  -- the pod with the label and the annotation
  unfoldable pub annotate : K8sBackend → Text → Pod → Pod
  annotate b value pod = record pod {
    labels = some (insert announce_label b.label_selection_value (or_make pod.labels));
    annotations = some (insert announce_registration_annotation value (or_make pod.annotations));
  }

  -- k8sBackend.updateAnnounceOnce
  unfoldable pub update_announce_once : K8sBackend → Text → State → State × Option Text
  unfolding annotate
  update_announce_once b value st = elim (get_pod st b.namespace b.pod_name) [
    | err e ↦ (st, some e)
    | ok pod ↦ update_pod st b.namespace (annotate b value pod)
  ]

  abbrev pub max_attempts : ℕ
  max_attempts = 25

  -- The loop of updateAnnounce, with the rounds that are left. What the rest of the world does while
  -- it sleeps is the second argument. The result says how many rounds were made.
  unfoldable pub retry : ℕ → (State → State) → K8sBackend → Text → State → State × ℕ
  retry zero sleep b value st = (st, 0)
  retry (suc n) sleep b value st =
      let (st', e) = update_announce_once b value st in
      elim e [
        | none ↦ (st', 1)
        | some x ↦ let (last, rounds) = retry n sleep b value (sleep st') in (last, suc rounds)
      ]

  -- k8sBackend.updateAnnounce
  unfoldable pub update_announce : (State → State) → K8sBackend → Text → State → State
  unfolding retry
  update_announce sleep b value st = (retry max_attempts sleep b value st).0

  -- k8sBackend.UnAnnounce
  unfoldable pub un_announce : (State → State) → K8sBackend → State → State
  unfolding update_announce
  un_announce sleep b st = update_announce sleep b [] st

  abbrev send : (State → State) → K8sBackend → Result Text → State → State
  send sleep b (err e) st = st
  send sleep b (ok raw) st = update_announce sleep b raw st

  abbrev register : (State → State) → K8sBackend → Text → Result DeviceRegistration → State → State
  register sleep b id (err e) st = st
  register sleep b id (ok reg) st = send sleep b (marshal (record reg { id = id })) st

  -- k8sBackend.Announce; errors are logged
  unfoldable pub announce : (State → State) → K8sBackend → Text → Text → State → State
  unfolding un_announce
  announce sleep b device_id address st =
      if is_empty device_id || is_empty address
      then un_announce sleep b st
      else register sleep b device_id (parse_address address) st
