-- ===== src/K8s/Announcing.antt =====
-- A device that is announced in Kubernetes is found there.
use correlation.Base.{
  is_empty, is_empty_ne, ℕ, ◌<◌, Text, List, [], ◌∷◌, ◌≡◌, ◌≢◌, refl, ap, ◌∙◌, arith, Any, none,
  some, Result, ok, err, ℤ, Map, lookup, text_eq_refl, false,
}
use correlation.Devices.{DeviceRegistration, DeviceRegistrations}
use correlation.Address.{
  IsPlainHost, announce_address, parse_device_info, parse_address, join_host_port,
}
use correlation.Address.RoundTrip.{parse-announce}
use correlation.Strconv.RoundTrip.{FitsInt}
use correlation.K8s.{
  Cluster, Pod, K8sBackend, annotate, update_announce_once, update_announce, retry, max_attempts,
  announce, fetch, collect, announce_label,
}
use correlation.K8s.Retries.{found, retry-EndsBy}
use correlation.K8s.Registry.{annotate_lem, collect_finds}

-- What the documentation of the client says of UpdatePod and ListPods: a pod that was updated is listed
-- under its labels.
pub record KeepsPods (k : Cluster) : Type 0 where
  pub listed :
      (st : k.State) (namespace value : Text) (pod : Pod) (labels : Map Text) {st' : k.State}
      → k.update_pod st namespace pod ≡ (st', none)
      → pod.labels ≡ some labels
      → lookup announce_label labels ≡ some value
      → (pods : List Pod) × (k.list_pods st' namespace ((announce_label, value) ∷ []) ≡ ok pods)
        × Any (λ p. p ≡ pod) pods

module _ (k : Cluster) (laws : KeepsPods k) (b : K8sBackend) where
  labelled :
      (raw : Text) (pod : Pod)
      → (labels : Map Text) × ((annotate k b raw pod).labels ≡ some labels)
        × (lookup announce_label labels ≡ some b.label_selection_value)
  unfolding annotate
  labelled raw pod =
      (_, refl, (annotate_lem k b raw pod announce_label).1 ∙ rw (text_eq_refl announce_label))

  updated :
      (raw : Text) (st : k.State) (r : Result Pod)
      → k.get_pod st b.namespace b.pod_name ≡ r
      → (update_announce_once k b raw st).1 ≡ none
      → (pod : Pod) × (k.update_pod st b.namespace (annotate k b raw pod)
          ≡ ((update_announce_once k b raw st).0, none))
  unfolding update_announce_once
  updated raw st (ok pod) got done = (pod, ground arith)
  updated raw st (err e) got done = absurd (ground arith)

  fetched :
      (st : k.State) (pods : List Pod)
      → k.list_pods st b.namespace ((announce_label, b.label_selection_value) ∷ []) ≡ ok pods
      → fetch k b st ≡ ok (collect k pods)
  unfolding fetch
  fetched st pods h = rw (h, fetch)

  -- an update that succeeded has registered the device
  once-fetch :
      (reg : DeviceRegistration) (raw : Text) (st : k.State)
      → raw ≢ []
      → k.unmarshal raw ≡ some reg
      → (update_announce_once k b raw st).1 ≡ none
      → (ds : DeviceRegistrations) × (fetch k b (update_announce_once k b raw st).0 ≡ ok ds)
        × Any (λ d. d ≡ reg) ds
  once-fetch reg raw st some_text json done =
      let (pod, stored) = updated raw st _ refl done in
      let (labels, p, q) = labelled raw pod in
      let (pods, found_pods, at) =
        laws.listed st b.namespace b.label_selection_value _ labels stored p q in
      (
        collect k pods,
        fetched _ pods found_pods,
        collect_finds k b pod raw reg pods some_text json at,
      )

  full_address :
      (ip : Text) (port : ℤ) → IsPlainHost ip → is_empty (announce_address ip port) ≡ false
  unfolding announce_address join_host_port
  full_address [] port h = refl
  full_address (c ∷ ip) port h = ground arith

  -- both backends have the same parser
  same_parser : (s : Text) → parse_address s ≡ parse_device_info s
  unfolding parse_address parse_device_info
  same_parser s = refl

  announce_retries :
      (sleep : k.State → k.State) (id address raw : Text) (reg : DeviceRegistration) (st : k.State)
      → is_empty id ≡ false
      → is_empty address ≡ false
      → parse_address address ≡ ok reg
      → k.marshal (record reg { id = id }) ≡ ok raw
      → announce k sleep b id address st ≡ (retry k (max_attempts k) sleep b raw st).0
  unfolding announce update_announce
  announce_retries sleep id address raw reg st h1 h2 h3 h4 = rw (h1, h2, h3, h4)

  -- When the client does what it documents, an ID that is not empty is announced with an address without
  -- a colon and a port that an int holds, json.Marshal gives a text that is not empty and from which
  -- json.Unmarshal reads the registration, and attempt i, below 25, succeeds whenever all attempts before
  -- it have failed, then get finds the device in the cluster as Announce leaves it.
  pub fetch-announce :
      (sleep : k.State → k.State) (id ip raw : Text) (port : ℤ) (st : k.State) (i : ℕ)
      → id ≢ []
      → IsPlainHost ip
      → FitsInt port
      → k.marshal (record { id = id; ip = ip; port = port }) ≡ ok raw
      → raw ≢ []
      → k.unmarshal raw ≡ some (record { id = id; ip = ip; port = port })
      → i < max_attempts k
      → (update_announce_once k b raw (found k sleep b raw i st)).1 ≡ none
      → (ds : DeviceRegistrations) × (fetch k b
            (announce k sleep b id (announce_address ip port) st)
          ≡ ok ds)
        × Any (λ d. d ≡ record { id = id; ip = ip; port = port }) ds
  fetch-announce sleep id ip raw port st i full plain fits json some_text read lt ok_at =
      let ends = retry-EndsBy k sleep b raw i (max_attempts k) st lt ok_at in
      let parsed = same_parser (announce_address ip port) ∙ parse-announce ip port plain fits in
      let left =
        announce_retries sleep id (announce_address ip port) raw _ st (is_empty_ne id full)
          (full_address ip port plain) parsed json in
      let (ds, got, at) =
        once-fetch _ raw (found k sleep b raw ends.at st) some_text read ends.succeeded in
      (ds, ap (fetch k b) (left ∙ ends.result) ∙ got, at)
