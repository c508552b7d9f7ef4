-- ===== src/K8s/Withdrawn.antt =====
-- A device that was withdrawn in Kubernetes is not found any more.
use correlation.Base.{
  All-each, ℕ, ◌<◌, Text, List, [], ◌∷◌, ◌≡◌, ◌≢◌, ◌⊎◌, inl, inr, refl, sym, ap, ◌∙◌, arith, All,
  Any, Option, none, some, Option-cases, Result, ok, err, Map,
}
use mathlib.Core.Path.{subst}
use correlation.Devices.{DeviceRegistration, DeviceRegistrations}
use correlation.K8s.{
  Cluster, Pod, K8sBackend, annotate, annotation_of, registered, decoded, collect, fetch,
  update_announce_once, update_announce, max_attempts, un_announce, announce_label,
}
use correlation.K8s.Retries.{found, retry-EndsBy}
use correlation.K8s.Registry.{annotation-annotate, annotate_lem}

-- What the documentation of the client says: GetPod returns the pod of that name, and a pod that was
-- updated is the only one that is listed under its name.
pub record IsByName (k : Cluster) : Type 0 where
  pub named :
      (st : k.State) (namespace name : Text) (pod : Pod)
      → k.get_pod st namespace name ≡ ok pod
      → pod.name ≡ name
  pub replaced :
      (st st' : k.State) (namespace : Text) (pod : Pod) (labels : Map Text) (pods : List Pod)
      → k.update_pod st namespace pod ≡ (st', none)
      → k.list_pods st' namespace labels ≡ ok pods
      → All (λ p. p.name ≡ pod.name → p ≡ pod) pods

module _ (k : Cluster) where
  -- The pod has an annotation from which the device is read.
  pub record Registers (d : DeviceRegistration) (p : Pod) : Type 0 where
    pub raw : Text
    pub annotated : annotation_of p ≡ some raw
    pub full : raw ≢ []
    pub read : k.unmarshal raw ≡ some d

  abbrev Read : Option Text → DeviceRegistration → Type 0
  Read o d = (raw : Text) × (o ≡ some raw) × (raw ≢ []) × (k.unmarshal raw ≡ some d)

  registered_cases :
      (o : Option Text) (regs : DeviceRegistrations) (d : DeviceRegistration)
      → Any (λ e. e ≡ d) (registered k o regs)
      → Read o d ⊎ Any (λ e. e ≡ d) regs
  registered_cases none regs d h = inr h
  registered_cases (some []) regs d h = inr h
  registered_cases (some (c ∷ s)) regs d h = elim (Option-cases (k.unmarshal (c ∷ s))) [
    | inl e ↦ inr (rw (e, decoded) at h)
    | inr (reg, q) ↦ elim (rw (q, decoded) at h) [
      | inl e ↦ inl (c ∷ s, refl, (λ x. cc), q ∙ ap some e)
      | inr rest ↦ inr rest
    ]
  ]

  -- each device that get returns is read from a pod
  collect-Registers :
      (pods : List Pod) (d : DeviceRegistration)
      → Any (λ e. e ≡ d) (collect k pods)
      → Any (Registers d) pods
  unfolding collect
  collect-Registers [] d h = absurd h
  collect-Registers (p ∷ pods) d h =
      elim (registered_cases (annotation_of p) (collect k pods) d h) [
        | inl (raw, annotated, full, read) ↦
            inl (record { raw = raw; annotated = annotated; full = full; read = read })
        | inr rest ↦ inr (collect-Registers pods d rest)
      ]

  -- a pod whose annotation was emptied registers nothing
  emptied :
      (b : K8sBackend) (pod p : Pod) (d : DeviceRegistration)
      → p ≡ annotate k b [] pod
      → Registers d p
      → ⊥
  emptied b pod p d e r =
      r.full (same (sym r.annotated ∙ ap annotation_of e ∙ annotation-annotate k b [] pod))
    where
      same : some r.raw ≡ some [] → r.raw ≡ []
      same q = cc

  -- Another pod than that of this name registers the device.
  abbrev pub FromOther : Text → DeviceRegistration → Pod → Type 0
  FromOther name d p = (p.name ≢ name) × Registers d p

  from_others :
      (b : K8sBackend) (pod : Pod) (pods : List Pod) (d : DeviceRegistration)
      → All (λ p. p.name ≡ b.pod_name → p ≡ annotate k b [] pod) pods
      → Any (Registers d) pods
      → Any (FromOther b.pod_name d) pods
  from_others b pod [] d only h = absurd h
  from_others b pod (p ∷ pods) d (first, only) (inr h) = inr (from_others b pod pods d only h)
  from_others b pod (p ∷ pods) d (first, only) (inl r) = inl (λ e. emptied b pod p d (first e) r, r)

  withdrawn_pod :
      (laws : IsByName k) (b : K8sBackend) (st : k.State) (r : Result Pod)
      → k.get_pod st b.namespace b.pod_name ≡ r
      → (update_announce_once k b [] st).1 ≡ none
      → (pod : Pod) × (pod.name ≡ b.pod_name)
        × (k.update_pod st b.namespace (annotate k b [] pod)
            ≡ ((update_announce_once k b [] st).0, none))
  unfolding update_announce_once
  withdrawn_pod laws b st (ok pod) got done =
      (pod, laws.named st b.namespace b.pod_name pod got, ground arith)
  withdrawn_pod laws b st (err e) got done = absurd (ground arith)

  fetched_pods :
      (c : K8sBackend) (st : k.State) (pods : List Pod) (ds : DeviceRegistrations)
      → k.list_pods st c.namespace ((announce_label, c.label_selection_value) ∷ []) ≡ ok pods
      → fetch k c st ≡ ok ds
      → collect k pods ≡ ds
  unfolding fetch
  fetched_pods c st pods ds h e = same (collect k pods) ds (rw (h, fetch) at e)
    where
      same : (x y : DeviceRegistrations) → ok x ≡ ok y → x ≡ y
      same x y q = cc

  once_withdraws :
      (laws : IsByName k) (b c : K8sBackend) (st : k.State) (pods : List Pod)
      (ds : DeviceRegistrations)
      → c.namespace ≡ b.namespace
      → (update_announce_once k b [] st).1 ≡ none
      → k.list_pods
          (update_announce_once k b [] st).0
          c.namespace
          ((announce_label, c.label_selection_value) ∷ [])
        ≡ ok pods
      → fetch k c (update_announce_once k b [] st).0 ≡ ok ds
      → All (λ d. Any (FromOther b.pod_name d) pods) ds
  once_withdraws laws b c st pods ds peer done listed got =
      let (pod, named, stored) = withdrawn_pod laws b st _ refl done in
      let kept : (annotate k b [] pod).name ≡ b.pod_name = (annotate_lem k b [] pod []).2 ∙ named in
      let only = laws.replaced st _ b.namespace (annotate k b [] pod) _ pods stored (
        subst
          (λ n.
            k.list_pods (update_announce_once k b [] st).0 n
              ((announce_label, c.label_selection_value) ∷ [])
            ≡ ok pods)
          peer listed) in
      All-each (λ (d : DeviceRegistration). Any (FromOther b.pod_name d) pods) ds
        (λ d at.
          from_others b pod pods d
            (subst (λ n. All (λ (p : Pod). p.name ≡ n → p ≡ annotate k b [] pod) pods) kept only)
            (collect-Registers pods d
              (subst (Any (λ e. e ≡ d)) (sym (fetched_pods c _ pods ds listed got)) at)))

  -- When attempt i of UnAnnounce, below 25, succeeds whenever all attempts before it have failed, a peer in
  -- the same namespace that then lists the pods finds only devices that other pods register.
  pub un_announce_withdraws :
      (laws : IsByName k) (sleep : k.State → k.State) (b c : K8sBackend) (st : k.State) (i : ℕ)
      (pods : List Pod) (ds : DeviceRegistrations)
      → c.namespace ≡ b.namespace
      → i < max_attempts k
      → (update_announce_once k b [] (found k sleep b [] i st)).1 ≡ none
      → k.list_pods
          (un_announce k sleep b st)
          c.namespace
          ((announce_label, c.label_selection_value) ∷ [])
        ≡ ok pods
      → fetch k c (un_announce k sleep b st) ≡ ok ds
      → All (λ d. Any (FromOther b.pod_name d) pods) ds
  unfolding un_announce update_announce
  un_announce_withdraws laws sleep b c st i pods ds peer lt done listed got =
      let ends = retry-EndsBy k sleep b [] i (max_attempts k) st lt done in
      once_withdraws laws b c (found k sleep b [] ends.at st) pods ds peer ends.succeeded
        (rw ends.result at listed) (rw ends.result at got)
