-- ===== src/K8s/Registry.antt =====
-- What an announcement writes to a pod, and what get reads from it.
use correlation.Base.{
  Text, List, [], ◌∷◌, ◌≡◌, ◌≢◌, refl, ap, ◌∙◌, Any, Option, none, some, Map, lookup, lookup-insert,
  text_eq, text_eq_refl, inl, inr, if◌then◌else◌, Option-cases,
}
use correlation.Devices.{DeviceRegistration, DeviceRegistrations}
use correlation.K8s.{
  Cluster, Pod, K8sBackend, annotate, collect, registered, decoded, annotation_of, or_make,
  announce_label, announce_registration_annotation,
}

module _ (k : Cluster) (b : K8sBackend) (value : Text) (pod : Pod) where
  -- the label or annotation of a pod under a key
  abbrev pub entry : Option (Map Text) → Text → Option Text
  entry none key = none
  entry (some m) key = lookup key m

  entry-or_make : (m : Option (Map Text)) (key : Text) → lookup key (or_make m) ≡ entry m key
  entry-or_make none key = unfold lookup in refl
  entry-or_make (some m) key = refl

  -- updateAnnounceOnce sets the annotation and the label, also where the maps are nil, leaves every other
  -- annotation and label of the pod as it was, and keeps its name.
  pub annotate_lem :
      (key : Text)
      → (entry (annotate k b value pod).annotations key ≡ (
          if text_eq announce_registration_annotation key
          then some value
          else entry pod.annotations key))
        × (entry (annotate k b value pod).labels key ≡ (
            if text_eq announce_label key
            then some b.label_selection_value
            else entry pod.labels key))
        × ((annotate k b value pod).name ≡ pod.name)
  unfolding annotate
  annotate_lem key = (
    lookup-insert _ key value (or_make pod.annotations)
        ∙ ap (λ o. if text_eq announce_registration_annotation key then some value else o)
            (entry-or_make pod.annotations key),
    lookup-insert _ key b.label_selection_value (or_make pod.labels)
        ∙ ap (λ o. if text_eq announce_label key then some b.label_selection_value else o)
            (entry-or_make pod.labels key),
    refl,
  )

  pub annotation-annotate : annotation_of (annotate k b value pod) ≡ some value
  unfolding annotate
  annotation-annotate =
      lookup-insert announce_registration_annotation announce_registration_annotation value
        (or_make pod.annotations)
      ∙ rw (text_eq_refl announce_registration_annotation)

  pub collect-annotate :
      (pods : List Pod)
      → collect k (annotate k b value pod ∷ pods) ≡ registered k (some value) (collect k pods)
  unfolding collect
  collect-annotate pods = rw (annotation-annotate, registered)

module _ (k : Cluster) where
  registered_keeps :
      (o : Option Text) (regs : DeviceRegistrations) (d : DeviceRegistration)
      → Any (λ e. e ≡ d) regs
      → Any (λ e. e ≡ d) (registered k o regs)
  registered_keeps none regs d h = h
  registered_keeps (some []) regs d h = h
  registered_keeps (some (c ∷ s)) regs d h = elim (Option-cases (k.unmarshal (c ∷ s))) [
    | inl e ↦ rw (e, decoded) h
    | inr (reg, e) ↦ rw (e, decoded) (inr h)
  ]

  registered_here :
      (raw : Text) (reg : DeviceRegistration) (regs : DeviceRegistrations)
      → raw ≢ []
      → k.unmarshal raw ≡ some reg
      → registered k (some raw) regs ≡ reg ∷ regs
  registered_here [] reg regs h e = absurd (h refl)
  registered_here (c ∷ s) reg regs h e = rw (e, decoded)

  -- If one of the pods carries a registration that json.Unmarshal reads from a text that is not empty, the
  -- registration is among those that get returns.
  pub collect_finds :
      (b : K8sBackend) (pod : Pod) (raw : Text) (reg : DeviceRegistration) (pods : List Pod)
      → raw ≢ []
      → k.unmarshal raw ≡ some reg
      → Any (λ p. p ≡ annotate k b raw pod) pods
      → Any (λ d. d ≡ reg) (collect k pods)
  unfolding collect
  collect_finds b pod raw reg [] full json h = absurd h
  collect_finds b pod raw reg (p ∷ pods) full json (inl e) =
      rw (e, annotation-annotate k b raw pod, registered_here raw reg (collect k pods) full json)
        (inl refl)
  collect_finds b pod raw reg (p ∷ pods) full json (inr h) =
      registered_keeps (annotation_of p) (collect k pods) reg
        (collect_finds b pod raw reg pods full json h)
