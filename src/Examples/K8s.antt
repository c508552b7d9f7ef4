-- ===== src/Examples/K8s.antt =====
-- A cluster whose state is the list of its pods, with a client that fails while a counter runs.
use correlation.Base.{
  ℕ, zero, suc, Text, codes, List, [], ◌∷◌, ◌≡◌, ◌≢◌, refl, arith, Any, inl, inr, Option, none,
  some, ok, lookup, text_eq, if◌then◌else◌,
}
use correlation.Devices.{DeviceRegistrations, DeviceRegistration, list_full_string}
use correlation.K8s.{
  poll, fetch, Cluster, Pod, K8sBackend, watch, update_announce_once, collect,
  announce_registration_annotation,
}
use correlation.K8s.Watching.{watch_returns, watch_notices, IsNews}
use mathlib.Core.Path.{subst, ap}
use correlation.Address.{announce_address}
use correlation.K8s.{announce}
use correlation.K8s.Announcing.{KeepsPods, fetch-announce}
use correlation.K8s.Retries.{EndsBy, found, retry-EndsBy}
use correlation.Examples.Values.{first, second, differs}

abbrev pub pod : Pod
pod = record { name = codes "p"; labels = none; annotations = none }

-- the JSON of a device is "1" or "2"
abbrev read_json : Text → Option DeviceRegistration
read_json s =
    if text_eq s (codes "1")
    then some first
    else if text_eq s (codes "2")
    then some second
    else none

-- An update of the pod fails as often as the counter of the state says.
abbrev pub pods : Cluster
pods = record {
  State = ℕ × List Pod;
  get_pod = λ st namespace name. ok pod;
  update_pod = λ st namespace p. elim st.0 [
    | zero ↦ ((0, p ∷ []), none)
    | suc n ↦ ((n, st.1), some (codes "conflict"))
  ];
  list_pods = λ st namespace labels. ok st.1;
  marshal = λ d. ok (codes "1");
  unmarshal = read_json;
}

annotated : Text → Pod
annotated s = record pod { annotations = some ((announce_registration_annotation, s) ∷ []) }

abbrev pub backend : K8sBackend
backend = record {
  namespace = codes "n";
  pod_name = codes "p";
  label_selection_value = codes "l";
  last_state = [];
  last = [];
}

abbrev none_yet : ℕ × List Pod
none_yet = (0, [])

abbrev one : ℕ × List Pod
one = (0, annotated (codes "1") ∷ [])

abbrev behind : K8sBackend
behind = record backend { last = first ∷ []; last_state = list_full_string (first ∷ []) }

not_empty : list_full_string (first ∷ []) ≢ []
unfolding list_full_string text_eq
not_empty = differs (list_full_string (first ∷ [])) [] refl

one-IsNews : Any (IsNews pods backend) (none_yet ∷ one ∷ [])
unfolding fetch collect annotated text_eq lookup
one-IsNews = inr (inl (first ∷ [], refl, not_empty))

returned : watch pods backend (none_yet ∷ one ∷ []) ≡ some behind
unfolding watch poll fetch collect annotated text_eq lookup list_full_string
returned = refl

watch_returns_example :
    Any (IsNews pods backend) (none_yet ∷ one ∷ [])
    × (behind.last_state ≡ list_full_string behind.last)
    × (behind.last_state ≢ backend.last_state)
watch_returns_example = watch_returns pods backend behind (none_yet ∷ one ∷ []) returned

watch_notices_example : (c : K8sBackend) × (watch pods backend (none_yet ∷ one ∷ []) ≡ some c)
watch_notices_example = watch_notices pods backend (none_yet ∷ one ∷ []) one-IsNews

retry-EndsBy_example : EndsBy pods (λ st. st) backend (codes "1") 2 25 (2, [])
unfolding update_announce_once found
retry-EndsBy_example =
    retry-EndsBy pods (λ st. st) backend (codes "1") 2 25 (2, []) (omega arith) refl

pub pods-KeepsPods : KeepsPods pods
pods-KeepsPods = record {
  listed = λ st namespace value p labels {st'} stored l e. of_counter st namespace p st' stored;
}
  where
    of_counter :
        (st : ℕ × List Pod) (namespace : Text) (p : Pod) (st' : ℕ × List Pod)
        → pods.update_pod st namespace p ≡ (st', none)
        → (l : List Pod) × (ok st'.1 ≡ ok l) × Any (λ q. q ≡ p) l
    of_counter (zero, l) namespace p st' e = (
      st'.1,
      refl,
      subst (λ (m : List Pod). Any (λ q. q ≡ p) m)
          (ap (λ (x : (ℕ × List Pod) × Option Text). x.0.1) e) (inl refl),
    )
    of_counter (suc n, l) namespace p st' e =
        absurd (impossible (ap (λ (x : (ℕ × List Pod) × Option Text). x.1) e))
      where
        impossible : some (codes "conflict") ≡ none → ⊥
        impossible q = cc

fetch-announce_example :
    (ds : DeviceRegistrations) × (fetch pods backend
        (announce pods (λ st. st) backend first.id (announce_address first.ip first.port) (2, []))
      ≡ ok ds)
    × Any (λ d. d ≡ first) ds
unfolding update_announce_once found text_eq
fetch-announce_example =
    fetch-announce pods pods-KeepsPods backend (λ st. st) first.id first.ip (codes "1") first.port
      (2, []) 2 (differs first.id [] refl) (ground arith) (omega arith) refl
      (differs (codes "1") [] refl) refl (omega arith) refl
