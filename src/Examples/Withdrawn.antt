-- ===== src/Examples/Withdrawn.antt =====
-- A cluster that has a pod of every name, with a client that fails while a counter runs.
use correlation.Base.{
  ℕ, zero, suc, Text, codes, List, [], ◌∷◌, ◌≡◌, refl, sym, ap, ◌∙◌, arith, All, Any, Option, none,
  some, ok, lookup, text_eq, insert,
}
use mathlib.Core.Path.{subst}
use correlation.Devices.{DeviceRegistration}
use correlation.K8s.{Cluster, Pod, un_announce, update_announce_once, annotate, fetch, collect}
use correlation.K8s.Retries.{found}
use correlation.K8s.Withdrawn.{IsByName, FromOther, un_announce_withdraws}
use correlation.Examples.K8s.{pods, pod, backend}

abbrev named_pod : Text → Pod
named_pod name = record pod { name = name }

abbrev named_pods : Cluster
named_pods = record pods { get_pod = λ st namespace name. ok (named_pod name) }

named_pods-IsByName : IsByName named_pods
named_pods-IsByName = record {
  named = λ st namespace name p e. ap (λ (q : Pod). q.name) (sym (same (named_pod name) p e));
  replaced = λ st st' namespace p labels ps stored listed.
      subst (λ (l : List Pod). All (λ (q : Pod). q.name ≡ p.name → q ≡ p) l)
        (stays st st' namespace p stored ∙ same_list st'.1 ps listed) ((λ q. refl), tt);
}
  where
    same : (p q : Pod) → ok p ≡ ok q → p ≡ q
    same p q e = cc

    same_list : (l m : List Pod) → ok l ≡ ok m → l ≡ m
    same_list l m e = cc

    stays :
        (st st' : ℕ × List Pod) (namespace : Text) (p : Pod)
        → named_pods.update_pod st namespace p ≡ (st', none)
        → p ∷ [] ≡ st'.1
    stays (zero, l) st' namespace p e = ap (λ (x : (ℕ × List Pod) × Option Text). x.0.1) e
    stays (suc n, l) st' namespace p e =
        absurd (impossible (ap (λ (x : (ℕ × List Pod) × Option Text). x.1) e))
      where
        impossible : some (codes "conflict") ≡ none → ⊥
        impossible q = cc

abbrev left : List Pod
left = annotate named_pods backend [] (named_pod (codes "p")) ∷ []

un_announce_withdraws_example :
    All (λ (d : DeviceRegistration). Any (FromOther named_pods backend.pod_name d) left) []
unfolding un_announce update_announce_once found fetch collect annotate lookup insert text_eq
un_announce_withdraws_example =
    un_announce_withdraws named_pods named_pods-IsByName (λ st. st) backend backend (2, []) 2 left
      [] refl (omega arith) refl refl refl
