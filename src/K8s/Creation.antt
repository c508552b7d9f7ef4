-- ===== src/K8s/Creation.antt =====
-- service/backend/k8s_backend.go, NewKubernetesBackend: what a new backend is.
use correlation.Base.{
  is_empty, Text, [], ◌≡◌, refl, Option, none, some, Result, ok, err, inl, inr, Bool-cases,
}
use mathlib.Core.Path.{subst}
use correlation.K8s.{Cluster, Pod, K8sBackend, new_kubernetes_backend, with_pod}

ok_ne_err : {B : Type 0} (e : Text) (b : K8sBackend) → err e ≡ ok b → B
ok_ne_err e b h = absurd (impossible h)
  where
    impossible : err e ≡ ok b → ⊥
    impossible q = cc

-- A backend on the pods of a group which has found nothing so far.
pub record IsNew (namespace pod_name label : Text) (b : K8sBackend) : Type 0 where
  pub space : b.namespace ≡ namespace
  pub pod : b.pod_name ≡ pod_name
  pub selection : b.label_selection_value ≡ label
  pub nothing_stored : b.last ≡ []

module _ (k : Cluster) where
  with_pod_ok : (r : Result Pod) (b c : K8sBackend) → with_pod k r b ≡ ok c → b ≡ c
  with_pod_ok (err e) b c h = ok_ne_err e c h
  with_pod_ok (ok pod) b c h = cc

  pub new_kubernetes_backend-IsNew :
      (o : Option Text) (st : k.State) (namespace pod_name label : Text) (b : K8sBackend)
      → new_kubernetes_backend k o st namespace pod_name label ≡ ok b
      → IsNew namespace pod_name label b
  unfolding new_kubernetes_backend
  new_kubernetes_backend-IsNew (some e) st namespace pod_name label b h = ok_ne_err e b h
  new_kubernetes_backend-IsNew none st namespace pod_name label b h =
      elim (Bool-cases (is_empty namespace)) [
        | inl e ↦ ok_ne_err _ b (rw e at h)
        | inr full ↦ elim (Bool-cases (is_empty pod_name)) [
          | inl e ↦ ok_ne_err _ b (rw (full, e) at h)
          | inr named ↦ elim (Bool-cases (is_empty label)) [
            | inl e ↦ ok_ne_err _ b (rw (full, named, e) at h)
            | inr labelled ↦
                subst (IsNew namespace pod_name label)
                  (with_pod_ok (k.get_pod st namespace pod_name) _ b
                    (rw (full, named, labelled) at h))
                  (record { space = refl; pod = refl; selection = refl; nothing_stored = refl })
          ]
        ]
      ]
