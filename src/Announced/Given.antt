-- ===== src/Announced/Given.antt =====
-- What becomes of an address or a port that the user gave.
use correlation.Base.{
  is_empty, Text, codes, ◌≡◌, ◌≢◌, refl, sym, ap, ◌∙◌, Bool, true, false, not, ◌&&◌, ◌||◌,
  if◌then◌else◌, Result, ok, err, ◌>>=◌, Bool-cases, inl, inr, Option-cases, lookup,
}
use mathlib.Core.Path.{subst}
use correlation.Strconv.{atoi}
use correlation.Service.{ServiceConfig, is_zero}
use correlation.Announced.{
  PortBinding, Network, network_of, binding_of, fill, port_of, from_network, from_ports,
  docker_port, first_binding, update_config_from_docker, update_config_from_kubernetes,
}

-- What the user has set is kept, and nothing but the address and the port is changed.
pub record Keeps (cfg c : ServiceConfig) : Type 0 where
  pub ip : is_empty cfg.announce_ip ≡ false → c.announce_ip ≡ cfg.announce_ip
  pub port : is_zero cfg.announce_port ≡ false → c.announce_port ≡ cfg.announce_port
  pub others : c ≡ record cfg { announce_ip = c.announce_ip; announce_port = c.announce_port }

Keeps-refl : (c : ServiceConfig) → Keeps c c
Keeps-refl c = record { ip = λ h. refl; port = λ h. refl; others = refl }

same_config : (c d : ServiceConfig) → ok c ≡ ok d → c ≡ d
same_config c d h = cc

-- inversion of a step that succeeded
bind_ok :
    {A B : Type 0} (m : Result A) (f : A → Result B) (b : B)
    → (m >>= f) ≡ ok b
    → (a : A) × (m ≡ ok a) × (f a ≡ ok b)
bind_ok (ok a) f b h = (a, refl, h)
bind_ok (err e) f b h = absurd (impossible h)
  where
    impossible : err e ≡ ok b → ⊥
    impossible q = cc

-- one of two results, if both keep what they must
if-Keeps :
    (b : Bool) (cfg c : ServiceConfig) (r s : Result ServiceConfig)
    → (if b then r else s) ≡ ok c
    → (r ≡ ok c → Keeps cfg c)
    → (s ≡ ok c → Keeps cfg c)
    → Keeps cfg c
if-Keeps true cfg c r s h kr ks = kr h
if-Keeps false cfg c r s h kr ks = ks h

port_of-Keeps :
    (cfg d c : ServiceConfig) (text : Text)
    → is_zero cfg.announce_port ≡ true
    → Keeps cfg d
    → port_of d text ≡ ok c
    → Keeps cfg c
port_of-Keeps cfg d c text zero_port kept h = elim (Option-cases (atoi text)) [
  | inl e ↦ absurd (impossible (rw (e, port_of) at h))
  | inr (n, e) ↦
      let same : record d { announce_port = n } ≡ c = same_config _ c (rw (e, port_of) at h) in
      subst (Keeps cfg) same (record {
        ip = kept.ip;
        port = λ set. absurd (true-ne-false (sym zero_port ∙ set));
        others = ap (λ (x : ServiceConfig). record x { announce_port = n }) kept.others;
      })
]
  where
    impossible : err (codes "invalid syntax") ≡ ok c → ⊥
    impossible q = cc

    true-ne-false : true ≢ false
    true-ne-false q = cc

with_ip : ServiceConfig → PortBinding → ServiceConfig
with_ip cfg b = record cfg {
  announce_ip = if is_empty cfg.announce_ip then b.host_ip else cfg.announce_ip;
}

with_ip-Keeps : (cfg : ServiceConfig) (b : PortBinding) → Keeps cfg (with_ip cfg b)
unfolding with_ip
with_ip-Keeps cfg b = record { ip = λ set. rw set; port = λ set. refl; others = refl }

fill-Keeps : (cfg c : ServiceConfig) (b : PortBinding) → fill cfg b ≡ ok c → Keeps cfg c
unfolding fill with_ip
fill-Keeps cfg c b h = elim (Bool-cases (is_zero cfg.announce_port)) [
  | inl e ↦ port_of-Keeps cfg (with_ip cfg b) c b.host_port e (with_ip-Keeps cfg b) (rw e at h)
  | inr e ↦ subst (Keeps cfg) (same_config (with_ip cfg b) c (rw e at h)) (with_ip-Keeps cfg b)
]

kept : (cfg c : ServiceConfig) → ok cfg ≡ ok c → Keeps cfg c
kept cfg c h = subst (Keeps cfg) (same_config cfg c h) (Keeps-refl cfg)

-- If UpdateConfigFromDocker returns a configuration, an announce IP or port that the user gave is in it,
-- and nothing but these two fields has changed.
pub docker-Keeps :
    (inspect : Text → Text → Result Network) (cfg c : ServiceConfig)
    → update_config_from_docker inspect cfg ≡ ok c
    → Keeps cfg c
unfolding update_config_from_docker
docker-Keeps inspect cfg c h =
    if-Keeps (not (is_empty cfg.announce_ip) && not (is_zero cfg.announce_port)) cfg c _ _ h
      (kept cfg c)
      λ h1.
        if-Keeps (is_empty cfg.docker_endpoint || is_empty cfg.container_id) cfg c _ _ h1
          (kept cfg c)
          λ h2.
            let (network, e1, h3) =
              bind_ok (inspect cfg.docker_endpoint cfg.container_id) (from_network cfg) c h2 in
            let (ports, e2, h4) =
              bind_ok (network_of cfg.container_id network) (from_ports cfg) c h3 in
            let (b, e3, h5) =
              bind_ok
                (binding_of (docker_port cfg) cfg.container_id
                  (first_binding (lookup (docker_port cfg) ports)))
                (fill cfg) c h4 in
            fill-Keeps cfg c b h5

-- If UpdateConfigFromKubernetes returns a configuration for a pod that is named with its namespace, and
-- the user gave only an announce IP, only a port or neither, then it holds the pod's address and the sync
-- port: what the user gave is overwritten.
pub kubernetes_overwrites :
    (pod_ip : Text → Text → Result Text) (cfg c : ServiceConfig) (namespace pod_name : Text)
    → (not (is_empty cfg.announce_ip) && not (is_zero cfg.announce_port)) ≡ false
    → (is_empty namespace || is_empty pod_name) ≡ false
    → update_config_from_kubernetes pod_ip cfg namespace pod_name ≡ ok c
    → (ip : Text) × (pod_ip namespace pod_name ≡ ok ip)
      × (c.announce_ip ≡ ip)
      × (c.announce_port ≡ cfg.sync_port)
unfolding update_config_from_kubernetes
kubernetes_overwrites pod_ip cfg c namespace pod_name half inside h =
    let (ip, found, rest) = bind_ok (pod_ip namespace pod_name) _ c (rw (half, inside) at h) in
    let same = same_config _ c rest in
    (
      ip,
      found,
      sym (ap (λ (x : ServiceConfig). x.announce_ip) same),
      sym (ap (λ (x : ServiceConfig). x.announce_port) same),
    )
