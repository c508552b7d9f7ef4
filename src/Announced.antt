-- ===== src/Announced.antt =====
-- service/docker.go and service/kubernetes.go: where the address to announce comes from if the user has
-- not given it. The clients of docker and of Kubernetes are arguments. An error drops the
-- configuration, as the only caller does (main.go).
pub mod Given
use correlation.Base.{
  is_empty, ℕ, Text, codes, List, [], ◌∷◌, ◌++◌, Bool, true, false, not, ◌&&◌, ◌||◌, if◌then◌else◌,
  Option, none, some, Result, ok, err, ◌>>=◌, Map, lookup,
}
use correlation.Strconv.{itoa, atoi}
use correlation.Service.{ServiceConfig, is_zero}

-- docker.PortBinding
pub record PortBinding : Type 0 where
  pub host_ip : Text
  pub host_port : Text

-- what InspectContainer says of the network: `none` for no NetworkSettings, and otherwise its ports
abbrev pub Network : Type 0
Network = Option (Map (List PortBinding))

-- the first binding of the port; a missing key reads as no bindings
abbrev first_binding : Option (List PortBinding) → Option PortBinding
first_binding none = none
first_binding (some []) = none
first_binding (some (b ∷ bs)) = some b

abbrev network_of : Text → Network → Result (Map (List PortBinding))
network_of container none =
    err (codes "No NetworkSettings found in container '" ++ container ++ codes "'")
network_of container (some ports) = ok ports

abbrev binding_of : Text → Text → Option PortBinding → Result PortBinding
binding_of port container none = err (
    codes "Port '" ++ port ++ codes "' not found in NetworkSettings of '" ++ container ++ codes "'")
binding_of port container (some b) = ok b

abbrev port_of : ServiceConfig → Text → Result ServiceConfig
port_of c text = elim (atoi text) [
  | none ↦ err (codes "invalid syntax")
  | some n ↦ ok (record c { announce_port = n })
]

-- the address is taken from the binding where the user gave none
unfoldable pub fill : ServiceConfig → PortBinding → Result ServiceConfig
fill cfg b =
    let c = record cfg {
      announce_ip = if is_empty cfg.announce_ip then b.host_ip else cfg.announce_ip;
    } in
    if is_zero c.announce_port then port_of c b.host_port else ok c

-- the port of the container that the user's devices connect to
abbrev pub docker_port : ServiceConfig → Text
docker_port cfg = itoa cfg.sync_port ++ codes "/tcp"

abbrev pub from_ports : ServiceConfig → Map (List PortBinding) → Result ServiceConfig
from_ports cfg ports = do
  b ← binding_of (docker_port cfg) cfg.container_id (first_binding (lookup (docker_port cfg) ports))
  fill cfg b

abbrev pub from_network : ServiceConfig → Network → Result ServiceConfig
from_network cfg network = do ports ← network_of cfg.container_id network; from_ports cfg ports

-- UpdateConfigFromDocker; the first argument is NewClient and InspectContainer
unfoldable pub update_config_from_docker :
    (Text → Text → Result Network) → ServiceConfig → Result ServiceConfig
unfolding fill
update_config_from_docker inspect cfg =
    if not (is_empty cfg.announce_ip) && not (is_zero cfg.announce_port)
    then ok cfg
    else if is_empty cfg.docker_endpoint || is_empty cfg.container_id
    then ok cfg
    else (do network ← inspect cfg.docker_endpoint cfg.container_id; from_network cfg network)

-- UpdateConfigFromKubernetes; the first argument is NewInCluster and GetPod, down to the pod's address
unfoldable pub update_config_from_kubernetes :
    (Text → Text → Result Text) → ServiceConfig → Text → Text → Result ServiceConfig
update_config_from_kubernetes pod_ip cfg namespace pod_name =
    if not (is_empty cfg.announce_ip) && not (is_zero cfg.announce_port)
    then ok cfg
    else if is_empty namespace || is_empty pod_name
    then ok cfg
    else (do
      ip ← pod_ip namespace pod_name
      ok (record cfg { announce_ip = ip; announce_port = cfg.sync_port }))
