-- ===== src/Main/Start.antt =====
-- main.go, the end of cmdMainRun: the call of Run, on the backend that main has chosen. The backend is a
-- value of the interface: its methods are those of etcd or of Kubernetes.
pub mod Found
pub mod Settled
use correlation.Base.{Text, List, map, ◌≡◌, Option, none, some, Result, ok, err, ◌>>=◌, Map, Any}
use correlation.Backend.{Backend, IsRegistry}
use correlation.Devices.{DeviceRegistration, DeviceRegistrations}
use correlation.Address.{announce_address}
use correlation.Etcd
use correlation.Etcd.{KeysApi, EtcdBackend}
use correlation.Etcd.Registry.{KeepsKeys}
use correlation.Etcd.Registered.{Refreshes, etcd_registry, etcd_registry-IsRegistry}
use correlation.K8s
use correlation.K8s.{Cluster, K8sBackend}
use correlation.K8s.Announcing.{KeepsPods}
use correlation.K8s.Registered.{Registers, Reads, k8s_registry, k8s_registry-IsRegistry}
use correlation.Service.Update.{Syncthing, Calls}
use correlation.Service.Discovery.{Running}
use correlation.Service.Discovery
use correlation.Main.{Environment, Url, GlobalOptions}
use correlation.Main.Prepare.{Outside, kubernetes, etcd, Prepared, cmd_main_run}
use correlation.Main.Prepare

-- What an instance is started with, and what syncthing answers when the instance asks for its device ID.
pub record Launch (k : Cluster) : Type 0 where
  pub outside : Outside k
  pub environment : Environment
  pub namespace_file : Result Text
  pub parse_url : Text → Result Url
  pub flags : GlobalOptions
  pub attempts : List (Result Text)

-- `sleep` is what happens to the cluster while an update of a pod is retried.
module _ (api : KeysApi) (k : Cluster) (sleep : k.State → k.State) where
  abbrev pub World : Type 0
  World = api.Store × k.State

  abbrev in_etcd : EtcdBackend api × api.Store → k.State → Prepare.Backend api k × World
  in_etcd (b, st) c = (etcd b, (st, c))

  abbrev in_cluster : K8sBackend × k.State → api.Store → Prepare.Backend api k × World
  in_cluster (b, c) st = (kubernetes b, (st, c))

  abbrev watched_etcd :
      EtcdBackend api × Result (Unit {0}) → Option (Prepare.Backend api k × Result (Unit {0}))
  watched_etcd (b, r) = some (etcd b, r)

  abbrev watched_cluster :
      Option (K8sBackend × Result (Unit {0})) → Option (Prepare.Backend api k × Result (Unit {0}))
  watched_cluster none = none
  watched_cluster (some (b, r)) = some (kubernetes b, r)

  abbrev watch :
      Prepare.Backend api k → List World → Option (Prepare.Backend api k × Result (Unit {0}))
  watch (etcd b) worlds = watched_etcd (Etcd.watch api b)
  watch (kubernetes b) worlds =
      watched_cluster ((k8s_registry k sleep).watch b (map (λ w. w.1) worlds))

  abbrev got_cluster :
      K8sBackend × Result DeviceRegistrations → Prepare.Backend api k × Result DeviceRegistrations
  got_cluster (b, r) = (kubernetes b, r)

  abbrev get : Prepare.Backend api k → World → Prepare.Backend api k × Result DeviceRegistrations
  get (etcd b) (st, c) = (etcd b, Etcd.get_devices api b st)
  get (kubernetes b) (st, c) = got_cluster (K8s.get_devices k b c)

  abbrev announce : Text → Text → Prepare.Backend api k → World → Prepare.Backend api k × World
  announce id address (etcd b) (st, c) = in_etcd (Etcd.announce api id address b, st) c
  announce id address (kubernetes b) (st, c) =
      in_cluster (b, K8s.announce k sleep b id address c) st

  abbrev un_announce : Prepare.Backend api k → World → Prepare.Backend api k × World
  un_announce (etcd b) (st, c) = in_etcd (Etcd.un_announce api (b, st)) c
  un_announce (kubernetes b) (st, c) = in_cluster (b, K8s.un_announce k sleep b c) st

  -- the backend of main, on etcd and the cluster
  abbrev pub chosen : Backend
  chosen = record {
    Receiver = Prepare.Backend api k;
    World = World;
    watch = watch;
    get = get;
    announce = announce;
    un_announce = un_announce;
  }

  -- cmdMainRun with the call of Run. What it has when Run listens for signals: the levels of the loggers,
  -- the service, and what the service runs.
  pub record Started (y : Syncthing) (calls : Calls y) : Type 0 where
    pub levels : Map Text
    pub prepared : Prepared api k
    pub running : Running chosen y calls

  module _ (y : Syncthing) (calls : Calls y) where
    unfoldable pub main_run : Launch k → y.State → World → Result (Started y calls)
    unfolding cmd_main_run Discovery.run
    main_run l st w = do
      p ← cmd_main_run api k l.outside l.environment l.namespace_file l.parse_url l.flags
      let (levels, prepared) = p
      ok (record {
        levels = levels;
        prepared = prepared;
        running = Discovery.run chosen y calls l.attempts prepared.service st prepared.backend w;
      })

  -- What Announce has left comes through: the announce loop writes it to etcd, or it has come to the cluster.
  abbrev pub Publishes :
      DeviceRegistration
      → Prepare.Backend api k
      → World
      → Prepare.Backend api k × World
      → World
      → Type 0
  Publishes d (etcd b) w (etcd announced, (st, c)) (st', c') = Refreshes api d (announced, st) st'
  Publishes d (kubernetes b) (st, c) (r, (st1, c1)) (st', c') = Registers k sleep d b c c1 c'
  Publishes d (etcd b) w (kubernetes r, w1) w' = ⊥

  -- Two receivers on the same path, the second one up to date.
  abbrev pub IsPeer : Prepare.Backend api k → Prepare.Backend api k → World → Type 0
  IsPeer (etcd b) (etcd c) w = b.devices_key ≡ c.devices_key
  IsPeer (kubernetes b) (kubernetes c) (st, w) = Reads k sleep b c w
  IsPeer (etcd b) (kubernetes c) w = ⊥
  IsPeer (kubernetes b) (etcd c) w = ⊥

  module _ (keys : KeepsKeys api) (pods : KeepsPods k) where
    pub chosen_found :
        (d : DeviceRegistration) (b c : Prepare.Backend api k) (w w' : World)
        → Publishes d b w (announce d.id (announce_address d.ip d.port) b w) w'
        → IsPeer b c w'
        → (ds : DeviceRegistrations) × ((get c w').1 ≡ ok ds) × Any (λ e. e ≡ d) ds
    chosen_found d (etcd b) (etcd c) (st, cs) (st', cs') h peer =
        (etcd_registry-IsRegistry api keys).found d b c st st' h peer
    chosen_found d (kubernetes b) (kubernetes c) (st, cs) (st', cs') h peer =
        (k8s_registry-IsRegistry k sleep pods).found d b c cs cs' h peer
    chosen_found d (etcd b) (kubernetes c) w w' h peer = absurd peer
    chosen_found d (kubernetes b) (etcd c) w w' h peer = absurd peer

    -- What main chooses is a registry, as both backends are.
    abbrev pub chosen-IsRegistry : IsRegistry chosen
    chosen-IsRegistry = record { Publishes = Publishes; IsPeer = IsPeer; found = chosen_found }
