-- ===== src/Main/Start/Settled.antt =====
-- What a peer that main has started is configured for when it has come to rest.
use correlation.Base.{
  ◌+◌, ◌<◌, ◌^◌, Text, List, [], ◌∷◌, ◌≡◌, ◌≢◌, refl, sym, ap, ◌∙◌, Any, Any-Perm, All, Perm,
  Result, ok,
}
use mathlib.Core.Logic.{∥∥₁_map}
use mathlib.Core.List.Perm
use mathlib.Core.Path.{subst}
use correlation.Devices.{DeviceRegistration, DeviceRegistrations}
use correlation.Etcd.{KeysApi}
use correlation.Etcd.Registry.{KeepsKeys, key_kept}
use correlation.K8s.{Cluster}
use correlation.K8s.Announcing.{KeepsPods}
use correlation.Service.{Service}
use correlation.Service.Update.{Syncthing, Calls}
use correlation.Service.Update.Devices.{Mirrors, MirrorsAll}
use correlation.Service.Update.Stored.{Mirrors-find}
use correlation.Service.Update.Mirrored.{Stores, AllTame}
use correlation.Service.Converge.{System, Event, run, start}
use correlation.Service.Converge.Synced.{notices}
use correlation.Service.Converge.Idle.{IsIdle}
use correlation.Service.Converge.Configured.{IsTameEvent, CleanRun, idle_configured}
use correlation.Service.Discovery.{own_device, announce_me, Running}
use correlation.Service.Discovery
use correlation.Main.{GlobalOptions, get_kubernetes_namespace}
use correlation.Main.Prepare.{Backend, kubernetes, etcd}
use correlation.Main.Run.{IsOn, is_kubernetes}
use correlation.Main.Start.{
  Launch, World, chosen, Started, main_run, Publishes, IsPeer, chosen-IsRegistry,
}
use correlation.Main.Start.Found.{IsGroup, IsPeer-trans, same_path, started, announced, launched}

module _ (y : Syncthing) (calls : Calls y) (laws : Stores y calls) where
  -- a system that started for a new service, at rest
  from_start :
      (es : List (Event y calls)) (service : Service) (state : y.State)
      (devices : Result DeviceRegistrations) (ds : DeviceRegistrations) (s : System y calls)
      → start y calls service state devices ≡ s
      → service.last_devices ≡ []
      → All (IsTameEvent y calls laws) es
      → 2 + notices y calls es < 2 ^ 32
      → ds ≢ []
      → AllTame s.devices
      → CleanRun y calls laws es s
      → IsIdle y calls (run y calls es s)
      → (run y calls es s).devices ≡ ok ds
      → (ds' : DeviceRegistrations) × Perm ds' ds
        × MirrorsAll y ds' (laws.current (run y calls es s).state)
  unfolding start
  from_start es service state devices ds s same fresh events room full =
      subst
        (λ s.
          AllTame s.devices
          → CleanRun y calls laws es s
          → IsIdle y calls (run y calls es s)
          → (run y calls es s).devices ≡ ok ds
          → (ds' : DeviceRegistrations) × Perm ds' ds
            × MirrorsAll y ds' (laws.current (run y calls es s).state))
        same
        (λ tame clean idle now.
          idle_configured y calls laws es service state devices ds fresh tame events clean room idle
            now full)

  -- a device of the backend has its mirror, in whatever order
  find_mirror :
      (d : DeviceRegistration) (ds ds' : DeviceRegistrations) (st : y.State)
      → Any (λ e. e ≡ d) ds
      → Perm ds ds'
      → MirrorsAll y ds' (laws.current st)
      → ∥ Any (Mirrors y d) (laws.current st) ∥₁
  find_mirror d ds ds' st at p mirrors =
      ∥∥₁_map (Any-Perm d ds ds' p at)
        (λ found. Mirrors-find y ds' (laws.current st) d mirrors found)

  module _ (api : KeysApi) (k : Cluster) (sleep : k.State → k.State) where
    -- an announcement leaves a backend of its kind, and on its path
    announce-IsOn :
        (namespace id address : Text) (flags : GlobalOptions) (b : Backend api k)
        (w : World api k sleep)
        → IsOn api k namespace flags b
        → IsOn api k namespace flags ((chosen api k sleep).announce id address b w).0
          × (is_kubernetes api k ((chosen api k sleep).announce id address b w).0
              ≡ is_kubernetes api k b)
    announce-IsOn namespace id address flags (etcd b) (st, c) h =
        (key_kept api id address b ∙ h, refl)
    announce-IsOn namespace id address flags (kubernetes b) (st, c) h = (h, refl)

    announce_me-IsOn :
        (namespace : Text) (flags : GlobalOptions) (attempts : List (Result Text)) (s : Service)
        (b : Backend api k) (w : World api k sleep)
        → IsOn api k namespace flags b
        → IsOn api k namespace flags (announce_me (chosen api k sleep) attempts s b w).0
          × (is_kubernetes api k (announce_me (chosen api k sleep) attempts s b w).0
              ≡ is_kubernetes api k b)
    unfolding announce_me
    announce_me-IsOn namespace flags attempts s b w h = announce-IsOn namespace _ _ flags b w h

    system_of_run :
        (attempts : List (Result Text)) (s : Service) (st : y.State) (b : Backend api k)
        (w : World api k sleep)
        → (devices : Result DeviceRegistrations) × (start y calls s st devices
            ≡ (Discovery.run (chosen api k sleep) y calls attempts s st b w).system)
    unfolding Discovery.run
    system_of_run attempts s st b w = (_, refl)

    -- a peer finds what Run has announced
    published_found :
        (keys : KeepsKeys api) (pods : KeepsPods k) (attempts : List (Result Text)) (s : Service)
        (b c : Backend api k) (w w' : World api k sleep) (p : Backend api k × World api k sleep)
        → announce_me (chosen api k sleep) attempts s b w ≡ p
        → Publishes api k sleep (own_device attempts s) b w p w'
        → IsPeer api k sleep b c w'
        → (ds : DeviceRegistrations) × (((chosen api k sleep).get c w').1 ≡ ok ds)
          × Any (λ e. e ≡ own_device attempts s) ds
    unfolding announce_me
    published_found keys pods attempts s b c w w' p same h peer =
        (chosen-IsRegistry api k sleep keys pods).found (own_device attempts s) b c w w'
          (subst (λ p. Publishes api k sleep (own_device attempts s) b w p w') (sym same) h) peer

    not_empty : (d : DeviceRegistration) (ds : DeviceRegistrations) → Any (λ e. e ≡ d) ds → ds ≢ []
    not_empty d [] at h = at
    not_empty d (e ∷ ds) at h = cc

    -- When etcd, Kubernetes and syncthing keep what is written, for two instances of one group that main
    -- has started: let the device that Run of the first has announced be published, and let the receiver of
    -- the second be on its path still, and, in Kubernetes, have stored no devices or those that are in the
    -- cluster, as it has after a return of Watch. Whatever has happened in whatever order to the second,
    -- with fewer than 2^32 - 2 returns of Watch, when it has come to rest on the devices that its Get
    -- returns then, its syncthing's configuration has a device with the same ID and the announced address.
    -- All devices that the second gets have IDs and addresses without a comma, addresses without a dash and
    -- ports that are not negative, and each of its updates that fails does so before it changes syncthing:
    -- neither a SetConfig that has had an effect nor a restart that follows it fails.
    pub main_run_settles :
        (keys : KeepsKeys api) (pods : KeepsPods k) (l l' : Launch k) (st st' : y.State)
        (w w' published : World api k sleep) (a b : Started api k sleep y calls)
        (es : List (Event y calls)) (c : Backend api k)
        → IsGroup l l'
        → main_run api k sleep y calls l st w ≡ ok a
        → main_run api k sleep y calls l' st' w' ≡ ok b
        → Publishes api k sleep
            (own_device l.attempts a.prepared.service)
            a.prepared.backend
            w
            (a.running.receiver, a.running.world)
            published
        → IsPeer api k sleep b.running.receiver c published
        → AllTame b.running.system.devices
        → All (IsTameEvent y calls laws) es
        → CleanRun y calls laws es b.running.system
        → 2 + notices y calls es < 2 ^ 32
        → IsIdle y calls (run y calls es b.running.system)
        → (run y calls es b.running.system).devices ≡ ((chosen api k sleep).get c published).1
        → ∥ Any
            (Mirrors y (own_device l.attempts a.prepared.service))
            (laws.current (run y calls es b.running.system).state) ∥₁
    main_run_settles keys pods l l' st st' w w' published a b es c g h h' through up_to_date tame
          events clean room idle now =
        let (made, runs) = started api k sleep y calls l st w a h in
        let (made', runs') = started api k sleep y calls l' st' w' b h' in
        let is = launched api k sleep y calls l g.parsed a.levels a.prepared g.reads made in
        let is' = launched api k sleep y calls l' g.parsed' b.levels b.prepared g.reads' made' in
        let namespace' = get_kubernetes_namespace l'.namespace_file in
        let (on_path, same_kind) =
          subst
            (λ (p : Backend api k × World api k sleep).
              IsOn api k namespace' g.parsed' p.0
              × (is_kubernetes api k p.0 ≡ is_kubernetes api k b.prepared.backend))
            (announced api k sleep y calls l' st' w' b h')
            (announce_me-IsOn namespace' g.parsed' l'.attempts b.prepared.service b.prepared.backend
              w' is'.on_path) in
        let peer =
          IsPeer-trans api k sleep a.prepared.backend b.running.receiver c published
            (same_path api k sleep _ _ g.parsed g.parsed' a.prepared.backend b.running.receiver
              published g.namespace g.path (is.kind ∙ g.kind ∙ sym is'.kind ∙ sym same_kind)
              is.on_path on_path)
            up_to_date in
        let (ds, got, at) =
          published_found keys pods l.attempts a.prepared.service a.prepared.backend c w published
            (a.running.receiver, a.running.world) (announced api k sleep y calls l st w a h) through
            peer in
        let (devices, starts) =
          system_of_run l'.attempts b.prepared.service st' b.prepared.backend w' in
        let (ds', p, mirrors) =
          from_start es b.prepared.service st' devices ds b.running.system
            (starts ∙ ap (λ (r : Running (chosen api k sleep) y calls). r.system) runs') is'.fresh
            events room (not_empty _ ds at) tame clean idle (now ∙ got) in
        find_mirror (own_device l.attempts a.prepared.service) ds ds' _ at (Perm.symm p) mirrors
