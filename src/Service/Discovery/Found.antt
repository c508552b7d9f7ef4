-- ===== src/Service/Discovery/Found.antt =====
-- An instance that runs is found by the others.
use correlation.Base.{Text, List, ◌≡◌, ◌⊎◌, inl, inr, Any, none, Result, ok}
use correlation.Backend.{Backend, IsRegistry}
use correlation.Devices.{DeviceRegistration, DeviceRegistrations, list_full_string}
use correlation.Service.{Service}
use correlation.Service.Update.{Syncthing, Calls, update_syncthing}
use correlation.Service.Update.Devices.{Mirrors}
use correlation.Service.Update.Stored.{Stored, Mirrors-find, update_stores}
use correlation.Service.Discovery.{own_device, announce_me}

module _ (b : Backend) (registry : IsRegistry b) (y : Syncthing) (calls : Calls y) where
  -- The configuration that an update has stored has a device for this one.
  pub record Lists (d : DeviceRegistration) (s : Service) (st : y.State) (ds : DeviceRegistrations)
      : Type 0 where
    pub done : Stored y calls s st ds
    pub device : Any (Mirrors y d) done.devs

  -- With any backend that is a registry: once the device that Run announces is published, each peer's
  -- update that succeeds gets a list of devices with this one in it. If that is not the list of the last
  -- update, the peer has stored a configuration in syncthing which has a device with the same ID and the
  -- announced address.
  pub peer_finds :
      (attempts : List (Result Text)) (s peer : Service) (r r' : b.Receiver) (w w' : b.World)
      (st : y.State)
      → registry.Publishes (own_device attempts s) r w (announce_me b attempts s r w) w'
      → registry.IsPeer r r' w'
      → (update_syncthing y calls (b.get r' w').1 peer st).2 ≡ none
      → (ds : DeviceRegistrations) × ((b.get r' w').1 ≡ ok ds)
        × Any (λ d. d ≡ own_device attempts s) ds
        × ((list_full_string ds ≡ peer.last_devices) ⊎ Lists (own_device attempts s) peer st ds)
  unfolding announce_me
  peer_finds attempts s peer r r' w w' st published is_peer success =
      let (ds, got, at) = registry.found (own_device attempts s) r r' w w' published is_peer in
      (
        ds,
        got,
        at,
        elim (update_stores y calls peer st ds (rw got at success)) [
          | inl same ↦ inl same
          | inr done ↦
              inr (record { done = done; device = Mirrors-find y ds done.devs _ done.mirrors at })
        ],
      )
