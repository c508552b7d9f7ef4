-- ===== src/Etcd/Registered.antt =====
-- The etcd backend as a Backend.
use correlation.Base.{◌≡◌, sym, ◌∙◌, none, some}
use correlation.Backend.{Backend, IsRegistry}
use correlation.Devices.{DeviceRegistration}
use correlation.Address.{IsPlainHost, announce_address}
use correlation.Strconv.RoundTrip.{FitsInt}
use correlation.Paths.Child.{IsName}
use correlation.Etcd.{
  KeysApi, EtcdBackend, watch, read_devices_tree, get_devices, announce, un_announce,
  update_announce,
}
use correlation.Etcd.Registry.{KeepsKeys, IsShown, get_devices-announce, key_kept}

module _ (api : KeysApi) where
  -- Announce of the etcd backend leaves the world to the announce loop.
  abbrev pub etcd_registry : Backend
  etcd_registry = record {
    Receiver = EtcdBackend api;
    World = api.Store;
    watch = λ b worlds. some (watch api b);
    get = λ b st. (b, get_devices api b st);
    announce = λ id address b st. (announce api id address b, st);
    un_announce = λ b st. un_announce api (b, st);
  }

  -- A round of the announce loop succeeds, for a device with a proper ID, which etcd does not
  -- hide, and a proper address.
  pub record Refreshes (d : DeviceRegistration) (p : EtcdBackend api × api.Store) (st' : api.Store)
      : Type 0 where
    pub name : IsName d.id
    pub shown : IsShown d.id
    pub plain : IsPlainHost d.ip
    pub fits : FitsInt d.port
    pub refreshed : update_announce api p ≡ (st', none)

  -- what two receivers of a group read
  pub peer_reads :
      (b c : EtcdBackend api) (st : api.Store)
      → b.devices_key ≡ c.devices_key
      → get_devices api b st ≡ get_devices api c st
  unfolding get_devices read_devices_tree
  peer_reads b c st e = rw e

  -- When the keys API keeps what is set, the etcd backend is a registry: once a round of the announce loop
  -- has succeeded, every backend with the same path finds the device.
  abbrev pub etcd_registry-IsRegistry : KeepsKeys api → IsRegistry etcd_registry
  etcd_registry-IsRegistry laws = record {
    Publishes = λ d b st p st'. Refreshes d p st';
    IsPeer = λ b c st. b.devices_key ≡ c.devices_key;
    found = λ d b c st st' h peer.
        let (ds, got, at) =
          get_devices-announce api b st st' d.id d.ip d.port laws h.name h.shown h.plain h.fits
            h.refreshed in
        let same = key_kept api d.id (announce_address d.ip d.port) b ∙ peer in
        (
          ds,
          sym (peer_reads (announce api d.id (announce_address d.ip d.port) b) c st' same) ∙ got,
          at,
        );
  }
