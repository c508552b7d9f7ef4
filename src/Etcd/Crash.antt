-- ===== src/Etcd/Crash.antt =====
-- service/backend/etcd_backend.go: what becomes of the announcement of an instance that has ended without
-- UnAnnounce.
use correlation.Base.{
  ℕ, ◌≤◌, ◌<◌, Text, List, ◌≡◌, ◌≢◌, sym, ap, ap₂, ◌∙◌, arith, All, All-each, none, some, ok,
  is_empty, is_empty_ne, false,
}
use correlation.Devices.{DeviceRegistration, DeviceRegistrations}
use correlation.Paths.{path_join}
use correlation.Paths.Child.{IsName}
use correlation.Etcd.{KeysApi, Node, EtcdBackend, announce_ttl, update_announce, get_devices}
use correlation.Etcd.Directory.{IsKeyValue, view}
use correlation.Etcd.Directory.Reading.{get_devices-view}

-- What the documentation of etcd says of the end of a time to live: the key is removed, as long as no
-- client sets it again. `pass` is what some seconds make of the store.
pub record Forgets (api : KeysApi) (keys : IsKeyValue api) : Type 0 where
  pub pass : ℕ → api.Store → api.Store
  pub removed :
      (st st' : api.Store) (key value : Text) (ttl n : ℕ)
      → api.set st key value ttl ≡ (st', none)
      → 0 < ttl
      → ttl ≤ n
      → keys.value (pass n st') key ≡ none

module _ (api : KeysApi) (keys : IsKeyValue api) (etcd : Forgets api keys) where
  sets :
      (b : EtcdBackend api) (st : api.Store)
      → is_empty b.announce_device_id ≡ false
      → is_empty b.announce_address ≡ false
      → api.set st (path_join b.devices_key b.announce_device_id) b.announce_address announce_ttl
        ≡ update_announce api (b, st)
  unfolding update_announce
  sets b st named full = ground (arith, named, full)

  none-ne-some : (v : Text) → none ≢ some v
  none-ne-some v h = cc

  -- When an instance ends behind a round of its announce loop whose Set has succeeded, without UnAnnounce,
  -- and no client sets its key again, no peer with the same path finds its device once announceTTL is over,
  -- if etcd answers with nodes.
  pub crashed_not_found :
      (b c : EtcdBackend api) (st st' : api.Store) (n : ℕ) (ns : List Node)
      (ds : DeviceRegistrations)
      → IsName b.announce_device_id
      → is_empty b.announce_address ≡ false
      → update_announce api (b, st) ≡ (st', none)
      → announce_ttl ≤ n
      → c.devices_key ≡ b.devices_key
      → api.get (etcd.pass n st') c.devices_key ≡ ok (some ns)
      → get_devices api c (etcd.pass n st') ≡ ok ds
      → All (λ d. d.id ≢ b.announce_device_id) ds
  unfolding view
  crashed_not_found b c st st' n ns ds name full done over peer listed got =
      All-each (λ (d : DeviceRegistration). d.id ≢ b.announce_device_id) ds
        (λ d at same.
          let (proper, (v, dev, stored, parsed, e)) =
            (get_devices-view api keys c _ ns ds listed got d).0 at in
          none-ne-some v (
            sym (
              etcd.removed st st' (path_join b.devices_key b.announce_device_id) b.announce_address
                announce_ttl n (sets b st (is_empty_ne b.announce_device_id name.full) full ∙ done)
                (omega arith) over)
            ∙ ap (keys.value (etcd.pass n st')) (ap₂ path_join (sym peer) (sym same))
            ∙ stored))
