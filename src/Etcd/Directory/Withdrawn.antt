-- ===== src/Etcd/Directory/Withdrawn.antt =====
-- A device that was withdrawn is not found any more.
use correlation.Base.{
  All-each, is_empty_ne, Text, List, ◌≡◌, ◌≢◌, inl, inr, sym, ap, ap₂, ◌∙◌, All, none, some, ok,
  true, text_eq_refl,
}
use correlation.Devices.{DeviceRegistration, DeviceRegistrations}
use correlation.Paths.{path_join}
use correlation.Paths.Child.{IsName}
use correlation.Etcd.{KeysApi, Node, EtcdBackend, EtcdOp, un_announce, get_devices, run}
use correlation.Etcd.Silence.{is_quiet, un_announce_lasts}
use correlation.Etcd.Directory.{IsKeyValue, view}
use correlation.Etcd.Directory.Reading.{get_devices-view}
use correlation.Etcd.Directory.Simulation.{un_announce_full}

module _ (api : KeysApi) (keys : IsKeyValue api) where
  -- a Delete that succeeds removes the key
  deleted :
      (st : api.Store) (key : Text)
      → (api.delete st key).1 ≡ none
      → keys.value (api.delete st key).0 key ≡ none
  deleted st key done = elim (keys.after_delete st key) [
    | inl gone ↦ gone key ∙ rw (text_eq_refl key)
    | inr ((e, failed), same) ↦ absurd (some-ne-none e (sym failed ∙ done))
  ]
    where
      some-ne-none : (e : Text) → some e ≢ none
      some-ne-none e h = cc

  none-ne-some : (v : Text) → none ≢ some v
  none-ne-some v h = cc

  -- Once UnAnnounce has deleted the key of a device, and until Announce is called again, no peer with the
  -- same path finds a device with this ID, whatever rounds the announce loop still makes.
  pub un_announced_not_found :
      (os : List (EtcdOp api)) (b c : EtcdBackend api) (st : api.Store) (ns : List Node)
      (ds : DeviceRegistrations)
      → IsName b.announce_device_id
      → (api.delete st (path_join b.devices_key b.announce_device_id)).1 ≡ none
      → All (λ o. is_quiet api o ≡ true) os
      → c.devices_key ≡ b.devices_key
      → api.get (run api os (un_announce api (b, st))).1 c.devices_key ≡ ok (some ns)
      → get_devices api c (run api os (un_announce api (b, st))).1 ≡ ok ds
      → All (λ d. d.id ≢ b.announce_device_id) ds
  unfolding view
  un_announced_not_found os b c st ns ds name done quiet peer listed got =
      let left : (run api os (un_announce api (b, st))).1
          ≡ (api.delete st (path_join b.devices_key b.announce_device_id)).0 =
        un_announce_lasts api os b st quiet
        ∙ ap (λ (p : EtcdBackend api × api.Store). p.1)
            (un_announce_full api keys b st (is_empty_ne b.announce_device_id name.full)) in
      All-each (λ (d : DeviceRegistration). d.id ≢ b.announce_device_id) ds
        (λ d at same.
          let (proper, (v, dev, stored, parsed, e)) =
            (get_devices-view api keys c _ ns ds listed got d).0 at in
          none-ne-some v (
            sym (deleted st (path_join b.devices_key b.announce_device_id) done)
            ∙ ap₂ keys.value (sym left) (ap₂ path_join (sym peer) (sym same))
            ∙ stored))
