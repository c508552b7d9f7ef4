-- ===== src/Etcd/Registry.antt =====
-- A device that is announced in etcd is found there.
use correlation.Base.{
  is_empty, is_empty_ne, ℕ, Text, List, [], ◌∷◌, ◌≡◌, refl, ◌∙◌, arith, Any, none, some, false, ok,
  ℤ, has_prefix, inl, inr, sym, Result-cases,
}
use correlation.Devices.{DeviceRegistration, DeviceRegistrations}
use correlation.Address.{IsPlainHost, announce_address, parse_device_info, join_host_port}
use correlation.Address.RoundTrip.{parse-announce}
use correlation.Strconv.RoundTrip.{FitsInt}
use correlation.Paths.{path_join, base}
use correlation.Paths.Child.{IsName, base-path_join}
use correlation.Etcd.{
  KeysApi, Node, EtcdBackend, announce, update_announce, read_devices_tree, get_devices, collect,
  announce_ttl,
}

-- etcd hides a key from listings when its last element begins with an underscore.
abbrev pub IsShown : Text → Type 0
IsShown name = has_prefix name (b'_' ∷ []) ≡ false

-- What the documentation of the keys API says of Set and a recursive Get: a key that was set under a
-- directory, and is not hidden, is among the nodes of the directory, with the value that it was given.
pub record KeepsKeys (api : KeysApi) : Type 0 where
  pub set_get :
      (st : api.Store) (dir name value : Text) (ttl : ℕ) {st' : api.Store}
      → IsName name
      → IsShown name
      → api.set st (path_join dir name) value ttl ≡ (st', none)
      → (ns : List Node) × (api.get st' dir ≡ ok (some ns))
        × Any (λ n. n ≡ record { key = path_join dir name; value = value }) ns

module _ (api : KeysApi) where
  -- a node that parses is read as a device, under the last element of its key
  pub collect_finds :
      (ns : List Node) (n : Node) (d : DeviceRegistration)
      → parse_device_info n.value ≡ ok d
      → Any (λ m. m ≡ n) ns
      → Any (λ e. e ≡ record d { id = base n.key }) (collect api ns)
  unfolding collect
  collect_finds [] n d p h = absurd h
  collect_finds (m ∷ ns) n d p (inl e) =
      let q : parse_device_info m.value ≡ ok d = rw e p in rw (q, collect) (inl (rw e))
  collect_finds (m ∷ ns) n d p (inr h) = elim (Result-cases (parse_device_info m.value)) [
    | inl (dev, q) ↦ rw (q, collect) (inr (collect_finds ns n d p h))
    | inr (x, q) ↦ rw (q, collect) (collect_finds ns n d p h)
  ]

  full_address :
      (ip : Text) (port : ℤ) → IsPlainHost ip → is_empty (announce_address ip port) ≡ false
  unfolding announce_address join_host_port
  full_address [] port h = refl
  full_address (c ∷ ip) port h = ground arith

  update_announced :
      (id address : Text) (b : EtcdBackend api) (st : api.Store)
      → is_empty id ≡ false
      → is_empty address ≡ false
      → update_announce api (announce api id address b, st)
        ≡ api.set st (path_join b.devices_key id) address announce_ttl
  unfolding update_announce announce
  update_announced id address b st h k = ground arith

  pub read_nodes :
      (b : EtcdBackend api) (st : api.Store) (ns : List Node)
      → api.get st b.devices_key ≡ ok (some ns)
      → get_devices api b st ≡ ok (collect api ns)
  unfolding get_devices
  read_nodes b st ns h = rw (h, get_devices, read_devices_tree)

  pub key_kept :
      (id address : Text) (b : EtcdBackend api)
      → (announce api id address b).devices_key ≡ b.devices_key
  unfolding announce
  key_kept id address b = ground arith

  -- When the keys API keeps what is set, a device whose ID is a single path element that does
  -- not begin with an underscore, with an address
  -- without a colon or a percent sign and a port that an int holds, is among the devices that Get returns, once
  -- updateAnnounce has succeeded.
  pub get_devices-announce :
      (b : EtcdBackend api) (st st' : api.Store) (id ip : Text) (port : ℤ)
      → KeepsKeys api
      → IsName id
      → IsShown id
      → IsPlainHost ip
      → FitsInt port
      → update_announce api (announce api id (announce_address ip port) b, st) ≡ (st', none)
      → (ds : DeviceRegistrations) × (get_devices api
            (announce api id (announce_address ip port) b)
            st'
          ≡ ok ds)
        × Any (λ d. d ≡ record { id = id; ip = ip; port = port }) ds
  get_devices-announce b st st' id ip port laws name shown plain fits h =
      let address = announce_address ip port in
      let c = announce api id address b in
      let done : api.set st (path_join b.devices_key id) address announce_ttl ≡ (st', none) =
        sym
          (update_announced id address b st (is_empty_ne id name.full) (full_address ip port plain))
        ∙ h in
      let (ns, found, at) = laws.set_get st b.devices_key id address announce_ttl name shown done in
      (
        collect api ns,
        read_nodes c st' ns (rw (key_kept id address b) found),
        rw (base-path_join b.devices_key id name) at (
            collect_finds ns _ (record { id = []; ip = ip; port = port })
              (parse-announce ip port plain fits) at),
      )
