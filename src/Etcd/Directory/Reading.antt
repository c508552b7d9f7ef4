-- ===== src/Etcd/Directory/Reading.antt =====
-- What Get reads from the directory.
use correlation.Base.{
  Text, List, [], ◌∷◌, ◌≡◌, inl, inr, sym, ap, ◌∙◌, All, Any, some, ok, Result-cases,
}
use mathlib.Core.Path.{subst}
use correlation.Devices.{DeviceRegistration, DeviceRegistrations}
use correlation.Address.{parse_device_info}
use correlation.Paths.{path_join, base}
use correlation.Paths.Child.{IsName, base-path_join}
use correlation.Etcd.{KeysApi, Node, EtcdBackend, collect, read_devices_tree, get_devices}
use correlation.Etcd.Registry.{IsShown, collect_finds}
use correlation.Etcd.Directory.{Directory, IsKeyValue, view}

-- The directory has an entry for the device, with an address that parses.
abbrev pub HasEntry : Directory → DeviceRegistration → Type 0
HasEntry directory d =
    IsName d.id
    × ((v : Text) × (dev : DeviceRegistration) × (directory d.id ≡ some v)
        × (parse_device_info v ≡ ok dev)
        × (d ≡ record dev { id = d.id }))

module _ (api : KeysApi) where
  IsFrom : DeviceRegistration → Node → Type 0
  IsFrom d n =
      (dev : DeviceRegistration) × (parse_device_info n.value ≡ ok dev)
      × (d ≡ record dev { id = base n.key })

  -- each device comes from a node
  collect-IsFrom :
      (ns : List Node) (d : DeviceRegistration)
      → Any (λ e. e ≡ d) (collect api ns)
      → Any (IsFrom d) ns
  unfolding collect IsFrom
  collect-IsFrom [] d h = absurd h
  collect-IsFrom (n ∷ ns) d h = elim (Result-cases (parse_device_info n.value)) [
    | inr (x, q) ↦ inr (collect-IsFrom ns d (rw (q, collect) at h))
    | inl (dev, q) ↦ elim (rw (q, collect) at h) [
      | inl e ↦ inl (dev, q, sym e)
      | inr r ↦ inr (collect-IsFrom ns d r)
    ]
  ]

  read_listed :
      (b : EtcdBackend api) (st : api.Store) (ns : List Node) (ds : DeviceRegistrations)
      → api.get st b.devices_key ≡ ok (some ns)
      → get_devices api b st ≡ ok ds
      → collect api ns ≡ ds
  unfolding get_devices
  read_listed b st ns ds h e = ok_same _ _ (rw (h, get_devices, read_devices_tree) at e)
    where
      ok_same : (a c : DeviceRegistrations) → ok a ≡ ok c → a ≡ c
      ok_same a c q = cc

  module _ (keys : IsKeyValue api) where
    entry_of :
        (b : EtcdBackend api) (st : api.Store) (d : DeviceRegistration) (ns : List Node)
        → All
            (λ n.
              (name : Text) × IsName name
              × (n.key ≡ path_join b.devices_key name)
              × (keys.value st n.key ≡ some n.value))
            ns
        → Any (IsFrom d) ns
        → HasEntry (view api keys b st).directory d
    unfolding view IsFrom
    entry_of b st d [] a h = absurd h
    entry_of b st d (n ∷ ns) (p, a) (inr h) = entry_of b st d ns a h
    entry_of b st d (n ∷ ns) ((name, proper, at, stored), a) (inl (dev, parsed, e)) =
        let same : d.id ≡ name =
          ap (λ (x : DeviceRegistration). x.id) e
          ∙ ap base at
          ∙ base-path_join b.devices_key name proper in
        (
          subst IsName (sym same) proper,
          (
            n.value,
            dev,
            ap (λ i. keys.value st (path_join b.devices_key i)) same
                ∙ ap (keys.value st) (sym at)
                ∙ stored,
            parsed,
            e ∙ ap (λ i. record dev { id = i }) (sym (ap (λ (x : DeviceRegistration). x.id) e)),
          ),
        )

    listed_of :
        (b : EtcdBackend api) (st : api.Store) (d : DeviceRegistration) (ns : List Node)
        → api.get st b.devices_key ≡ ok (some ns)
        → IsShown d.id
        → HasEntry (view api keys b st).directory d
        → Any (λ e. e ≡ d) (collect api ns)
    unfolding view
    listed_of b st d ns h shown (proper, (v, dev, stored, parsed, e)) =
        let at =
          collect_finds api ns _ dev parsed
            (keys.complete st b.devices_key d.id v ns proper shown h stored) in
        rw (base-path_join b.devices_key d.id proper, ← e) at at

    -- When a recursive Get of etcd answers with the nodes of the directory, every device that Get of the
    -- backend returns has an entry in the directory whose address parses, and every device with such an
    -- entry is returned if its ID does not begin with an underscore, which etcd hides.
    pub get_devices-view :
        (b : EtcdBackend api) (st : api.Store) (ns : List Node) (ds : DeviceRegistrations)
        → api.get st b.devices_key ≡ ok (some ns)
        → get_devices api b st ≡ ok ds
        → (d : DeviceRegistration)
        → (Any (λ e. e ≡ d) ds → HasEntry (view api keys b st).directory d)
          × (IsShown d.id → HasEntry (view api keys b st).directory d → Any (λ e. e ≡ d) ds)
    get_devices-view b st ns ds h e d =
        let same = read_listed b st ns ds h e in
        (
          λ found.
              entry_of b st d ns (keys.listed st b.devices_key ns h)
                (collect-IsFrom ns d (rw (← same) at found)),
          λ shown entry. rw (← same) (listed_of b st d ns h shown entry),
        )
