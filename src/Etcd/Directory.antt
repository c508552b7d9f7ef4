-- ===== src/Etcd/Directory.antt =====
-- An abstract directory of announcements, which the etcd backend implements on the keys API.
pub mod Keys
pub mod Simulation
pub mod Reading
pub mod Withdrawn
pub mod Together
pub mod Instances
use correlation.Base.{
  ℕ, Text, List, [], ◌∷◌, ◌≡◌, ◌≢◌, ◌⊎◌, ◌↔◌, Any, All, Option, none, some, Result, ok, Bool, true,
  false, if◌then◌else◌, text_eq,
}
use correlation.Paths.{path_join}
use correlation.Paths.Child.{IsName}
use correlation.Etcd.Registry.{IsShown}
use correlation.Etcd.{
  KeysApi, Node, EtcdBackend, EtcdOp, call_announce, call_un_announce, call_watch, loop_round,
  announce_ttl,
}

-- the address under which each device is announced
abbrev pub Directory : Type 0
Directory = Text → Option Text

abbrev pub Same : Directory → Directory → Type 0
Same d d' = (j : Text) → IsName j → d' j ≡ d j

abbrev pub Puts : Text → Text → Directory → Directory → Type 0
Puts id address d d' = (j : Text) → IsName j → d' j ≡ (if text_eq id j then some address else d j)

abbrev pub Removes : Text → Directory → Directory → Type 0
Removes id d d' = (j : Text) → IsName j → d' j ≡ (if text_eq id j then none else d j)

-- What an instance announces, empty texts if nothing, whether its announce loop runs, and the directory
-- that all instances share.
pub record View : Type 0 where
  pub id : Text
  pub address : Text
  pub started : Bool
  pub directory : Directory

-- Set of a device's key returns an error, in some state of the store.
abbrev pub SetFails : KeysApi → Text → Text → Type 0
SetFails api id address =
    (st : api.Store) × (dir : Text) × (e : Text) × ((api.set st (path_join dir id) address
        announce_ttl).1
      ≡ some e)

-- Delete of a device's key does.
abbrev pub DeleteFails : KeysApi → Text → Type 0
DeleteFails api id =
    (st : api.Store) × (dir : Text) × (e : Text) × ((api.delete st (path_join dir id)).1 ≡ some e)

-- What may happen to the view of an instance. A call of etcd that fails may have been carried out or
-- not. UnAnnounce and a round of the announce loop leave the directory as it is only if they have nothing to
-- do, or if the call of etcd fails.
pub data Move (api : KeysApi) (o : EtcdOp api) (v v' : View) : Type 0 where
  set_own :
      (id address : Text)
      → o ≡ call_announce id address
      → v'.id ≡ id
      → v'.address ≡ address
      → (v'.started ≡ true) ⊎ ((v'.started ≡ v.started) × ((id ≡ []) ⊎ (address ≡ [])))
      → Same v.directory v'.directory
      → Move api o v v'
  withdraw :
      o ≡ call_un_announce
      → v'.id ≡ []
      → v'.address ≡ []
      → v'.started ≡ v.started
      → (Same v.directory v'.directory × ((v.id ≡ []) ⊎ DeleteFails api v.id))
        ⊎ ((v.id ≢ []) × Removes v.id v.directory v'.directory)
      → Move api o v v'
  wait :
      o ≡ call_watch
      → v'.id ≡ v.id
      → v'.address ≡ v.address
      → v'.started ≡ v.started
      → Same v.directory v'.directory
      → Move api o v v'
  refresh :
      o ≡ loop_round
      → v'.id ≡ v.id
      → v'.address ≡ v.address
      → v'.started ≡ v.started
      → (Same v.directory v'.directory
          × ((v.started ≡ false)
              ⊎ ((v.id ≡ []) ⊎ ((v.address ≡ []) ⊎ SetFails api v.id v.address))))
        ⊎ ((v.id ≢ []) × (v.address ≢ []) × Puts v.id v.address v.directory v'.directory)
      → Move api o v v'

-- What the documentation of the keys API says: the store maps keys to values. Set and Delete change one
-- key, or none, and then they return an error. A recursive Get of a directory lists only keys below it, and
-- all of them but those that are hidden.
pub record IsKeyValue (api : KeysApi) : Type 0 where
  pub value : api.Store → Text → Option Text
  pub after_set :
      (st : api.Store) (key v : Text) (ttl : ℕ)
      → ((k : Text)
          → value (api.set st key v ttl).0 k ≡ (if text_eq key k then some v else value st k))
        ⊎ (((e : Text) × ((api.set st key v ttl).1 ≡ some e))
            × ((k : Text) → value (api.set st key v ttl).0 k ≡ value st k))
  pub after_delete :
      (st : api.Store) (key : Text)
      → ((k : Text) → value (api.delete st key).0 k ≡ (if text_eq key k then none else value st k))
        ⊎ (((e : Text) × ((api.delete st key).1 ≡ some e))
            × ((k : Text) → value (api.delete st key).0 k ≡ value st k))
  pub listed :
      (st : api.Store) (dir : Text) (ns : List Node)
      → api.get st dir ≡ ok (some ns)
      → All
          (λ n.
            (name : Text) × IsName name
            × (n.key ≡ path_join dir name)
            × (value st n.key ≡ some n.value))
          ns
  pub complete :
      (st : api.Store) (dir name v : Text) (ns : List Node)
      → IsName name
      → IsShown name
      → api.get st dir ≡ ok (some ns)
      → value st (path_join dir name) ≡ some v
      → Any (λ n. n ≡ record { key = path_join dir name; value = v }) ns

module _ (api : KeysApi) (keys : IsKeyValue api) where
  -- the view that a backend has on a store
  unfoldable pub view : EtcdBackend api → api.Store → View
  view b st = record {
    id = b.announce_device_id;
    address = b.announce_address;
    started = b.announce_started;
    directory = λ j. keys.value st (path_join b.devices_key j);
  }
