-- ===== src/Etcd.antt =====
-- service/backend/etcd_backend.go: the backend that keeps a key for each device in etcd. The client
-- of etcd is a parameter: its keys API works on a store of its own, and Next of a watcher is a
-- function of the watcher. The mutex makes each method one step; an announceLoop that runs is
-- `announce_started`, and its rounds are `updateAnnounce` steps.
pub mod Registry
pub mod Registered
pub mod Directory
pub mod Silence
pub mod Refresh
pub mod Expiry
pub mod Crash
pub mod Watching
use correlation.Base.{
  is_empty, ℕ, zero, suc, ◌+◌, ◌*◌, Text, codes, List, [], ◌∷◌, Bool, true, false, not, ◌||◌,
  if◌then◌else◌, Option, none, some, Result, ok, err, ltb, text_eq,
}
use correlation.Devices.{DeviceRegistration, DeviceRegistrations}
use correlation.Address.{parse_device_info}
use correlation.Paths.{path_join, base}

abbrev pub recent_watch_errors_max : ℕ
recent_watch_errors_max = 5

-- announceTTL, in seconds
abbrev pub announce_ttl : ℕ
announce_ttl = 60

-- the fields of a client.Node that the code reads
pub record Node : Type 0 where
  pub key : Text
  pub value : Text

-- The keys API of the etcd client. `get` is a recursive read; `none` is a response without a node.
pub record KeysApi : Type 1 where
  pub Store : Type 0
  pub Watcher : Type 0
  pub get : Store → Text → Result (Option (List Node))
  pub set : Store → Text → Text → ℕ → Store × Option Text
  pub delete : Store → Text → Store × Option Text
  pub new_watcher : Text → Watcher
  pub next : Watcher → Watcher × Option Text

module _ (api : KeysApi) where
  open api use {Store, Watcher, get, set, delete, new_watcher, next}

  pub record EtcdBackend : Type 0 where
    pub watcher : Option Watcher
    pub devices_key : Text
    pub recent_watch_errors : ℕ
    pub announce_started : Bool
    pub announce_device_id : Text
    pub announce_address : Text

  -- NewEtcdBackend; `created` is the error of client.New
  unfoldable pub new_etcd_backend : Option Text → Text → Result EtcdBackend
  new_etcd_backend (some e) path = err e
  new_etcd_backend none path = ok (record {
    watcher = some (new_watcher path);
    devices_key = path;
    recent_watch_errors = 0;
    announce_started = false;
    announce_device_id = [];
    announce_address = [];
  })

  -- the watcher that Watch uses, after it has made a new one if need be
  abbrev fresh : EtcdBackend → Watcher × ℕ
  fresh b = elim b.watcher [
    | none ↦ (new_watcher b.devices_key, 0)
    | some w ↦
        if ltb recent_watch_errors_max b.recent_watch_errors
        then (new_watcher b.devices_key, 0)
        else (w, b.recent_watch_errors)
  ]

  abbrev after_next : EtcdBackend → ℕ → Watcher × Option Text → EtcdBackend × Result (Unit {0})
  after_next b n (w, some e) = (record b { watcher = some w; recent_watch_errors = suc n }, err e)
  after_next b n (w, none) = (record b { watcher = some w; recent_watch_errors = 0 }, ok tt)

  -- etcdBackend.Watch
  unfoldable pub watch : EtcdBackend → EtcdBackend × Result (Unit {0})
  watch b = let (w, n) = fresh b in after_next b n (next w)

  -- the loop of readDevicesTree: a node that does not parse is logged and left out
  unfoldable pub collect : List Node → DeviceRegistrations
  collect [] = []
  collect (n ∷ ns) = elim (parse_device_info n.value) [
    | ok dev ↦ record dev { id = base n.key } ∷ collect ns
    | err _ ↦ collect ns
  ]

  -- etcdBackend.readDevicesTree
  unfoldable pub read_devices_tree : EtcdBackend → Store → Result DeviceRegistrations
  unfolding collect
  read_devices_tree b st = elim (get st b.devices_key) [
    | err e ↦ err e
    | ok none ↦ ok []
    | ok (some nodes) ↦ ok (collect nodes)
  ]

  -- etcdBackend.Get
  unfoldable pub get_devices : EtcdBackend → Store → Result DeviceRegistrations
  unfolding read_devices_tree
  get_devices b st = elim (read_devices_tree b st) [ err e ↦ err e | ok devices ↦ ok devices ]

  -- etcdBackend.Announce
  unfoldable pub announce : Text → Text → EtcdBackend → EtcdBackend
  announce device_id address b =
      let c = record b { announce_device_id = device_id; announce_address = address } in
      if is_empty device_id || is_empty address
      then c
      else if not c.announce_started
      then record c { announce_started = true }
      else c

  -- etcdBackend.UnAnnounce; an error of Delete is only logged
  unfoldable pub un_announce : EtcdBackend × Store → EtcdBackend × Store
  un_announce (b, st) =
      let c = record b { announce_device_id = []; announce_address = [] } in
      if not (is_empty b.announce_device_id)
      then (c, (delete st (path_join b.devices_key b.announce_device_id)).0)
      else (c, st)

  -- etcdBackend.updateAnnounce
  unfoldable pub update_announce : EtcdBackend × Store → Store × Option Text
  update_announce (b, st) =
      if is_empty b.announce_device_id || is_empty b.announce_address
      then (st, none)
      else set st (path_join b.devices_key b.announce_device_id) b.announce_address announce_ttl

  abbrev sleep_after : Store × Option Text → Store × ℕ
  sleep_after (st, some e) = (st, 1)
  sleep_after (st, none) = (st, 30)

  -- a round of announceLoop: the store behind it, and how many seconds it sleeps
  unfoldable pub announce_round : EtcdBackend × Store → Store × ℕ
  unfolding update_announce
  announce_round s = sleep_after (update_announce s)

  -- What can happen to a backend: a call of a method, or a round of the announceLoop goroutine.
  pub data EtcdOp : Type 0 where
    call_announce : Text → Text → EtcdOp
    call_un_announce : EtcdOp
    call_watch : EtcdOp
    loop_round : EtcdOp

  abbrev loop_step : EtcdBackend × Store → EtcdBackend × Store
  loop_step (b, st) = if b.announce_started then (b, (announce_round (b, st)).0) else (b, st)

  unfoldable pub step : EtcdOp → EtcdBackend × Store → EtcdBackend × Store
  unfolding announce un_announce watch announce_round
  step (call_announce device_id address) (b, st) = (announce device_id address b, st)
  step call_un_announce s = un_announce s
  step call_watch (b, st) = ((watch b).0, st)
  step loop_round s = loop_step s

  unfoldable pub run : List EtcdOp → EtcdBackend × Store → EtcdBackend × Store
  unfolding step
  run [] s = s
  run (o ∷ os) s = run os (step o s)
