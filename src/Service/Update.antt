-- ===== src/Service/Update.antt =====
-- service/service.go, updateSyncthing and runWatcher: the configuration of syncthing is rewritten when
-- the devices of the backend have changed. Syncthing and its configuration types are parameters.
pub mod Effects
pub mod Devices
pub mod Stale
pub mod Stored
pub mod Mirrored
pub mod Groups
use correlation.Base.{
  ℕ, zero, suc, Text, codes, List, [], ◌∷◌, ◌++◌, Bool, true, false, if◌then◌else◌, Option, none,
  some, Result, ok, err, ℤ, negsuc, text_eq,
}
use correlation.Strconv.{itoa, itoa_nat}
use correlation.Devices.{DeviceRegistration, DeviceRegistrations, list_full_string}
use correlation.Service.{ServiceConfig, Service, folder_id, folder_label}

pub data FolderType : Type 0 where
  read_write read_only : FolderType

-- The API of a running syncthing, as the service calls it. `Rest` is what a configuration holds
-- beside the fields that the service writes. `wait_in_sync` is the retried wait at the end.
pub record Syncthing : Type 1 where
  pub State : Type 0
  pub Rest : Type 0
  pub DeviceId : Type 0
  pub device_id_from_string : Text → Result DeviceId
  pub read : State → Result Rest
  pub wait_in_sync : State → State

module _ (y : Syncthing) where
  open y use {State, Rest, DeviceId, device_id_from_string, read, wait_in_sync}

  -- config.DeviceConfiguration; the compression is always of the metadata
  pub record DeviceConfig : Type 0 where
    pub device_id : DeviceId
    pub name : Text
    pub addresses : List Text

  -- config.FolderConfiguration
  pub record FolderConfig : Type 0 where
    pub id : Text
    pub label : Text
    pub raw_path : Text
    pub kind : FolderType
    pub rescan_interval : ℕ
    pub devices : List DeviceId

  -- config.Configuration: the fields that the service writes, and the rest
  pub record Configuration : Type 0 where
    pub gui_address : Text
    pub gui_use_tls : Bool
    pub gui_api_key : Text
    pub gui_user : Text
    pub gui_password : Text
    pub listen_addresses : List Text
    pub global_ann_enabled : Bool
    pub global_ann_servers : List Text
    pub local_ann_enabled : Bool
    pub nat_enabled : Bool
    pub relays_enabled : Bool
    pub start_browser : Bool
    pub ur_accepted : ℤ
    pub devices : List DeviceConfig
    pub folders : List FolderConfig
    pub rest : Rest

  -- the loop over the devices, which returns at the first ID that does not parse
  unfoldable pub device_configs : DeviceRegistrations → Result (List DeviceConfig)
  device_configs [] = ok []
  device_configs (d ∷ ds) = elim (device_id_from_string d.id) [
    | err e ↦ err e
    | ok id ↦ elim (device_configs ds) [
      | err e ↦ err e
      | ok devs ↦ ok (
          record {
            device_id = id;
            name = d.id;
            addresses = (codes "tcp://" ++ d.ip ++ b':' ∷ itoa d.port) ∷ [];
          }
          ∷ devs)
    ]
  ]

  abbrev pub ids : List DeviceConfig → List DeviceId
  ids [] = []
  ids (d ∷ ds) = d.device_id ∷ ids ds

  abbrev folder_type : Bool → FolderType
  folder_type true = read_only
  folder_type false = read_write

  -- "Update config"
  unfoldable pub configure : Service → Rest → List DeviceConfig → Configuration
  configure s rest devs =
      let c = s.config in
      record {
        gui_address = b':' ∷ itoa c.http_port;
        gui_use_tls = false;
        gui_api_key = s.api_key;
        gui_user = c.user;
        gui_password = c.password;
        listen_addresses = (codes "tcp://:" ++ itoa c.sync_port) ∷ [];
        global_ann_enabled = false;
        global_ann_servers = [];
        local_ann_enabled = false;
        nat_enabled = false;
        relays_enabled = false;
        start_browser = false;
        ur_accepted = negsuc 0;
        devices = devs;
        folders =
            record {
              id = folder_id;
              label = folder_label;
              raw_path = c.sync_dir;
              kind = folder_type c.master;
              rescan_interval = c.rescan_interval;
              devices = ids devs;
            }
            ∷ [];
        rest = rest;
      }

-- What the service does to syncthing: its calls, and the state behind them with an error or none.
pub record Calls (y : Syncthing) : Type 0 where
  pub set_config : y.State → Configuration y → y.State × Option Text
  pub restart : y.State → y.State × Option Text

-- runWatcher under watcherRunOnce: a watcher that does not run is started
unfoldable pub run_watcher : Option Bool → Option Bool
run_watcher none = none
run_watcher (some running) = some true

module _ (y : Syncthing) (calls : Calls y) where
  -- the end of a successful update
  unfoldable pub record_update : Text → Service → Service
  record_update devices s = record s { last_devices = devices; watcher = run_watcher s.watcher }

  abbrev pub after_restart :
      Text → Service → y.State × Option Text → Service × y.State × Option Text
  after_restart devices s (st, some e) = (s, st, some e)
  after_restart devices s (st, none) = (record_update devices s, y.wait_in_sync st, none)

  abbrev pub after_set : Text → Service → y.State × Option Text → Service × y.State × Option Text
  after_set devices s (st, some e) = (s, st, some e)
  after_set devices s (st, none) = after_restart devices s (calls.restart st)

  -- "Update config" behind the comparison with the last devices
  abbrev pub store :
      Text
      → Service
      → y.State
      → y.Rest
      → Result (List (DeviceConfig y))
      → Service × y.State × Option Text
  store devices s st rest (err e) = (s, st, some e)
  store devices s st rest (ok devs) =
      after_set devices s (calls.set_config st (configure y s rest devs))

  abbrev pub with_devices :
      Service → y.State → y.Rest → Result DeviceRegistrations → Service × y.State × Option Text
  with_devices s st rest (err e) = (s, st, some e)
  with_devices s st rest (ok ds) =
      if text_eq (list_full_string ds) s.last_devices
      then (s, st, none)
      else store (list_full_string ds) s st rest (device_configs y ds)

  abbrev pub with_config :
      Service
      → y.State
      → Result DeviceRegistrations
      → Result y.Rest
      → Service × y.State × Option Text
  with_config s st found (err e) = (s, st, some e)
  with_config s st found (ok rest) = with_devices s st rest found

  -- updateSyncthing, on what the backend's Get returns
  unfoldable pub update_syncthing :
      Result DeviceRegistrations → Service → y.State → Service × y.State × Option Text
  unfolding record_update run_watcher configure device_configs
  update_syncthing found s st = with_config s st found (y.read st)
