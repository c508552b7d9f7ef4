-- ===== src/Examples/Service.antt =====
-- A service, its syncthing, and the events that it reports.
use correlation.Base.{
  Any, err, All, ℕ, suc, ◌-◌, ◌^◌, Text, codes, List, [], ◌∷◌, ◌≡◌, ◌≢◌, ◌⊎◌, refl, arith, true,
  false, Option, none, some, Result, ok, pos, text_eq, lookup,
}
use correlation.Devices.{DeviceRegistrations, list_full_string}
use correlation.Tracker.{StEvent}
use correlation.StEvents.{Event, object, text, going, goes_on, round, events, item_of}
use correlation.StEvents.Safety.{IsWellFormed, SaysAll, last_of, round_goes_on}
use correlation.Service.{ServiceConfig, Service, with_defaults}
use correlation.Service.Update.{Syncthing, Calls, DeviceConfig, update_syncthing}
use correlation.Service.Update.Effects.{update_settles, Performed}
use correlation.Service.Loop.{LoopState, trigger_update, trigger, begin, finish, step, run}
use correlation.Service.Loop.Triggers.{trigger_not_lost, updates_end}
use correlation.Service.Startup.{
  wait_and_get_local_device_id, HasFailed, wait_and_get_local_device_id_lem,
}
use correlation.Announced.{PortBinding, Network, docker_port}
use correlation.Examples.Values.{first, second, local_ip}

abbrev pub given : ServiceConfig
given = record {
  sync_port = pos 5808;
  http_port = pos 5812;
  docker_endpoint = codes "d";
  container_id = codes "c";
  announce_ip = local_ip;
  announce_port = pos 0;
  syncthing_path = [];
  sync_dir = codes "/s";
  config_dir = codes "/h";
  master = false;
  rescan_interval = 30;
  no_watcher = false;
  user = [];
  password = [];
}

-- every command succeeds
abbrev pub run_command : Text → List Text → Option Text
run_command path args = none

abbrev pub service : Service
service = record {
  config = with_defaults given;
  api_key = codes "k";
  endpoint = codes "http://127.0.0.1:5812";
  last_devices = [];
  watcher = some false;
}

-- a syncthing that counts its configurations
abbrev pub counting : Syncthing
counting = record {
  State = ℕ;
  Rest = ℕ;
  DeviceId = Text;
  device_id_from_string = λ s. ok s;
  read = λ n. ok n;
  wait_in_sync = λ n. n;
}

abbrev pub calls : Calls counting
calls = record { set_config = λ n c. (suc n, none); restart = λ n. (n, none) }

abbrev pub two : DeviceRegistrations
two = first ∷ second ∷ []

abbrev pub updated : Service
updated = record service { last_devices = list_full_string two }

update_settles_example :
    Performed counting calls (ok two) service (update_syncthing counting calls (ok two) service 7)
update_settles_example = update_settles counting calls (ok two) service 7

abbrev pub configured : List (DeviceConfig counting)
configured =
    record { device_id = first.id; name = first.id; addresses = codes "tcp://10.0.0.1:22000" ∷ [] }
    ∷ []

-- an update with the counter at 3 runs
abbrev busy : LoopState
busy = record { change_counter = 3; signal_counter = 0; last_change_counter = 2; updating = some 3 }

trigger_not_lost_example :
    (step begin (run (finish true ∷ []) (trigger_update busy))).updating
    ≡ some (run (finish true ∷ []) (trigger_update busy)).change_counter
unfolding run step trigger_update
trigger_not_lost_example =
    trigger_not_lost (finish true ∷ []) busy
      (record { last_le = omega arith; updating_le = λ n e. ground arith }) (omega arith) (refl, tt)
      refl refl

-- the counter has just wrapped around
abbrev wrapped : LoopState
wrapped = record {
  change_counter = 0;
  signal_counter = 0;
  last_change_counter = 2 ^ 32 - 1;
  updating = none;
}

updates_end_example : (run (trigger ∷ begin ∷ finish true ∷ begin ∷ []) wrapped).updating ≡ none
updates_end_example =
    updates_end (trigger ∷ begin ∷ finish true ∷ begin ∷ []) wrapped refl (omega arith) refl

abbrev binding : PortBinding
binding = record { host_ip = codes "0.0.0.0"; host_port = codes "40" }

abbrev pub inspect : Text → Text → Result Network
inspect endpoint container = ok (some ((docker_port given, binding ∷ []) ∷ []))

abbrev started : Event
started = record {
  id = 4;
  kind = codes "ItemStarted";
  payload = object ((codes "item", text (codes "a")) ∷ []);
}

started-IsWellFormed : IsWellFormed started
unfolding item_of lookup text_eq
started-IsWellFormed = record { named = λ h. (codes "a", (_, refl, refl)) }

round_goes_on_example :
    (sent : List StEvent) × (SaysAll (started ∷ []) sent)
    × (round 0 false false (events (started ∷ [])) ≡ going (goes_on (last_of started []) sent))
round_goes_on_example = round_goes_on 0 false started [] (started-IsWellFormed, tt)

-- syncthing answers at the second attempt
abbrev attempts : List (Result Text)
attempts = err (codes "refused") ∷ ok (codes "AB") ∷ []

wait_and_get_local_device_id_lem_example :
    ((wait_and_get_local_device_id attempts ≢ [])
      × Any (λ r. r ≡ ok (wait_and_get_local_device_id attempts)) attempts)
    ⊎ ((wait_and_get_local_device_id attempts ≡ []) × All HasFailed attempts)
wait_and_get_local_device_id_lem_example = wait_and_get_local_device_id_lem attempts
