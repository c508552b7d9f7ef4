-- ===== src/Examples/Started.antt =====
-- Two instances that main starts on one etcd, and what the second finds.
use correlation.Base.{codes, List, [], ◌∷◌, ◌≡◌, refl, arith, err, ok, text_eq}
use correlation.Strings.{split, join}
use correlation.Strconv.{itoa, atoi}
use correlation.Devices.{DeviceRegistrations, list_full_string}
use correlation.Address.{announce_address, join_host_port, parse_device_info}
use correlation.Etcd.{Node, announce, update_announce, get_devices, new_etcd_backend}
use correlation.Paths.{path_join}
use correlation.Announced.{update_config_from_docker}
use correlation.Service.{with_defaults, new_service, check_input, generate_config}
use correlation.Service.Update.{update_syncthing}
use correlation.Service.Startup.{wait_and_get_local_device_id}
use correlation.Service.Discovery.{own_device, announce_me, run}
use correlation.Service.Discovery.Found.{Lists}
use correlation.Main.{GlobalOptions, parse_arguments, use_kubernetes, set_log_levels}
use correlation.Main.Prepare.{Prepared, cmd_main_run}
use correlation.Main.Exit.{or_exit}
use correlation.Main.Start.{Launch, Started, World, chosen, chosen-IsRegistry, main_run, Publishes}
use correlation.Main.Start.Found.{IsGroup, main_run_finds}
use correlation.Examples.Etcd.{nodes, nodes-KeepsKeys, ab-IsName, ab-IsShown}
use correlation.Examples.K8s.{pods, pods-KeepsPods}
use correlation.Examples.Service.{counting, calls}
use correlation.Examples.Discovery.{attempts}
use correlation.Examples.Main.{outside, bare, flags, no_url, levels, prepared}

abbrev pub sleep : pods.State → pods.State
sleep c = c

abbrev pub launch : Launch pods
launch = record {
  outside = outside;
  environment = bare;
  namespace_file = err (codes "none");
  parse_url = no_url;
  flags = flags;
  attempts = attempts;
}

abbrev pub empty : World nodes pods sleep
empty = ([], (0, []))

abbrev pub started : Started nodes pods sleep counting calls
started = record {
  levels = levels;
  prepared = prepared;
  running =
      run (chosen nodes pods sleep) counting calls attempts prepared.service 7 prepared.backend
        empty;
}

starts : main_run nodes pods sleep counting calls launch 7 empty ≡ ok started
unfolding main_run cmd_main_run or_exit set_log_levels parse_arguments use_kubernetes
    new_etcd_backend update_config_from_docker new_service with_defaults check_input generate_config
    itoa
starts = refl

-- a second instance, at another address
abbrev pub other_flags : GlobalOptions
other_flags = record flags {
  service_config = record flags.service_config { announce_ip = codes "10.0.0.2" };
}

abbrev pub other : Launch pods
other = record launch { flags = other_flags }

abbrev pub other_prepared : Prepared nodes pods
other_prepared = record {
  backend = prepared.backend;
  service = record prepared.service { config = with_defaults other_flags.service_config };
}

abbrev other_started : Started nodes pods sleep counting calls
other_started = record {
  levels = levels;
  prepared = other_prepared;
  running =
      run (chosen nodes pods sleep) counting calls attempts other_prepared.service 7
        other_prepared.backend empty;
}

other_starts : main_run nodes pods sleep counting calls other 7 empty ≡ ok other_started
unfolding main_run cmd_main_run or_exit set_log_levels parse_arguments use_kubernetes
    new_etcd_backend update_config_from_docker new_service with_defaults check_input generate_config
    itoa
other_starts = refl

pub group : IsGroup launch other
unfolding parse_arguments
group = record {
  parsed = flags;
  parsed' = other_flags;
  reads = refl;
  reads' = refl;
  namespace = refl;
  path = refl;
  kind = refl;
}

-- the etcd backend of the first instance when it has announced its device, and the store behind a round
abbrev pub store : List Node
store = record { key = codes "/c/AB"; value = codes "10.0.0.1:5808" } ∷ []

published :
    Publishes nodes pods sleep
      (own_device attempts prepared.service)
      prepared.backend
      empty
      (started.running.receiver, started.running.world)
      (store, (0, []))
unfolding run announce_me wait_and_get_local_device_id with_defaults update_announce announce
    announce_address join_host_port itoa path_join split join text_eq
published = record {
  name = ab-IsName;
  shown = ab-IsShown;
  plain = (ground arith, ground arith);
  fits = omega arith;
  refreshed = refl;
}

main_run_finds_example :
    (ds : DeviceRegistrations) × (((chosen nodes pods sleep).get other_prepared.backend
        (store, (0, []))).1
      ≡ ok ds)
    × Lists
        (chosen nodes pods sleep)
        (chosen-IsRegistry nodes pods sleep nodes-KeepsKeys pods-KeepsPods)
        counting
        calls
        (own_device attempts prepared.service)
        other_prepared.service
        7
        ds
unfolding update_syncthing get_devices text_eq list_full_string parse_device_info split itoa atoi
    with_defaults
main_run_finds_example =
    main_run_finds nodes pods sleep counting calls nodes-KeepsKeys pods-KeepsPods launch other 7 7 7
      empty empty (store, (0, [])) started other_started other_prepared.backend group starts
      other_starts published refl refl
