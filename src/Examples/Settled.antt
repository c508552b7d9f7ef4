-- ===== src/Examples/Settled.antt =====
-- A peer on a syncthing that keeps its configuration, from its start until it has come to rest.
use correlation.Base.{
  codes, List, [], ◌∷◌, ◌≡◌, refl, inl, arith, Any, ok, text_eq, text_le, sort_strings, pos,
}
use correlation.Strings.{split, join}
use correlation.Strconv.{itoa, atoi}
use correlation.Paths.{path_join, base}
use correlation.Devices.{DeviceRegistration, full_string, list_full_string}
use correlation.Devices.Change.Parts.{IsTame}
use correlation.Address.{announce_address, join_host_port, parse_device_info}
use correlation.Announced.{update_config_from_docker}
use correlation.Etcd.{announce, update_announce, get_devices, new_etcd_backend}
use correlation.Service.{with_defaults, new_service, check_input, generate_config}
use correlation.Service.Update.{update_syncthing, device_configs}
use correlation.Service.Update.Devices.{Mirrors}
use correlation.Service.Startup.{wait_and_get_local_device_id}
use correlation.Service.Discovery.{own_device, announce_me}
use correlation.Service.Discovery
use correlation.Service.Loop
use correlation.Service.Converge.{System, Event, change, notice, begin, update, finish, run, start}
use correlation.Service.Converge.Idle.{IsIdle}
use correlation.Service.Converge.Configured.{CleanRun}
use correlation.Main.{parse_arguments, use_kubernetes, set_log_levels}
use correlation.Main.Prepare.{Prepared, cmd_main_run}
use correlation.Main.Exit.{or_exit}
use correlation.Main.Start.{Started, chosen, main_run, Publishes}
use correlation.Main.Start.Settled.{main_run_settles}
use correlation.Examples.Values.{local_ip}
use correlation.Examples.Etcd.{nodes, nodes-KeepsKeys, ab-IsName, ab-IsShown}
use correlation.Examples.K8s.{pods, pods-KeepsPods}
use correlation.Examples.Discovery.{attempts}
use correlation.Examples.Main.{levels, prepared}
use correlation.Examples.Configured.{keeping, keeping_calls, keeping-Stores}
use correlation.Examples.Started.{sleep, launch, other, other_prepared, empty, group, store}

abbrev started_with : Prepared nodes pods → Started nodes pods sleep keeping keeping_calls
started_with p = record {
  levels = levels;
  prepared = p;
  running =
      Discovery.run (chosen nodes pods sleep) keeping keeping_calls attempts p.service [] p.backend
        empty;
}

starts :
    main_run nodes pods sleep keeping keeping_calls launch [] empty ≡ ok (started_with prepared)
unfolding main_run cmd_main_run or_exit set_log_levels parse_arguments use_kubernetes
    new_etcd_backend update_config_from_docker new_service with_defaults check_input generate_config
    itoa
starts = refl

other_starts :
    main_run nodes pods sleep keeping keeping_calls other [] empty
    ≡ ok (started_with other_prepared)
unfolding main_run cmd_main_run or_exit set_log_levels parse_arguments use_kubernetes
    new_etcd_backend update_config_from_docker new_service with_defaults check_input generate_config
    itoa
other_starts = refl

published :
    Publishes nodes pods sleep
      (own_device attempts prepared.service)
      prepared.backend
      empty
      ((started_with prepared).running.receiver, (started_with prepared).running.world)
      (store, (0, []))
unfolding Discovery.run announce_me wait_and_get_local_device_id with_defaults update_announce
    announce announce_address join_host_port itoa path_join split join text_eq
published = record {
  name = ab-IsName;
  shown = ab-IsShown;
  plain = (ground arith, ground arith);
  fits = omega arith;
  refreshed = refl;
}

abbrev device : DeviceRegistration
device = record { id = codes "AB"; ip = local_ip; port = pos 5808 }

device-IsTame : IsTame device
device-IsTame = record {
  plain = record { number = 5808; port_eq = refl; ip_Lacks = ground arith };
  id_Lacks = ground arith;
  ip_Lacks = ground arith;
}

-- the device comes while the first round runs
abbrev events : List (Event keeping keeping_calls)
events = begin ∷ update ∷ change (ok (device ∷ [])) ∷ finish ∷ notice ∷ begin ∷ update ∷ finish ∷ []

abbrev settled : System keeping keeping_calls
settled = run keeping keeping_calls events (started_with other_prepared).running.system

settled-IsIdle : IsIdle keeping keeping_calls settled
unfolding Discovery.run run start Loop.step update_syncthing device_configs text_eq list_full_string
    join sort_strings full_string text_le itoa announce_me get_devices
settled-IsIdle = record { seen = refl; free = refl; acted = refl }

-- both updates succeed
events-CleanRun :
    CleanRun keeping keeping_calls keeping-Stores events
      (started_with other_prepared).running.system
unfolding Discovery.run run start Loop.step update_syncthing device_configs text_eq list_full_string
    join sort_strings full_string text_le itoa announce_me get_devices
events-CleanRun = (tt, (inl refl, (tt, (tt, (tt, (tt, (inl refl, (tt, tt))))))))

main_run_settles_example :
    ∥ Any
      (Mirrors keeping (own_device attempts prepared.service))
      (keeping-Stores.current settled.state) ∥₁
unfolding Discovery.run announce_me start run get_devices parse_device_info split itoa atoi
    with_defaults path_join join base text_eq announce Loop.step update_syncthing list_full_string
main_run_settles_example =
    main_run_settles keeping keeping_calls keeping-Stores nodes pods sleep nodes-KeepsKeys
      pods-KeepsPods launch other [] [] empty empty (store, (0, [])) (started_with prepared)
      (started_with other_prepared) events (started_with other_prepared).running.receiver group
      starts other_starts published refl tt
      (tt, (tt, ((device-IsTame, tt), (tt, (tt, (tt, (tt, (tt, tt)))))))) events-CleanRun
      (omega arith) settled-IsIdle refl
