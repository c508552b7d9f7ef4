-- ===== src/Examples/Configured.antt =====
-- A syncthing that keeps the devices of its configuration, and a service that comes to rest on it.
use correlation.Base.{
  ℕ, Text, List, [], ◌∷◌, ◌++◌, codes, ◌≡◌, inl, refl, sym, ap, ◌∙◌, arith, Option, none, some, ok,
  map, Perm, text_eq, text_le, sort_strings,
}
use correlation.Devices.{DeviceRegistrations, full_string, list_full_string}
use correlation.Strings.{join}
use correlation.Strconv.{itoa}
use correlation.Service.{Service}
use correlation.Service.Update.{
  Syncthing, Calls, DeviceConfig, Configuration, update_syncthing, device_configs,
}
use correlation.Service.Update.Devices.{MirrorsAll}
use correlation.Service.Update.Mirrored.{Stores}
use correlation.Service.Update.Stale.{stale_config}
use correlation.Service.Loop
use correlation.Service.Converge.{System, Event, change, notice, begin, update, finish, run, start}
use correlation.Service.Converge.Idle.{IsIdle}
use correlation.Service.Converge.Configured.{CleanRun, idle_configured}
use correlation.Examples.Values.{first, differs}
use correlation.Examples.Devices.{first-IsTame, second-IsTame}
use correlation.Examples.Service.{service, two}

abbrev pub Entry : Type 0
Entry = Text × Text × List Text

abbrev pub keeping : Syncthing
keeping = record {
  State = List Entry;
  Rest = ℕ;
  DeviceId = Text;
  device_id_from_string = λ s. ok s;
  read = λ st. ok 0;
  wait_in_sync = λ st. st;
}

abbrev pub entry_of : DeviceConfig keeping → Entry
entry_of c = (c.device_id, c.name, c.addresses)

abbrev pub config_of : Entry → DeviceConfig keeping
config_of (id, name, addresses) = record { device_id = id; name = name; addresses = addresses }

entry-config : (cs : List (DeviceConfig keeping)) → map config_of (map entry_of cs) ≡ cs
entry-config [] = refl
entry-config (c ∷ cs) = ap (λ l. c ∷ l) (entry-config cs)

abbrev pub keeping_calls : Calls keeping
keeping_calls = record {
  set_config = λ st c. (map entry_of c.devices, none);
  restart = λ st. (st, none);
}

pub stored :
    (st' : List Entry) (c : Configuration keeping)
    → ◌≡◌ {A = List Entry × Option Text} (map entry_of c.devices, none) (st', none)
    → map config_of st' ≡ c.devices
stored st' c h =
    ap (λ (p : List Entry × Option Text). map config_of p.0) (sym h) ∙ entry-config c.devices

abbrev pub keeping-Stores : Stores keeping keeping_calls
keeping-Stores = record {
  current = λ st. map config_of st;
  set_ok = λ st st' c h. stored st' c h;
  restart_keeps = λ st. refl;
  wait_keeps = λ st. refl;
}

abbrev one : DeviceRegistrations
one = first ∷ []

abbrev late : List (Event keeping keeping_calls)
late = begin ∷ update ∷ change (ok one) ∷ finish ∷ notice ∷ begin ∷ update ∷ finish ∷ []

abbrev settled : System keeping keeping_calls
settled = run keeping keeping_calls late (start keeping keeping_calls service [] (ok two))

settled-IsIdle : IsIdle keeping keeping_calls settled
unfolding run start Loop.step update_syncthing device_configs text_eq list_full_string join
    sort_strings full_string text_le itoa
settled-IsIdle = record { seen = refl; free = refl; acted = refl }

-- both updates succeed
late-CleanRun :
    CleanRun keeping keeping_calls keeping-Stores late
      (start keeping keeping_calls service [] (ok two))
unfolding run Loop.step start update_syncthing device_configs text_eq list_full_string join
    sort_strings full_string text_le itoa
late-CleanRun = (tt, (inl refl, (tt, (tt, (tt, (tt, (inl refl, (tt, tt))))))))

idle_configured_example :
    (ds : DeviceRegistrations) × Perm ds one
    × MirrorsAll keeping ds (keeping-Stores.current settled.state)
unfolding run Loop.step start update_syncthing device_configs text_eq list_full_string join
    sort_strings full_string text_le itoa
idle_configured_example =
    idle_configured keeping keeping_calls keeping-Stores late service [] (ok two) one refl
      (first-IsTame, (second-IsTame, tt))
      (tt, (tt, ((first-IsTame, tt), (tt, (tt, (tt, (tt, (tt, tt)))))))) late-CleanRun (omega arith)
      settled-IsIdle refl (λ h. cc)

-- a syncthing whose restart fails
abbrev stuck : Calls keeping
stuck = record {
  set_config = λ st c. (map entry_of c.devices, none);
  restart = λ st. (st, some (codes "no"));
}

abbrev stuck-Stores : Stores keeping stuck
stuck-Stores = record {
  current = λ st. map config_of st;
  set_ok = λ st st' c h. stored st' c h;
  restart_keeps = λ st. refl;
  wait_keeps = λ st. refl;
}

abbrev updated : Service
updated = record service { last_devices = list_full_string two }

abbrev one_config : List (DeviceConfig keeping)
one_config =
    record {
      device_id = first.id;
      name = first.id;
      addresses = (codes "tcp://" ++ first.ip ++ b':' ∷ itoa first.port) ∷ [];
    }
    ∷ []

stale_config_example :
    (update_syncthing keeping stuck (ok one) updated []
      ≡ (updated, map entry_of one_config, some (codes "no")))
    × (update_syncthing keeping stuck (ok two) updated (map entry_of one_config)
        ≡ (updated, map entry_of one_config, none))
    × (stuck-Stores.current (map entry_of one_config) ≡ one_config)
unfolding text_eq list_full_string join sort_strings full_string text_le itoa device_configs
    correlation.Service.Update.configure
stale_config_example =
    stale_config keeping stuck stuck-Stores updated [] (map entry_of one_config)
      (map entry_of one_config) 0 0 one two one_config (codes "no") refl refl
      (differs (list_full_string one) (list_full_string two) refl) refl refl refl refl
