-- ===== src/Examples/Converge.antt =====
-- A service with its loops, and a syncthing whose restart fails.
use correlation.Base.{
  ◌≢◌, ◌⊎◌, List, [], ◌∷◌, ◌≡◌, refl, arith, none, ok, text_eq, text_le, sort_strings,
}
use correlation.Devices.{DeviceRegistrations, full_string, list_full_string}
use correlation.Strings.{join}
use correlation.Strconv.{itoa}
use correlation.Service.Update.{update_syncthing}
use correlation.Devices.Group.{TameDevices, group, fingerprint}
use correlation.Service.Update.Groups.{update_by_group, Writes}
use correlation.Examples.Devices.{first-IsTame, second-IsTame}
use correlation.Service.Converge.{System, Event, change, notice, begin, update, finish, run, start}
use correlation.Service.Converge.Idle.{IsIdle, idle_fresh, round-IsIdle, start-IsSynced}
use correlation.Service.Loop.{LoopState, trigger_update, monitor_round}
use correlation.Service.Loop
use correlation.Examples.Values.{second, first}
use correlation.Examples.Service.{service, counting, calls, two, updated}

abbrev one : DeviceRegistrations
one = first ∷ []

-- the devices change while the first round runs
abbrev late : List (Event counting calls)
late = begin ∷ update ∷ change (ok one) ∷ finish ∷ notice ∷ begin ∷ update ∷ finish ∷ []

abbrev settled : System counting calls
settled = run counting calls late (start counting calls service 7 (ok two))

settled-IsIdle : IsIdle counting calls settled
unfolding run start Loop.step update_syncthing text_eq list_full_string join sort_strings
    full_string text_le itoa
settled-IsIdle = record { seen = refl; free = refl; acted = refl }

idle_fresh_example : settled.service.last_devices ≡ list_full_string one
unfolding run Loop.step start update_syncthing text_eq list_full_string join sort_strings
    full_string text_le itoa
idle_fresh_example =
    idle_fresh counting calls late service 7 (ok two) one (omega arith) settled-IsIdle refl

round-IsIdle_example : IsIdle counting calls (
    run counting calls
      (notice ∷ begin ∷ update ∷ finish ∷ [])
      (start counting calls service 7 (ok two)))
unfolding start update_syncthing text_eq list_full_string
round-IsIdle_example =
    round-IsIdle counting calls (start counting calls service 7 (ok two))
      (start-IsSynced counting calls service 7 (ok two)) refl refl (omega arith) refl

abbrev both : TameDevices
both = (two, (first-IsTame, (second-IsTame, tt)))

abbrev swapped : TameDevices
swapped = (second ∷ first ∷ [], (second-IsTame, (first-IsTame, tt)))

update_by_group_example :
    ((group swapped ≡ group both)
      × (update_syncthing counting calls (ok swapped.0) updated 7 ≡ (updated, 7, none)))
    ⊎ ((group swapped ≢ group both)
        × Writes counting calls updated 7 7 swapped.0
            (update_syncthing counting calls (ok swapped.0) updated 7))
unfolding fingerprint
update_by_group_example = update_by_group counting calls updated 7 7 swapped both refl refl
