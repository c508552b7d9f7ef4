-- ===== src/Service/Converge/Configured.antt =====
-- What syncthing is configured for when a service has come to rest.
use correlation.Base.{
  ℕ, ◌+◌, ◌<◌, ◌^◌, ◌≡◌, ◌≢◌, inl, inr, refl, sym, ◌∙◌, Bool, Option, none, some, List, [], ◌∷◌,
  All, Perm, Result, ok,
}
use mathlib.Core.Path.{subst}
use correlation.Devices.{DeviceRegistrations, list_full_string}
use correlation.Devices.Change.{list_full_string_iff_perm}
use correlation.Devices.Change.Parts.{IsTame}
use correlation.Service.{Service}
use correlation.Service.Update.{Syncthing, Calls, update_syncthing}
use correlation.Service.Update.Devices.{MirrorsAll}
use correlation.Service.Update.Mirrored.{Stores, AllTame, Mirrored, IsClean, update-Mirrored}
use correlation.Service.Converge.{
  System, Event, change, notice, signal, begin, update, finish, perform, ended, on_update, step,
  run, start,
}
use correlation.Service.Converge.Synced.{notices}
use correlation.Service.Converge.Idle.{IsIdle, idle_fresh}

module _ (y : Syncthing) (calls : Calls y) (laws : Stores y calls) where
  -- the devices of a change have a text that can be taken apart
  abbrev pub IsTameEvent : Event y calls → Type 0
  IsTameEvent (change devices) = AllTame devices
  IsTameEvent _ = Unit

  -- The update that an event makes, if it makes one, succeeds or leaves syncthing as it was.
  abbrev CleanUpdate : Option ℕ → Option Bool → System y calls → Type 0
  CleanUpdate none q s = Unit
  CleanUpdate (some n) (some b) s = Unit
  CleanUpdate (some n) none s =
      IsClean y s.state (update_syncthing y calls s.devices s.service s.state)

  abbrev CleanStep : Event y calls → System y calls → Type 0
  CleanStep update s = CleanUpdate s.loop.updating s.outcome s
  CleanStep _ s = Unit

  -- Each update of a run that fails leaves syncthing as it was.
  abbrev pub CleanRun : List (Event y calls) → System y calls → Type 0
  CleanRun [] s = Unit
  CleanRun (e ∷ es) s = CleanStep e s × CleanRun es (step y calls e s)

  record IsConfigured (s : System y calls) : Type 0 where
    tame : AllTame s.devices
    mirrored : Mirrored y calls laws (s.service, s.state)

  perform-IsConfigured :
      (s : System y calls)
      → IsClean y s.state (update_syncthing y calls s.devices s.service s.state)
      → IsConfigured s
      → IsConfigured (perform y calls s)
  unfolding perform
  perform-IsConfigured s clean h = record {
    tame = h.tame;
    mirrored = update-Mirrored y calls laws s.devices s.service s.state h.tame clean h.mirrored;
  }

  on_update-IsConfigured :
      (o : Option ℕ) (q : Option Bool) (s : System y calls)
      → CleanUpdate o q s
      → IsConfigured s
      → IsConfigured (on_update y calls o q s)
  on_update-IsConfigured none q s clean h = h
  on_update-IsConfigured (some n) (some b) s clean h = h
  on_update-IsConfigured (some n) none s clean h = perform-IsConfigured s clean h

  ended-IsConfigured :
      (q : Option Bool) (s : System y calls) → IsConfigured s → IsConfigured (ended y calls q s)
  ended-IsConfigured none s h = h
  ended-IsConfigured (some b) s h = record { tame = h.tame; mirrored = h.mirrored }

  step-IsConfigured :
      (e : Event y calls) (s : System y calls)
      → IsTameEvent e
      → CleanStep e s
      → IsConfigured s
      → IsConfigured (step y calls e s)
  unfolding step
  step-IsConfigured (change devices) s tame clean h = record { tame = tame; mirrored = h.mirrored }
  step-IsConfigured notice s tame clean h = record { tame = h.tame; mirrored = h.mirrored }
  step-IsConfigured signal s tame clean h = record { tame = h.tame; mirrored = h.mirrored }
  step-IsConfigured begin s tame clean h = record { tame = h.tame; mirrored = h.mirrored }
  step-IsConfigured update s tame clean h =
      on_update-IsConfigured s.loop.updating s.outcome s clean h
  step-IsConfigured finish s tame clean h = ended-IsConfigured s.outcome s h

  run-IsConfigured :
      (es : List (Event y calls)) (s : System y calls)
      → All IsTameEvent es
      → CleanRun es s
      → IsConfigured s
      → IsConfigured (run y calls es s)
  unfolding run
  run-IsConfigured [] s tame clean h = h
  run-IsConfigured (e ∷ es) s (here, there) (first, rest) h =
      run-IsConfigured es (step y calls e s) there rest (step-IsConfigured e s here first h)

  start-IsConfigured :
      (service : Service) (state : y.State) (devices : Result DeviceRegistrations)
      → service.last_devices ≡ []
      → AllTame devices
      → IsConfigured (start y calls service state devices)
  unfolding start
  start-IsConfigured service state devices fresh tame = record { tame = tame; mirrored = inl fresh }

  full_fingerprint : (ds : DeviceRegistrations) → ds ≢ [] → list_full_string ds ≢ []
  unfolding list_full_string
  full_fingerprint [] full h = full refl
  full_fingerprint (d ∷ ds) full h = cc

  -- the devices of the last update are those that the backend has now
  same_devices :
      (s : System y calls) (ds : DeviceRegistrations)
      → IsConfigured s
      → s.devices ≡ ok ds
      → ds ≢ []
      → s.service.last_devices ≡ list_full_string ds
      → (es : DeviceRegistrations) × Perm es ds × MirrorsAll y es (laws.current s.state)
  same_devices s ds h now full last = elim h.mirrored [
    | inl fresh ↦ absurd (full_fingerprint ds full (sym last ∙ fresh))
    | inr (es, text, tame, mirrors) ↦
        let tame_now : All IsTame ds = subst AllTame now h.tame in
        (es, (list_full_string_iff_perm es ds tame tame_now).0 (sym text ∙ last), mirrors)
  ]

  -- Let the devices that the backend returns have IDs and addresses without a comma, addresses without a
  -- dash and ports that are not negative, and let syncthing keep the configuration that is set. Let every
  -- update that fails do so before it changes syncthing: neither a SetConfig that has had an effect nor a
  -- restart that follows it fails. Whatever happens in whatever order to a new service, with fewer than 2^32 - 2
  -- returns of Watch: when it has come to rest, and the backend has devices, syncthing's configuration has
  -- exactly these, each with its address.
  pub idle_configured :
      (es : List (Event y calls)) (service : Service) (state : y.State)
      (devices : Result DeviceRegistrations) (ds : DeviceRegistrations)
      → service.last_devices ≡ []
      → AllTame devices
      → All IsTameEvent es
      → CleanRun es (start y calls service state devices)
      → 2 + notices y calls es < 2 ^ 32
      → IsIdle y calls (run y calls es (start y calls service state devices))
      → (run y calls es (start y calls service state devices)).devices ≡ ok ds
      → ds ≢ []
      → (ds' : DeviceRegistrations) × Perm ds' ds
        × MirrorsAll y ds'
            (laws.current (run y calls es (start y calls service state devices)).state)
  idle_configured es service state devices ds fresh tame tame_events clean room idle now full =
      same_devices (run y calls es (start y calls service state devices)) ds
        (run-IsConfigured es _ tame_events clean
          (start-IsConfigured service state devices fresh tame))
        now full (idle_fresh y calls es service state devices ds room idle now)
