-- ===== src/Service/Update/Effects.antt =====
-- When syncthing is reconfigured, and what an update leaves in the service.
use correlation.Base.{
  Text, List, ◌≡◌, refl, sym, ◌∙◌, Bool, true, false, Option, none, some, Result, ok, err, Perm,
  text_eq, text_eq_iff, if◌then◌else◌, inl, inr, ◌⊎◌, Result-cases,
}
use correlation.Devices.{DeviceRegistrations, list_full_string}
use correlation.Devices.Change.{list_full_string_of_perm}
use correlation.Service.{Service}
use correlation.Service.Update.{
  Syncthing, Calls, DeviceConfig, after_restart, after_set, store, with_config, configure,
  device_configs, record_update, update_syncthing,
}

module _ (y : Syncthing) (calls : Calls y) where
  -- If the backend returns the devices of the last update in any order, and the configuration can be
  -- read, nothing is written to syncthing and the service stays as it is.
  pub update_unchanged :
      (s : Service) (st : y.State) (rest : y.Rest) (ds es : DeviceRegistrations)
      → y.read st ≡ ok rest
      → s.last_devices ≡ list_full_string es
      → Perm ds es
      → update_syncthing y calls (ok ds) s st ≡ (s, st, none)
  unfolding update_syncthing
  update_unchanged s st rest ds es readable last p = rw (
    readable,
    (text_eq_iff (list_full_string ds) s.last_devices).1
        (list_full_string_of_perm ds es p ∙ sym last),
  )

  -- An update that fails leaves the service as it was, so that the next round tries again. One that
  -- succeeds has taken over the devices.
  abbrev Settled : Service → Text → Service × y.State × Option Text → Type 0
  Settled s devices r =
      (((e : Text) × (r.2 ≡ some e)) × (r.0 ≡ s))
      ⊎ ((r.2 ≡ none) × (r.0.last_devices ≡ devices) × (r.0.config ≡ s.config))

  after_restart_settles :
      (devices : Text) (s : Service) (p : y.State × Option Text)
      → Settled s devices (after_restart y calls devices s p)
  unfolding record_update
  after_restart_settles devices s (st, some e) = inl ((e, refl), refl)
  after_restart_settles devices s (st, none) = inr (refl, refl, refl)

  after_set_settles :
      (devices : Text) (s : Service) (p : y.State × Option Text)
      → Settled s devices (after_set y calls devices s p)
  after_set_settles devices s (st, some e) = inl ((e, refl), refl)
  after_set_settles devices s (st, none) = after_restart_settles devices s (calls.restart st)

  store_settles :
      (devices : Text) (s : Service) (st : y.State) (rest : y.Rest)
      (r : Result (List (DeviceConfig y)))
      → Settled s devices (store y calls devices s st rest r)
  store_settles devices s st rest (err e) = inl ((e, refl), refl)
  store_settles devices s st rest (ok devs) =
      after_set_settles devices s (calls.set_config st (configure y s rest devs))

  choose_settles :
      (b : Bool) (devices : Text) (s : Service) (st : y.State) (r : Service × y.State × Option Text)
      → (b ≡ true → s.last_devices ≡ devices)
      → Settled s devices r
      → Settled s devices (if b then (s, st, none) else r)
  choose_settles true devices s st r same h = inr (refl, same refl, refl)
  choose_settles false devices s st r same h = h

  with_config_settles :
      (s : Service) (st : y.State) (ds : DeviceRegistrations) (r : Result y.Rest)
      → Settled s (list_full_string ds) (with_config y calls s st (ok ds) r)
  with_config_settles s st ds (err e) = inl ((e, refl), refl)
  with_config_settles s st ds (ok rest) =
      choose_settles (text_eq (list_full_string ds) s.last_devices) (list_full_string ds) s st _
        (λ e. sym ((text_eq_iff (list_full_string ds) s.last_devices).0 e))
        (store_settles (list_full_string ds) s st rest (device_configs y ds))

  -- What an update comes to: it fails and the service is as before, or it succeeds, with the devices that
  -- the backend returned.
  abbrev pub Performed :
      Result DeviceRegistrations → Service → Service × y.State × Option Text → Type 0
  Performed found s r =
      (((e : Text) × (r.2 ≡ some e)) × (r.0 ≡ s))
      ⊎ ((ds : DeviceRegistrations) × (found ≡ ok ds)
          × (r.2 ≡ none)
          × (r.0.last_devices ≡ list_full_string ds)
          × (r.0.config ≡ s.config))

  Performed-of_Settled :
      (ds : DeviceRegistrations) (s : Service) (r : Service × y.State × Option Text)
      → Settled s (list_full_string ds) r
      → Performed (ok ds) s r
  Performed-of_Settled ds s r (inl failed) = inl failed
  Performed-of_Settled ds s r (inr (done, taken, kept)) = inr (ds, refl, done, taken, kept)

  -- Whatever the backend returns and whatever syncthing answers: an update that fails leaves the service
  -- as it was, so that the next round tries again. One that succeeds has got devices from the backend, and
  -- leaves them as the last ones and the configuration of the service as it was.
  pub update_settles :
      (found : Result DeviceRegistrations) (s : Service) (st : y.State)
      → Performed found s (update_syncthing y calls found s st)
  unfolding update_syncthing
  update_settles (ok ds) s st =
      Performed-of_Settled ds s (with_config y calls s st (ok ds) (y.read st))
        (with_config_settles s st ds (y.read st))
  update_settles (err x) s st = elim (Result-cases (y.read st)) [
    | inl (rest, h) ↦ rw h (inl ((x, refl), refl))
    | inr (e, h) ↦ rw h (inl ((e, refl), refl))
  ]
