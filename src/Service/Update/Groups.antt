-- ===== src/Service/Update/Groups.antt =====
-- When an update writes to syncthing, in terms of the group of devices.
use correlation.Base.{
  Text, List, Option, some, err, Result-cases, ◌≡◌, ◌≢◌, ◌⊎◌, inl, inr, refl, sym, ap, ◌∙◌,
  Bool-cases, true, false, none, ok, text_eq, text_eq_iff,
}
use correlation.Devices.{DeviceRegistrations, list_full_string}
use correlation.Devices.Group.{TameDevices, group, fingerprint, fingerprint_injective}
use correlation.Service.{Service}
use correlation.Service.Update.{
  Syncthing, Calls, DeviceConfig, configure, store, after_set, after_restart, record_update,
  run_watcher, device_configs, update_syncthing,
}

fingerprint-group : (a : TameDevices) → fingerprint (group a) ≡ list_full_string a.0
unfolding fingerprint
fingerprint-group a = refl

true-ne-false : true ≢ false
true-ne-false h = cc

module _ (y : Syncthing) (calls : Calls y) where
  -- What a restart comes to, and behind it the end of the update.
  abbrev pub Restarts :
      Text → Service → y.State × Option Text → Service × y.State × Option Text → Type 0
  Restarts devices s p r =
      ((e : Text) × (p.1 ≡ some e) × (r ≡ (s, p.0, some e)))
      ⊎ ((p.1 ≡ none)
          × (r ≡ (
            record s { last_devices = devices; watcher = run_watcher s.watcher },
            y.wait_in_sync p.0,
            none,
          )))

  -- What storing a configuration for some devices comes to: at an ID that does not parse nothing is called.
  -- Otherwise SetConfig is called, and if it succeeds, syncthing is restarted.
  abbrev pub Writes :
      Service → y.State → y.Rest → DeviceRegistrations → Service × y.State × Option Text → Type 0
  Writes s st rest ds r =
      ((e : Text) × (device_configs y ds ≡ err e) × (r ≡ (s, st, some e)))
      ⊎ ((devs : List (DeviceConfig y)) × (device_configs y ds ≡ ok devs)
          × (((e : Text) × ((calls.set_config st (configure y s rest devs)).1 ≡ some e)
                × (r ≡ (s, (calls.set_config st (configure y s rest devs)).0, some e)))
              ⊎ (((calls.set_config st (configure y s rest devs)).1 ≡ none)
                  × Restarts (list_full_string ds) s
                      (calls.restart (calls.set_config st (configure y s rest devs)).0) r)))

  after_restart-Restarts :
      (devices : Text) (s : Service) (p : y.State × Option Text)
      → Restarts devices s p (after_restart y calls devices s p)
  unfolding record_update
  after_restart-Restarts devices s (st, some e) = inl (e, refl, refl)
  after_restart-Restarts devices s (st, none) = inr (refl, refl)

  after_set-Restarts :
      (devices : Text) (s : Service) (p : y.State × Option Text)
      → ((e : Text) × (p.1 ≡ some e) × (after_set y calls devices s p ≡ (s, p.0, some e)))
        ⊎ ((p.1 ≡ none) × Restarts devices s (calls.restart p.0) (after_set y calls devices s p))
  after_set-Restarts devices s (st, some e) = inl (e, refl, refl)
  after_set-Restarts devices s (st, none) =
      inr (refl, after_restart-Restarts devices s (calls.restart st))

  store-Writes :
      (s : Service) (st : y.State) (rest : y.Rest) (ds : DeviceRegistrations)
      → Writes s st rest ds (store y calls (list_full_string ds) s st rest (device_configs y ds))
  store-Writes s st rest ds = elim (Result-cases (device_configs y ds)) [
    | inr (e, h) ↦ inl (e, h, rw h refl)
    | inl (devs, h) ↦ inr (
      devs,
      h,
      rw h (
          after_set-Restarts (list_full_string ds) s
            (calls.set_config st (configure y s rest devs))),
    )
  ]

  -- Let the last update that succeeded be for the devices es, all devices with IDs and addresses without a
  -- comma, addresses without a dash and ports that are not negative. If the configuration can be read, an
  -- update for the devices ds does nothing when the two are the same group, in whatever order. When they
  -- are not, it fails at a device ID that does not parse; otherwise it calls SetConfig with the new
  -- configuration, and then, if that succeeds, restarts syncthing. It returns the error of the call that
  -- fails, with the service as it was, and if none does, it waits for syncthing and records the devices.
  pub update_by_group :
      (s : Service) (st : y.State) (rest : y.Rest) (ds es : TameDevices)
      → y.read st ≡ ok rest
      → s.last_devices ≡ fingerprint (group es)
      → ((group ds ≡ group es) × (update_syncthing y calls (ok ds.0) s st ≡ (s, st, none)))
        ⊎ ((group ds ≢ group es) × Writes s st rest ds.0 (update_syncthing y calls (ok ds.0) s st))
  unfolding update_syncthing
  update_by_group s st rest ds es readable last =
      elim (Bool-cases (text_eq (list_full_string ds.0) s.last_devices)) [
        | inl e ↦ inl (
          fingerprint_injective (group ds) (group es) (
              fingerprint-group ds
              ∙ (text_eq_iff (list_full_string ds.0) s.last_devices).0 e
              ∙ last),
          rw (readable, e),
        )
        | inr e ↦ inr (
          (λ same. true-ne-false (
              sym (
                (text_eq_iff (list_full_string ds.0) s.last_devices).1
                  (sym (fingerprint-group ds) ∙ ap fingerprint same ∙ sym last))
              ∙ e)),
          rw (readable, e) (store-Writes s st rest ds.0),
        )
      ]
