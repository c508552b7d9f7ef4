-- ===== src/Service/Update/Stale.antt =====
-- What a restart that fails leaves behind.
use correlation.Base.{
  Text, ◌≡◌, ◌≢◌, ap, sym, Option, ◌∙◌, none, some, ok, List, text_eq_refl, text_ne,
}
use correlation.Devices.{DeviceRegistrations, list_full_string}
use correlation.Service.{Service}
use correlation.Service.Update.Mirrored.{Stores}
use correlation.Service.Update.{
  Syncthing, Calls, DeviceConfig, configure, device_configs, update_syncthing, store, after_set,
  after_restart,
}

module _ (y : Syncthing) (calls : Calls y) where
  -- an update whose configuration is stored, and whose restart fails
  restart_fails :
      (s : Service) (st st1 st2 : y.State) (rest : y.Rest) (ds : DeviceRegistrations)
      (devs : List (DeviceConfig y)) (e : Text)
      → y.read st ≡ ok rest
      → list_full_string ds ≢ s.last_devices
      → device_configs y ds ≡ ok devs
      → calls.set_config st (configure y s rest devs) ≡ (st1, none)
      → calls.restart st1 ≡ (st2, some e)
      → update_syncthing y calls (ok ds) s st ≡ (s, st2, some e)
  unfolding update_syncthing
  restart_fails s st st1 st2 rest ds devs e readable changed parsed stored failed =
      rw (readable, text_ne (list_full_string ds) s.last_devices changed)
        (ap (store y calls (list_full_string ds) s st rest) parsed
          ∙ ap (after_set y calls (list_full_string ds) s) stored
          ∙ ap (after_restart y calls (list_full_string ds) s) failed)

  same_devices :
      (s : Service) (st : y.State) (rest : y.Rest) (es : DeviceRegistrations)
      → y.read st ≡ ok rest
      → s.last_devices ≡ list_full_string es
      → update_syncthing y calls (ok es) s st ≡ (s, st, none)
  unfolding update_syncthing
  same_devices s st rest es readable same = rw (readable, same, text_eq_refl (list_full_string es))

  -- Suppose that the last update that succeeded was for the devices es, that the configuration for other
  -- devices ds is stored, and that the restart then fails. If the backend returns es again, the next
  -- update succeeds without a call, and syncthing, which keeps what is set, is left with the devices that
  -- were stored for ds.
  pub stale_config :
      (laws : Stores y calls) (s : Service) (st st1 st2 : y.State) (rest rest' : y.Rest)
      (ds es : DeviceRegistrations) (devs : List (DeviceConfig y)) (e : Text)
      → y.read st ≡ ok rest
      → s.last_devices ≡ list_full_string es
      → list_full_string ds ≢ s.last_devices
      → device_configs y ds ≡ ok devs
      → calls.set_config st (configure y s rest devs) ≡ (st1, none)
      → calls.restart st1 ≡ (st2, some e)
      → y.read st2 ≡ ok rest'
      → (update_syncthing y calls (ok ds) s st ≡ (s, st2, some e))
        × (update_syncthing y calls (ok es) s st2 ≡ (s, st2, none))
        × (laws.current st2 ≡ devs)
  unfolding configure
  stale_config laws s st st1 st2 rest rest' ds es devs e readable last changed parsed stored failed
        again =
      (
        restart_fails s st st1 st2 rest ds devs e readable changed parsed stored failed,
        same_devices s st2 rest' es again last,
        ap (λ (p : y.State × Option Text). laws.current p.0) (sym failed)
            ∙ laws.restart_keeps st1
            ∙ laws.set_ok st st1 (configure y s rest devs) stored,
      )
