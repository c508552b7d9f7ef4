-- ===== src/Service/Update/Mirrored.antt =====
-- service/service.go, updateSyncthing: what syncthing's configuration is between updates.
use correlation.Base.{
  Text, List, [], ◌≡◌, ◌⊎◌, inl, inr, refl, sym, ap, ◌∙◌, All, Option, none, some, Result, ok, err,
  Bool-cases, text_eq,
}
use mathlib.Core.Path.{subst}
use correlation.Devices.{DeviceRegistrations, list_full_string}
use correlation.Devices.Change.Parts.{IsTame}
use correlation.Service.{Service}
use correlation.Service.Update.{
  Syncthing, Calls, Configuration, DeviceConfig, configure, device_configs, store, after_set,
  after_restart, with_devices, with_config, record_update, update_syncthing,
}
use correlation.Service.Update.Effects.{update_settles}
use correlation.Service.Update.Devices.{MirrorsAll, device_configs-mirrors}

-- What the documentation of syncthing's REST API says of the configuration: it is what was last set with
-- success, and neither a restart nor waiting changes it.
pub record Stores (y : Syncthing) (calls : Calls y) : Type 0 where
  pub current : y.State → List (DeviceConfig y)
  pub set_ok :
      (st st' : y.State) (c : Configuration y)
      → calls.set_config st c ≡ (st', none)
      → current st' ≡ c.devices
  pub restart_keeps : (st : y.State) → current (calls.restart st).0 ≡ current st
  pub wait_keeps : (st : y.State) → current (y.wait_in_sync st) ≡ current st

abbrev pub AllTame : Result DeviceRegistrations → Type 0
AllTame (ok ds) = All IsTame ds
AllTame (err e) = Unit

-- An update has succeeded, or it has left syncthing as it was.
abbrev pub IsClean : (y : Syncthing) → y.State → Service × y.State × Option Text → Type 0
IsClean y st r = (r.2 ≡ none) ⊎ (r.1 ≡ st)

module _ (y : Syncthing) (calls : Calls y) (laws : Stores y calls) where
  open laws use {current, set_ok, restart_keeps, wait_keeps}

  -- No update has succeeded so far, or syncthing's configuration is for the devices of the last one that
  -- has.
  abbrev pub Mirrored : Service × y.State → Type 0
  Mirrored (s, st) =
      (s.last_devices ≡ [])
      ⊎ ((ds : DeviceRegistrations) × (s.last_devices ≡ list_full_string ds)
          × All IsTame ds
          × MirrorsAll y ds (current st))

  other_state :
      (s : Service) (st st' : y.State)
      → current st' ≡ current st
      → Mirrored (s, st)
      → Mirrored (s, st')
  other_state s st st' same (inl fresh) = inl fresh
  other_state s st st' same (inr (ds, last, tame, mirrors)) =
      inr (ds, last, tame, subst (MirrorsAll y ds) (sym same) mirrors)

  abbrev kept : Service × y.State × Option Text → Service × y.State
  kept (s, st, e) = (s, st)

  failed : {A : Type 0} (e : Text) → some e ≡ none → A
  failed e h = absurd (impossible h)
    where
      impossible : some e ≡ none → ⊥
      impossible q = cc

  module _ (ds : DeviceRegistrations) (tame : All IsTame ds) (s : Service) where
    restarted :
        (st : y.State) (p : y.State × Option Text)
        → calls.restart st ≡ p
        → MirrorsAll y ds (current st)
        → (after_restart y calls (list_full_string ds) s p).2 ≡ none
        → Mirrored (kept (after_restart y calls (list_full_string ds) s p))
    unfolding record_update
    restarted st (st', some e) same mirrors done = failed e done
    restarted st (st', none) same mirrors done =
        let stays =
          wait_keeps st'
          ∙ (sym (ap (λ (p : y.State × Option Text). current p.0) same) ∙ restart_keeps st) in
        inr (ds, refl, tame, subst (MirrorsAll y ds) (sym stays) mirrors)

    after_set_keeps :
        (st : y.State) (c : Configuration y) (p : y.State × Option Text)
        → calls.set_config st c ≡ p
        → MirrorsAll y ds c.devices
        → (after_set y calls (list_full_string ds) s p).2 ≡ none
        → Mirrored (kept (after_set y calls (list_full_string ds) s p))
    after_set_keeps st c (st', some e) same mirrors done = failed e done
    after_set_keeps st c (st', none) same mirrors done =
        restarted st' (calls.restart st') refl
          (subst (MirrorsAll y ds) (sym (set_ok st st' c same)) mirrors) done

    store_keeps :
        (st : y.State) (rest : y.Rest) (r : Result (List (DeviceConfig y)))
        → device_configs y ds ≡ r
        → (store y calls (list_full_string ds) s st rest r).2 ≡ none
        → Mirrored (kept (store y calls (list_full_string ds) s st rest r))
    unfolding configure
    store_keeps st rest (err e) parsed done = failed e done
    store_keeps st rest (ok devs) parsed done =
        after_set_keeps st (configure y s rest devs) (calls.set_config st (configure y s rest devs))
          refl (device_configs-mirrors y ds devs parsed) done

    with_devices_keeps :
        (st : y.State) (rest : y.Rest)
        → Mirrored (s, st)
        → (with_devices y calls s st rest (ok ds)).2 ≡ none
        → Mirrored (kept (with_devices y calls s st rest (ok ds)))
    with_devices_keeps st rest h =
        elim (Bool-cases (text_eq (list_full_string ds) s.last_devices)) [
          | inl e ↦ rw e (λ done. h)
          | inr e ↦ rw e (store_keeps st rest (device_configs y ds) refl)
        ]

  with_config_keeps :
      (found : Result DeviceRegistrations) (s : Service) (st : y.State) (r : Result y.Rest)
      → AllTame found
      → Mirrored (s, st)
      → (with_config y calls s st found r).2 ≡ none
      → Mirrored (kept (with_config y calls s st found r))
  with_config_keeps found s st (err e) tame h done = h
  with_config_keeps (err x) s st (ok rest) tame h done = h
  with_config_keeps (ok ds) s st (ok rest) tame h done = with_devices_keeps ds tame s st rest h done

  -- Every update that succeeds keeps that, and so does one that fails without a change of syncthing.
  pub update-Mirrored :
      (found : Result DeviceRegistrations) (s : Service) (st : y.State)
      → AllTame found
      → IsClean y st (update_syncthing y calls found s st)
      → Mirrored (s, st)
      → Mirrored (kept (update_syncthing y calls found s st))
  unfolding update_syncthing
  update-Mirrored found s st tame (inl done) h =
      with_config_keeps found s st (y.read st) tame h done
  update-Mirrored found s st tame (inr same) h = elim (update_settles y calls found s st) [
    | inl (error, untouched) ↦
        subst (λ t. Mirrored (t, (update_syncthing y calls found s st).1)) (sym untouched)
          (other_state s st (update_syncthing y calls found s st).1 (ap current same) h)
    | inr (ds, got, done, taken, rest) ↦ with_config_keeps found s st (y.read st) tame h done
  ]
