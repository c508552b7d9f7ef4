-- ===== src/Service/Update/Stored.antt =====
-- What an update that succeeds has stored.
use correlation.Base.{
  Text, List, [], ◌∷◌, ◌≡◌, ◌≢◌, ◌⊎◌, inl, inr, refl, Any, Option, none, some, Result, ok, err,
  Bool-cases, Result-cases, text_eq, text_eq_iff,
}
use mathlib.Core.Path.{subst}
use correlation.Devices.{DeviceRegistration, DeviceRegistrations, list_full_string}
use correlation.Service.{Service}
use correlation.Service.Update.{
  Syncthing, Calls, DeviceConfig, configure, device_configs, store, after_set, update_syncthing,
}
use correlation.Service.Update.Devices.{Mirrors, MirrorsAll, device_configs-mirrors}

module _ (y : Syncthing) where
  -- a device of the backend has its mirror
  pub Mirrors-find :
      (ds : DeviceRegistrations) (cs : List (DeviceConfig y)) (d : DeviceRegistration)
      → MirrorsAll y ds cs
      → Any (λ e. e ≡ d) ds
      → Any (Mirrors y d) cs
  Mirrors-find (e ∷ ds) (c ∷ cs) d (m, ms) (inl same) = inl (subst (λ x. Mirrors y x c) same m)
  Mirrors-find (e ∷ ds) (c ∷ cs) d (m, ms) (inr at) = inr (Mirrors-find ds cs d ms at)
  Mirrors-find [] cs d h at = absurd at
  Mirrors-find (e ∷ ds) [] d h at = absurd h

  module _ (calls : Calls y) where
    -- A configuration with these devices was stored.
    pub record Stored (s : Service) (st : y.State) (ds : DeviceRegistrations) : Type 0 where
      pub rest : y.Rest
      pub devs : List (DeviceConfig y)
      pub behind : y.State
      pub readable : y.read st ≡ ok rest
      pub stored : calls.set_config st (configure y s rest devs) ≡ (behind, none)
      pub mirrors : MirrorsAll y ds devs

    some-ne-none : (e : Text) → some e ≢ none
    some-ne-none e h = cc

    after_set_ok :
        (devices : Text) (s : Service) (p : y.State × Option Text)
        → (after_set y calls devices s p).2 ≡ none
        → (st1 : y.State) × (p ≡ (st1, none))
    after_set_ok devices s (st1, none) h = (st1, refl)
    after_set_ok devices s (st1, some e) h = absurd (some-ne-none e h)

    store_ok :
        (devices : Text) (s : Service) (st : y.State) (rest : y.Rest) (ds : DeviceRegistrations)
        (r : Result (List (DeviceConfig y)))
        → y.read st ≡ ok rest
        → device_configs y ds ≡ r
        → (store y calls devices s st rest r).2 ≡ none
        → Stored s st ds
    store_ok devices s st rest ds (err e) readable parsed h = absurd (some-ne-none e h)
    store_ok devices s st rest ds (ok devs) readable parsed h =
        let (st1, stored) =
          after_set_ok devices s (calls.set_config st (configure y s rest devs)) h in
        record {
          rest = rest;
          devs = devs;
          behind = st1;
          readable = readable;
          stored = stored;
          mirrors = device_configs-mirrors y ds devs parsed;
        }

    -- An update that succeeds was not needed, or it has stored the devices of the backend.
    pub update_stores :
        (s : Service) (st : y.State) (ds : DeviceRegistrations)
        → (update_syncthing y calls (ok ds) s st).2 ≡ none
        → (list_full_string ds ≡ s.last_devices) ⊎ Stored s st ds
    unfolding update_syncthing
    update_stores s st ds h = elim (Result-cases (y.read st)) [
      | inr (e, bad) ↦ absurd (some-ne-none e (rw bad at h))
      | inl (rest, readable) ↦ elim (Bool-cases (text_eq (list_full_string ds) s.last_devices)) [
        | inl same ↦ inl ((text_eq_iff (list_full_string ds) s.last_devices).0 same)
        | inr other ↦ inr (
            store_ok (list_full_string ds) s st rest ds _ readable refl (rw (readable, other) at h))
      ]
    ]
