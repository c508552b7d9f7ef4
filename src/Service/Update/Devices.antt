-- ===== src/Service/Update/Devices.antt =====
-- The devices of a new configuration.
use correlation.Base.{
  Text, codes, List, [], ◌∷◌, ◌++◌, ◌≡◌, refl, sym, ◌∙◌, ok, err, Result-cases, inl, inr,
}
use mathlib.Core.Path.{subst}
use correlation.Strconv.{itoa}
use correlation.Devices.{DeviceRegistration, DeviceRegistrations}
use correlation.Service.Update.{Syncthing, DeviceConfig, device_configs}

module _ (y : Syncthing) where
  -- A device of the configuration stands for one of the backend.
  pub record Mirrors (d : DeviceRegistration) (c : DeviceConfig y) : Type 0 where
    pub id : y.device_id_from_string d.id ≡ ok c.device_id
    pub name : c.name ≡ d.id
    pub address : c.addresses ≡ (codes "tcp://" ++ d.ip ++ b':' ∷ itoa d.port) ∷ []

  abbrev pub MirrorsAll : DeviceRegistrations → List (DeviceConfig y) → Type 0
  MirrorsAll [] [] = Unit
  MirrorsAll (d ∷ ds) (c ∷ cs) = Mirrors d c × MirrorsAll ds cs
  MirrorsAll [] (c ∷ cs) = ⊥
  MirrorsAll (d ∷ ds) [] = ⊥

  same_list : (l m : List (DeviceConfig y)) → ok l ≡ ok m → l ≡ m
  same_list l m h = cc

  err-ne-ok : (e : Text) (l : List (DeviceConfig y)) → err e ≡ ok l → ⊥
  err-ne-ok e l h = cc

  head_failed :
      (d : DeviceRegistration) (ds : DeviceRegistrations) (e : Text)
      → y.device_id_from_string d.id ≡ err e
      → device_configs y (d ∷ ds) ≡ err e
  unfolding device_configs
  head_failed d ds e h = rw (h, device_configs)

  tail_failed :
      (d : DeviceRegistration) (ds : DeviceRegistrations) (id : y.DeviceId) (e : Text)
      → y.device_id_from_string d.id ≡ ok id
      → device_configs y ds ≡ err e
      → device_configs y (d ∷ ds) ≡ err e
  unfolding device_configs
  tail_failed d ds id e h k = rw (h, k, device_configs)

  config_of : DeviceRegistration → y.DeviceId → DeviceConfig y
  config_of d id = record {
    device_id = id;
    name = d.id;
    addresses = (codes "tcp://" ++ d.ip ++ b':' ∷ itoa d.port) ∷ [];
  }

  both_parse :
      (d : DeviceRegistration) (ds : DeviceRegistrations) (id : y.DeviceId)
      (cs : List (DeviceConfig y))
      → y.device_id_from_string d.id ≡ ok id
      → device_configs y ds ≡ ok cs
      → device_configs y (d ∷ ds) ≡ ok (config_of d id ∷ cs)
  unfolding device_configs config_of
  both_parse d ds id cs h k = rw (h, k, device_configs)

  nil_parses : device_configs y [] ≡ ok []
  unfolding device_configs
  nil_parses = refl

  config_of-Mirrors :
      (d : DeviceRegistration) (id : y.DeviceId)
      → y.device_id_from_string d.id ≡ ok id
      → Mirrors d (config_of d id)
  unfolding config_of
  config_of-Mirrors d id h = record { id = h; name = refl; address = refl }

  -- If the devices of the backend become devices of the configuration, there is one for each, in the same
  -- order, with its parsed ID, its ID as the name, and its address.
  pub device_configs-mirrors :
      (ds : DeviceRegistrations) (cs : List (DeviceConfig y))
      → device_configs y ds ≡ ok cs
      → MirrorsAll ds cs
  device_configs-mirrors [] cs h = subst (MirrorsAll []) (same_list [] cs (sym nil_parses ∙ h)) tt
  device_configs-mirrors (d ∷ ds) cs h = elim (Result-cases (y.device_id_from_string d.id)) [
    | inr (e, p) ↦ absurd (err-ne-ok e cs (sym (head_failed d ds e p) ∙ h))
    | inl (id, p) ↦ elim (Result-cases (device_configs y ds)) [
      | inr (e, q) ↦ absurd (err-ne-ok e cs (sym (tail_failed d ds id e p q) ∙ h))
      | inl (rest, q) ↦
          subst (MirrorsAll (d ∷ ds)) (same_list _ cs (sym (both_parse d ds id rest p q) ∙ h))
            (config_of-Mirrors d id p, device_configs-mirrors ds rest q)
    ]
  ]
