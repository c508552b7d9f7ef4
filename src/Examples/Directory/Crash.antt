-- ===== src/Examples/Directory/Crash.antt =====
-- An instance with the device "AB" that ends, on the etcd with room for one key, which is dropped after a
-- second.
use correlation.Base.{
  ℕ, zero, suc, ◌<◌, Text, [], ◌≡◌, ◌≢◌, refl, arith, All, Option, none, some, pos, text_eq,
  Bool-cases, inl, inr,
}
use correlation.Strings.{split, join}
use correlation.Devices.{DeviceRegistration}
use correlation.Address.{announce_address, join_host_port}
use correlation.Paths.{path_join}
use correlation.Etcd.{get_devices, update_announce}
use correlation.Etcd.Crash.{Forgets, crashed_not_found}
use correlation.Examples.Values.{local_ip}
use correlation.Examples.Directory.{
  ab, small, small-IsKeyValue, ab-IsName, quiet, loud, key_of_ab, value,
}

abbrev forget : ℕ → Option Text → Option Text
forget zero st = st
forget (suc n) st = none

nothing_left : (n : ℕ) (st : Option Text) (key : Text) → 0 < n → value (forget n st) key ≡ none
nothing_left zero st key h = absurd (omega (arith, h))
nothing_left (suc n) st key h = elim (Bool-cases (text_eq key_of_ab key)) [
  | inl e ↦ rw e refl
  | inr e ↦ rw e refl
]

small-Forgets : Forgets small small-IsKeyValue
unfolding small-IsKeyValue
small-Forgets = record {
  pass = forget;
  removed = λ st st' key v ttl n h some_time over.
      nothing_left n st' key (omega (arith, some_time, over));
}

crashed_not_found_example : All (λ (d : DeviceRegistration). d.id ≢ ab) []
unfolding small-Forgets update_announce announce_address join_host_port get_devices key_of_ab
    text_eq path_join join split
crashed_not_found_example =
    crashed_not_found small small-IsKeyValue small-Forgets loud quiet none
      (some (announce_address local_ip (pos 22000))) 60 [] [] ab-IsName refl refl (omega arith) refl
      refl refl
