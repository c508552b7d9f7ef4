-- ===== src/Examples/Devices.antt =====
-- Devices, their text and their address.
use correlation.Base.{Text, codes, [], ◌∷◌, ◌≡◌, ◌↔◌, refl, arith, Perm, pos, Lacks, err}
use correlation.Devices.{list_full_string}
use correlation.Devices.Change.{list_full_string_iff_perm}
use correlation.Devices.Change.Parts.{IsTame}
use correlation.Address.{announce_address, parse_device_info, parse_address, contains_byte}
use correlation.Address.RoundTrip.{parse-announce_colon}
use correlation.Examples.Values.{first, second, local_ip}

local_ip-Lacks_colon : Lacks b':' local_ip
local_ip-Lacks_colon = ground arith

pub first-IsTame : IsTame first
first-IsTame = record {
  plain = record { number = 22000; port_eq = refl; ip_Lacks = ground arith };
  id_Lacks = ground arith;
  ip_Lacks = ground arith;
}

pub second-IsTame : IsTame second
second-IsTame = record {
  plain = record { number = 1; port_eq = refl; ip_Lacks = ground arith };
  id_Lacks = ground arith;
  ip_Lacks = ground arith;
}

list_full_string_iff_perm_example :
    (list_full_string (first ∷ second ∷ []) ≡ list_full_string (second ∷ first ∷ []))
    ↔ Perm (first ∷ second ∷ []) (second ∷ first ∷ [])
list_full_string_iff_perm_example =
    list_full_string_iff_perm (first ∷ second ∷ []) (second ∷ first ∷ [])
      (first-IsTame, (second-IsTame, tt)) (second-IsTame, (first-IsTame, tt))

parse-announce_colon_example :
    (e : Text) × (parse_device_info (announce_address (codes "::1") (pos 22000)) ≡ err e)
    × (parse_address (announce_address (codes "::1") (pos 22000)) ≡ err e)
parse-announce_colon_example =
    parse-announce_colon (codes "::1") (pos 22000) (unfold contains_byte in refl)
