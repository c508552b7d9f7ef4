-- ===== src/Examples/Values.antt =====
-- Devices that the other examples share.
use correlation.Base.{Text, codes, pos, text_eq, text_eq_iff, ◌≡◌, ◌≢◌, sym, ◌∙◌, true, false}
use correlation.Devices.{DeviceRegistration}

abbrev pub local_ip : Text
local_ip = codes "10.0.0.1"

abbrev pub first : DeviceRegistration
first = record { id = codes "AB"; ip = local_ip; port = pos 22000 }

abbrev pub second : DeviceRegistration
second = record { id = codes "C-D"; ip = codes "h"; port = pos 1 }

pub differs : (s t : Text) → text_eq s t ≡ false → s ≢ t
differs s t h e = impossible (sym ((text_eq_iff s t).1 e) ∙ h)
  where
    impossible : true ≡ false → ⊥
    impossible q = cc
