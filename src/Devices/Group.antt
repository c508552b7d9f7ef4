-- ===== src/Devices/Group.antt =====
-- The devices of a group, without an order.
use mathlib.Core.Quot
use mathlib.Core.Quot.{Quot, Quot-set}
use mathlib.Core.Bool.{Bool-discrete}
use mathlib.Core.HLevel.{Discrete}
use mathlib.Core.Logic.Dec.{of_iff}
use correlation.Base.{Text, ◌≡◌, ◌↔◌, ap, true, All, Perm, text_eq, text_eq_iff}
use correlation.Devices.{DeviceRegistrations, list_full_string}
use correlation.Devices.Change.{list_full_string_of_perm, list_full_string_iff_perm}
use correlation.Devices.Change.Parts.{IsTame}

-- lists whose FullString can be taken apart
abbrev pub TameDevices : Type 0
TameDevices = (ds : DeviceRegistrations) × All IsTame ds

-- One list is a rearrangement of the other.
abbrev pub SameDevices : TameDevices → TameDevices → Type 0
SameDevices a b = Perm a.0 b.0

-- Which devices there are, whatever order a backend returns them in.
abbrev pub Group : Type 0
Group = Quot SameDevices

abbrev pub group : TameDevices → Group
group = Quot.mk

-- FullString of a group
unfoldable pub fingerprint : Group → Text
fingerprint =
    Quot.lift (hlevel) (λ a. list_full_string a.0) (λ a b p. list_full_string_of_perm a.0 b.0 p)

-- Groups with the same FullString are the same.
pub fingerprint_injective : (g g' : Group) → fingerprint g ≡ fingerprint g' → g ≡ g'
unfolding fingerprint
fingerprint_injective =
    Quot.ind (λ _. hlevel Quot-set)
      λ a.
        Quot.ind (λ _. hlevel Quot-set)
          λ b e. Quot.sound ((list_full_string_iff_perm a.0 b.0 a.1 b.1).0 e)

-- The comparison of FullString, by which the service and the Kubernetes backend notice a change, decides
-- whether two groups are the same.
pub fingerprint_decides :
    (g g' : Group) → (text_eq (fingerprint g) (fingerprint g') ≡ true) ↔ (g ≡ g')
fingerprint_decides g g' = (
  λ e. fingerprint_injective g g' ((text_eq_iff (fingerprint g) (fingerprint g')).0 e),
  λ same. (text_eq_iff (fingerprint g) (fingerprint g')).1 (ap fingerprint same),
)

-- So whether two groups are the same can be decided.
pub Group-Discrete : Discrete Group
Group-Discrete g g' =
    of_iff (fingerprint_decides g g')
      (Bool-discrete (text_eq (fingerprint g) (fingerprint g')) true)
