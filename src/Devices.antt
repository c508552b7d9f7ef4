-- ===== src/Devices.antt =====
-- service/backend/backend.go: a device as the backends publish it, and the text by which changes of
-- the set of devices are noticed. `String` fields are lists of bytes, `Port` is a 64-bit int.
pub mod Decode
pub mod Change
pub mod Group
use correlation.Base.{
  ℕ, suc, Text, codes, List, [], ◌∷◌, ◌++◌, map, Bool, not, ◌&&◌, Option, none, some, ℤ, length,
  get_elem?, set, sort_strings, text_le,
}
use correlation.Strings.{join}
use correlation.Strconv.{itoa}

pub record DeviceRegistration : Type 0 where
  pub id : Text
  pub ip : Text
  pub port : ℤ

abbrev pub DeviceRegistrations : Type 0
DeviceRegistrations = List DeviceRegistration

-- DeviceRegistration.FullString, "%s-%s-%d"
unfoldable pub full_string : DeviceRegistration → Text
full_string d = d.id ++ b'-' ∷ (d.ip ++ b'-' ∷ itoa d.port)

-- DeviceRegistrations.FullString; the loop that appends is `map`
unfoldable pub list_full_string : DeviceRegistrations → Text
list_full_string [] = []
list_full_string (d ∷ ds) =
    b'[' ∷ (join b',' (sort_strings (map full_string (d ∷ ds))) ++ b']' ∷ [])

-- DeviceRegistrations.Len
unfoldable pub len : DeviceRegistrations → ℕ
len ds = length ds

-- strings.Compare(a, b) < 0
abbrev before : Text → Text → Bool
before a b = text_le a b && not (text_le b a)

-- DeviceRegistrations.Less; `none` is the panic of an index out of range
unfoldable pub less : DeviceRegistrations → ℕ → ℕ → Option Bool
less ds i j = elim (get_elem? ds i) [
  | none ↦ none
  | some a ↦ elim (get_elem? ds j) [
    | none ↦ none
    | some b ↦ some (before (full_string a) (full_string b))
  ]
]

-- DeviceRegistrations.Swap; `none` is the panic of an index out of range
unfoldable pub swap : DeviceRegistrations → ℕ → ℕ → Option DeviceRegistrations
swap ds i j = elim (get_elem? ds i) [
  | none ↦ none
  | some a ↦ elim (get_elem? ds j) [ none ↦ none | some b ↦ some (set (set ds i b) j a) ]
]
