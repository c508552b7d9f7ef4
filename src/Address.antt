-- ===== src/Address.antt =====
-- The text "<ip>:<port>" under which a device is announced: net.JoinHostPort as service.Run calls it
-- (service/service.go), and the two parsers of the backends (service/backend/etcd_backend.go and
-- service/backend/k8s_backend.go).
pub mod RoundTrip
use correlation.Base.{
  ℕ, Text, codes, List, [], ◌∷◌, ◌++◌, Bool, true, false, ◌==◌, ◌||◌, if◌then◌else◌, Option, none,
  some, ℤ, Result, ok, err, Lacks,
}
use correlation.Strings.{split}
use correlation.Strconv.{itoa, atoi}
use correlation.Devices.{DeviceRegistration}

unfoldable pub contains_byte : ℕ → Text → Bool
contains_byte b [] = false
contains_byte b (c ∷ s) = c == b || contains_byte b s

-- net.JoinHostPort of Go 1.7: an IPv6 address, or one with a zone, is put in brackets
unfoldable pub join_host_port : Text → Text → Text
unfolding contains_byte
join_host_port host port =
    if contains_byte b':' host || contains_byte b'%' host
    then b'[' ∷ (host ++ b']' ∷ b':' ∷ port)
    else host ++ b':' ∷ port

-- a host that is not put in brackets
abbrev pub IsPlainHost : Text → Type 0
IsPlainHost host = Lacks b':' host × Lacks b'%' host

-- the address that Run announces
unfoldable pub announce_address : Text → ℤ → Text
announce_address ip port = join_host_port ip (itoa port)

abbrev invalid_device : Text → Text
invalid_device s = codes "Invalid device '" ++ s ++ codes "'"

abbrev invalid_port : Text → Text → Text
invalid_port p s = codes "Invalid device port '" ++ p ++ codes "' in '" ++ s ++ codes "'"

with_port : Text → Text → Text → Option ℤ → Result DeviceRegistration
with_port s ip port none = err (invalid_port port s)
with_port s ip port (some n) = ok (record { id = []; ip = ip; port = n })

device_of_parts : Text → List Text → Result DeviceRegistration
unfolding with_port
device_of_parts s (ip ∷ port ∷ []) = with_port s ip port (atoi port)
device_of_parts s _ = err (invalid_device s)

-- etcdBackend.parseDeviceInfo
unfoldable pub parse_device_info : Text → Result DeviceRegistration
unfolding device_of_parts
parse_device_info s = device_of_parts s (split b':' s)

-- k8sBackend.parseAddress, the same code once more
unfoldable pub parse_address : Text → Result DeviceRegistration
unfolding device_of_parts
parse_address s = device_of_parts s (split b':' s)
