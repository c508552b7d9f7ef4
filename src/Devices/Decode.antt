-- ===== src/Devices/Decode.antt =====
-- A device can be read back from its FullString when its address holds no dash.
use correlation.Base.{
  ℕ, Text, [], ◌∷◌, ◌++◌, ◌≡◌, refl, ap, ◌∙◌, append_assoc, arith, ◌==◌, Lacks, Option, none, some,
  pos, if◌then◌else◌,
}
use correlation.Strconv.{itoa, itoa_nat, read_digits}
use correlation.Strconv.RoundTrip.{itoa_nat-IsDigit, IsDigit-Lacks, read_digits-itoa_nat}
use correlation.Devices.{DeviceRegistration, full_string}

-- cuts at the last separator
cut_last : ℕ → Text → Option (Text × Text)
cut_last sep [] = none
cut_last sep (c ∷ s) = elim (cut_last sep s) [
  | some (a, b) ↦ some (c ∷ a, b)
  | none ↦ if c == sep then some ([], s) else none
]

cut_last-Lacks : (sep : ℕ) (s : Text) → Lacks sep s → cut_last sep s ≡ none
unfolding cut_last
cut_last-Lacks sep [] h = refl
cut_last-Lacks sep (c ∷ s) (hc, hs) = ground (arith, cut_last-Lacks sep s hs)

cut_last-append : (sep : ℕ) (s t : Text) → Lacks sep t → cut_last sep (s ++ sep ∷ t) ≡ some (s, t)
unfolding cut_last
cut_last-append sep [] t h = ground (arith, cut_last-Lacks sep t h)
cut_last-append sep (c ∷ s) t h = ground (arith, cut_last-append sep s t h)

with_port : Text → Text → ℕ → DeviceRegistration
with_port id ip n = record { id = id; ip = ip; port = pos n }

pub decode : Text → Option DeviceRegistration
unfolding with_port
decode s = elim (cut_last b'-' s) [
  | none ↦ none
  | some (front, port) ↦ elim (cut_last b'-' front) [
    | none ↦ none
    | some (id, ip) ↦ elim (read_digits port 0) [ none ↦ none | some n ↦ some (with_port id ip n) ]
  ]
]

-- The address holds no dash and the port is not negative. A device ID may hold dashes, and those
-- of syncthing do.
pub record IsPlain (d : DeviceRegistration) : Type 0 where
  pub number : ℕ
  pub port_eq : d.port ≡ pos number
  pub ip_Lacks : Lacks b'-' d.ip

decode_text :
    (id ip : Text) (n : ℕ)
    → Lacks b'-' ip
    → decode (id ++ b'-' ∷ (ip ++ b'-' ∷ itoa_nat n)) ≡ some (with_port id ip n)
unfolding decode
decode_text id ip n h =
    let port_Lacks = IsDigit-Lacks b'-' (itoa_nat n) (λ d. omega arith) (itoa_nat-IsDigit n) in
    rw (← append_assoc id (b'-' ∷ ip) (b'-' ∷ itoa_nat n)) (
      ground (
        arith,
        cut_last-append b'-' (id ++ b'-' ∷ ip) (itoa_nat n) port_Lacks,
        cut_last-append b'-' id ip h,
        read_digits-itoa_nat n,
      ))

pub decode-full_string : (d : DeviceRegistration) → IsPlain d → decode (full_string d) ≡ some d
unfolding full_string itoa with_port
decode-full_string d h =
    rw h.port_eq (decode_text d.id d.ip h.number h.ip_Lacks ∙ ap some (ground (arith, h.port_eq)))
