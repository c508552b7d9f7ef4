-- ===== src/Strconv.antt =====
-- strconv.Itoa and strconv.Atoi, with a 64-bit int.
pub mod RoundTrip
use correlation.Base.{
  ℕ, zero, suc, ◌+◌, ◌-◌, ◌*◌, ◌/◌, ◌%◌, ◌^◌, Text, List, [], ◌∷◌, ◌++◌, Bool, true, false, ◌==◌,
  if◌then◌else◌, ltb, leb, ◌||◌, Option, none, some, ℤ, pos, negsuc,
}

-- The digits of n, the first one first, in at most as many rounds as the first argument says.
unfoldable pub digits : ℕ → ℕ → Text
digits zero n = []
digits (suc f) n = elim (ltb n 10) [
  | true ↦ (b'0' + n) ∷ []
  | false ↦ digits f (n / 10) ++ (b'0' + n % 10) ∷ []
]

unfoldable pub itoa_nat : ℕ → Text
unfolding digits
itoa_nat n = digits (suc n) n

-- strconv.Itoa
unfoldable pub itoa : ℤ → Text
unfolding itoa_nat
itoa (pos n) = itoa_nat n
itoa (negsuc n) = b'-' ∷ itoa_nat (suc n)

-- The number that the digits spell behind n; `none` at a byte that is no digit.
unfoldable pub read_digits : Text → ℕ → Option ℕ
read_digits [] n = some n
read_digits (c ∷ s) n =
    let rest = read_digits s (n * 10 + (c - b'0')) in
    if ltb c b'0' || ltb b'9' c then none else rest

abbrev pub max_int : ℕ
max_int = 2 ^ 63 - 1

-- an int that fits
abbrev signed : Bool → ℕ → Option ℤ
signed false n = if leb n max_int then some (pos n) else none
signed true zero = some (pos 0)
signed true (suc n) = if leb n max_int then some (negsuc n) else none

abbrev read_signed : Bool → Text → Option ℤ
read_signed negative [] = none
read_signed negative (c ∷ s) = elim (read_digits (c ∷ s) 0) [
  | none ↦ none
  | some n ↦ signed negative n
]

-- strconv.Atoi
unfoldable pub atoi : Text → Option ℤ
unfolding read_digits
atoi [] = none
atoi (c ∷ s) =
    if c == b'-'
    then read_signed true s
    else if c == b'+'
    then read_signed false s
    else read_signed false (c ∷ s)
