-- ===== src/Strconv/RoundTrip.antt =====
-- Atoi reads back what Itoa prints, and Itoa is injective.
use correlation.Base.{
  ℕ, zero, suc, ◌+◌, ◌-◌, ◌*◌, ◌/◌, ◌%◌, ◌≤◌, ◌<◌, Text, [], ◌∷◌, ◌++◌, ◌≡◌, ◌≢◌, sym, ◌∙◌, ap,
  arith, ltb, All, All-append, Lacks, some, ℤ, pos, negsuc, inl, inr, Bool-cases, append_cons_cases,
}
use correlation.Strconv.{digits, itoa_nat, itoa, read_digits, atoi, max_int}

abbrev pub IsDigit : ℕ → Type 0
IsDigit c = (b'0' ≤ c) × (c ≤ b'9')

digits-IsDigit : (f n : ℕ) → All IsDigit (digits f n)
unfolding digits
digits-IsDigit zero n = tt
digits-IsDigit (suc f) n = elim (Bool-cases (ltb n 10)) [
  | inl h ↦ rw (h, digits) (ground arith, tt)
  | inr h ↦
      rw (h, digits)
        (All-append IsDigit (digits f (n / 10)) _ (digits-IsDigit f (n / 10)) (omega arith, tt))
]

read_digits-append :
    (s t : Text) (n m : ℕ) → read_digits s n ≡ some m → read_digits (s ++ t) n ≡ read_digits t m
unfolding read_digits
read_digits-append [] t n m h = ground arith
read_digits-append (c ∷ s) t n m h = ground (arith, read_digits-append s t (n * 10 + (c - b'0')) m)

read_digit : (n d : ℕ) → d < 10 → read_digits ((b'0' + d) ∷ []) n ≡ some (n * 10 + d)
unfolding read_digits
read_digit n d h = ground arith

read_digits-digits : (f n : ℕ) → n < f → read_digits (digits f n) 0 ≡ some n
unfolding digits
read_digits-digits zero n h = elim h [ ]
read_digits-digits (suc f) n h = elim (Bool-cases (ltb n 10)) [
  | inl e ↦ rw (e, digits) (read_digit 0 n (ground arith) ∙ ground arith)
  | inr e ↦
      rw (e, digits)
        (read_digits-append (digits f (n / 10)) _ 0 (n / 10)
            (read_digits-digits f (n / 10) (ground arith))
          ∙ read_digit (n / 10) (n % 10) (omega arith)
          ∙ ap some (omega arith))
]

digits-cons : (f n : ℕ) → (c : ℕ) × (s : Text) × (digits (suc f) n ≡ c ∷ s)
unfolding digits
digits-cons f n = elim (Bool-cases (ltb n 10)) [
  | inl e ↦ (b'0' + n, [], rw (e, digits))
  | inr e ↦
      let (c, s, p) = append_cons_cases (digits f (n / 10)) (b'0' + n % 10) [] in
      (c, s, rw (e, digits) p)
]

pub itoa_nat-cons : (n : ℕ) → (c : ℕ) × (s : Text) × (itoa_nat n ≡ c ∷ s) × IsDigit c
unfolding itoa_nat
itoa_nat-cons n =
    let (c, s, e) = digits-cons n n in
    let ds : All IsDigit (c ∷ s) = rw e at (digits-IsDigit (suc n) n) in (c, s, e, ds.0)

pub itoa_nat-IsDigit : (n : ℕ) → All IsDigit (itoa_nat n)
unfolding itoa_nat
itoa_nat-IsDigit n = digits-IsDigit (suc n) n

pub read_digits-itoa_nat : (n : ℕ) → read_digits (itoa_nat n) 0 ≡ some n
unfolding itoa_nat
read_digits-itoa_nat n = read_digits-digits (suc n) n (omega arith)

-- An int that 64 bits hold.
abbrev pub FitsInt : ℤ → Type 0
FitsInt (pos n) = n ≤ max_int
FitsInt (negsuc n) = n ≤ max_int

pub atoi-itoa : (z : ℤ) → FitsInt z → atoi (itoa z) ≡ some z
unfolding itoa
atoi-itoa (pos n) h =
    let (c, s, e, d) = itoa_nat-cons n in
    let r : read_digits (c ∷ s) 0 ≡ some n = rw e at (read_digits-itoa_nat n) in
    rw e (unfold atoi in ground (arith, r))
atoi-itoa (negsuc n) h =
    let (c, s, e, d) = itoa_nat-cons (suc n) in
    let r : read_digits (c ∷ s) 0 ≡ some (suc n) = rw e at (read_digits-itoa_nat (suc n)) in
    rw e (unfold atoi in ground (arith, r))

pub itoa_nat-injective : (m n : ℕ) → itoa_nat m ≡ itoa_nat n → m ≡ n
itoa_nat-injective m n e =
    ground
      (arith, sym (read_digits-itoa_nat m) ∙ ap (λ s. read_digits s 0) e ∙ read_digits-itoa_nat n)

pub IsDigit-Lacks : (b : ℕ) (s : Text) → ¬ IsDigit b → All IsDigit s → Lacks b s
IsDigit-Lacks b [] h ds = tt
IsDigit-Lacks b (c ∷ s) h (d, ds) = ((λ e. h (rw e at d)), IsDigit-Lacks b s h ds)

-- What Itoa prints holds no byte but digits and a sign.
pub itoa-Lacks : (b : ℕ) (z : ℤ) → ¬ IsDigit b → b ≢ b'-' → Lacks b (itoa z)
unfolding itoa
itoa-Lacks b (pos n) h k = IsDigit-Lacks b (itoa_nat n) h (itoa_nat-IsDigit n)
itoa-Lacks b (negsuc n) h k =
    ((λ e. k (sym e)), IsDigit-Lacks b (itoa_nat (suc n)) h (itoa_nat-IsDigit (suc n)))
