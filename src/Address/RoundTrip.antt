-- ===== src/Address/RoundTrip.antt =====
-- What the parsers make of an announced address.
use correlation.Base.{
  ℕ, suc, ◌+◌, ◌≤◌, Text, List, [], ◌∷◌, ◌++◌, ◌≡◌, refl, sym, ap, arith, Lacks, true, false,
  Bool-cases, inl, inr, length, ◌==◌, ℤ, ok, err, append_assoc,
}
use mathlib.Core.Path.{subst}
use correlation.Strings.{split, push_first}
use correlation.Strings.Parts.{split-Lacks, split-append, split-cons_cases}
use correlation.Strconv.{itoa}
use correlation.Strconv.RoundTrip.{itoa-Lacks, atoi-itoa, FitsInt}
use correlation.Address.{
  IsPlainHost, contains_byte, join_host_port, announce_address, device_of_parts, parse_device_info,
  parse_address,
}

contains-Lacks : (b : ℕ) (s : Text) → Lacks b s → contains_byte b s ≡ false
unfolding contains_byte
contains-Lacks b [] h = refl
contains-Lacks b (c ∷ s) (hc, hs) = ground (arith, contains-Lacks b s hs)

itoa-split : (z : ℤ) → split b':' (itoa z) ≡ itoa z ∷ []
itoa-split z =
    split-Lacks b':' (itoa z) (itoa-Lacks b':' z (λ d. omega arith) (λ e. absurd (omega arith)))

-- What Run announces for an address without a colon or a percent sign and a port that an int holds is read back by the
-- parser as that address and port.
pub parse-announce :
    (ip : Text) (port : ℤ)
    → IsPlainHost ip
    → FitsInt port
    → parse_device_info (announce_address ip port) ≡ ok (record { id = []; ip = ip; port = port })
unfolding parse_device_info announce_address join_host_port
parse-announce ip port (h, percent) fits =
    rw
      (
        contains-Lacks b':' ip h,
        contains-Lacks b'%' ip percent,
        split-append b':' ip (itoa port) h,
        itoa-split port,
      )
      (ground (arith, atoi-itoa port fits))

length-push_first :
    (c : ℕ) (p : Text) (ps : List Text) → length (push_first c (p ∷ ps)) ≡ suc (length ps)
length-push_first c p ps = refl

-- Every separator makes one part more.
length-split-append :
    (sep : ℕ) (s t : Text)
    → length (split sep (s ++ sep ∷ t)) ≡ length (split sep s) + length (split sep t)
unfolding split
length-split-append sep [] t = ground arith
length-split-append sep (c ∷ s) t =
    let (p, ps, e) = split-cons_cases sep (s ++ sep ∷ t) in
    let (q, qs, f) = split-cons_cases sep s in
    let ih : suc (length ps) ≡ suc (length qs) + length (split sep t) =
      rw (e, f) at (length-split-append sep s t) in
    elim (Bool-cases (c == sep)) [
      | inl h ↦ rw (h, e, f) (omega arith)
      | inr h ↦ rw (h, e, f) (omega arith)
    ]

one-le-length-split : (sep : ℕ) (s : Text) → 1 ≤ length (split sep s)
one-le-length-split sep s = let (p, ps, e) = split-cons_cases sep s in rw e (omega arith)

contains_cut :
    (b : ℕ) (s : Text) → contains_byte b s ≡ true → (u : Text) × (v : Text) × (s ≡ u ++ b ∷ v)
unfolding contains_byte
contains_cut b [] h = absurd (f h)
  where
    f : false ≡ true → ⊥
    f e = cc
contains_cut b (c ∷ s) h = elim (Bool-cases (c == b)) [
  | inl e ↦ ([], s, ground arith)
  | inr e ↦ let (u, v, q) = contains_cut b s (ground arith) in (c ∷ u, v, ap (◌∷◌ c) q)
]

device_of_three :
    (s : Text) (l : List Text) → 3 ≤ length l → (e : Text) × (device_of_parts s l ≡ err e)
unfolding device_of_parts
device_of_three s [] h = absurd (omega arith)
device_of_three s (a ∷ []) h = absurd (omega arith)
device_of_three s (a ∷ b ∷ []) h = absurd (omega arith)
device_of_three s (a ∷ b ∷ c ∷ l) h = (_, refl)

three_parts : (sep : ℕ) (u v w : Text) → 3 ≤ length (split sep (u ++ sep ∷ (v ++ sep ∷ w)))
three_parts sep u v w = omega (
  arith,
  length-split-append sep u (v ++ sep ∷ w),
  length-split-append sep v w,
  one-le-length-split sep u,
  one-le-length-split sep v,
  one-le-length-split sep w,
)

bracket_parts :
    (u v w : Text)
    → b'[' ∷ ((u ++ b':' ∷ v) ++ b']' ∷ b':' ∷ w)
      ≡ (b'[' ∷ u) ++ b':' ∷ ((v ++ b']' ∷ []) ++ b':' ∷ w)
bracket_parts u v w = simp append_assoc

three_parts_of_colon :
    (ip w : Text)
    → contains_byte b':' ip ≡ true
    → 3 ≤ length (split b':' (b'[' ∷ (ip ++ b']' ∷ b':' ∷ w)))
three_parts_of_colon ip w h =
    let (u, v, q) = contains_cut b':' ip h in
    subst (λ s. 3 ≤ length (split b':' (b'[' ∷ (s ++ b']' ∷ b':' ∷ w)))) (sym q)
      (rw (bracket_parts u v w) (three_parts b':' (b'[' ∷ u) (v ++ b']' ∷ []) w))

-- An address with a colon, such as one of IPv6, is announced in brackets, and both parsers reject it.
pub parse-announce_colon :
    (ip : Text) (port : ℤ)
    → contains_byte b':' ip ≡ true
    → (e : Text) × (parse_device_info (announce_address ip port) ≡ err e)
      × (parse_address (announce_address ip port) ≡ err e)
unfolding parse_device_info parse_address announce_address join_host_port
parse-announce_colon ip port h =
    let (e, p) =
      device_of_three (b'[' ∷ (ip ++ b']' ∷ b':' ∷ itoa port)) _
        (three_parts_of_colon ip (itoa port) h) in
    (e, rw h p, rw h p)
