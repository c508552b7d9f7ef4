-- ===== src/Devices/Change/Parts.antt =====
-- The FullString of a list taken apart.
use correlation.Base.{
  ℕ, Text, List, [], ◌∷◌, ◌++◌, map, ◌≡◌, ◌≢◌, refl, ◌∙◌, arith, All, All-append, Lacks, Option,
  none, some, sort_strings, insert_sorted, Bool-cases, inl, inr, text_le, pos, append_cons_cases,
}
use correlation.Strings.{join}
use correlation.Strings.Parts.{split-join}
use correlation.Strconv.RoundTrip.{itoa-Lacks}
use correlation.Devices.{DeviceRegistration, DeviceRegistrations, full_string, list_full_string}
use correlation.Devices.Decode.{IsPlain, decode, decode-full_string}

-- A device whose parts hold no comma, and whose address and port are plain.
pub record IsTame (d : DeviceRegistration) : Type 0 where
  pub plain : IsPlain d
  pub id_Lacks : Lacks b',' d.id
  pub ip_Lacks : Lacks b',' d.ip

full_string-Lacks : (d : DeviceRegistration) → IsTame d → Lacks b',' (full_string d)
unfolding full_string
full_string-Lacks d h =
    All-append (λ c. c ≢ b',') d.id _ h.id_Lacks
      (
        (λ e. absurd (omega arith)),
        All-append (λ c. c ≢ b',') d.ip _ h.ip_Lacks
            (
              (λ e. absurd (omega arith)),
              itoa-Lacks b',' d.port (λ d. omega arith) (λ e. absurd (omega arith)),
            ),
      )

map-Lacks : (ds : DeviceRegistrations) → All IsTame ds → All (Lacks b',') (map full_string ds)
map-Lacks [] h = tt
map-Lacks (d ∷ ds) (h, hs) = (full_string-Lacks d h, map-Lacks ds hs)

insert_sorted-Lacks :
    (x : Text) (l : List Text)
    → Lacks b',' x
    → All (Lacks b',') l
    → All (Lacks b',') (insert_sorted x l)
unfolding insert_sorted
insert_sorted-Lacks x [] hx h = (hx, tt)
insert_sorted-Lacks x (y ∷ l) hx (hy, h) = elim (Bool-cases (text_le x y)) [
  | inl e ↦ rw (e, insert_sorted) (hx, (hy, h))
  | inr e ↦ rw (e, insert_sorted) (hy, insert_sorted-Lacks x l hx h)
]

sort_strings-Lacks : (l : List Text) → All (Lacks b',') l → All (Lacks b',') (sort_strings l)
unfolding sort_strings
sort_strings-Lacks [] h = tt
sort_strings-Lacks (x ∷ l) (hx, h) =
    insert_sorted-Lacks x (sort_strings l) hx (sort_strings-Lacks l h)

insert_sorted-cons :
    (x : Text) (l : List Text) → (y : Text) × (m : List Text) × (insert_sorted x l ≡ y ∷ m)
unfolding insert_sorted
insert_sorted-cons x [] = (x, [], refl)
insert_sorted-cons x (y ∷ l) = elim (Bool-cases (text_le x y)) [
  | inl e ↦ (x, y ∷ l, rw (e, insert_sorted))
  | inr e ↦ (y, insert_sorted x l, rw (e, insert_sorted))
]

join-injective :
    (l m : List Text) {p q : Text} {ps qs : List Text}
    → l ≡ p ∷ ps
    → m ≡ q ∷ qs
    → All (Lacks b',') l
    → All (Lacks b',') m
    → join b',' l ≡ join b',' m
    → l ≡ m
join-injective l m {p} {q} {ps} {qs} e f hl hm j =
    cc (split-join b',' p ps (rw e at hl), split-join b',' q qs (rw f at hm))

append-cancel_last : (c : ℕ) (s t : Text) → s ++ c ∷ [] ≡ t ++ c ∷ [] → s ≡ t
append-cancel_last c [] [] e = refl
append-cancel_last c [] (d ∷ t) e = let (x, l, p) = append_cons_cases t c [] in cc
append-cancel_last c (d ∷ s) [] e = let (x, l, p) = append_cons_cases s c [] in cc
append-cancel_last c (d ∷ s) (d' ∷ t) e = cc (append-cancel_last c s t (cc))

unfold_cons :
    (d : DeviceRegistration) (ds : DeviceRegistrations)
    → sort_strings (map full_string (d ∷ ds))
      ≡ insert_sorted (full_string d) (sort_strings (map full_string ds))
unfolding sort_strings
unfold_cons d ds = refl

-- Equal texts come from the same sorted list of device texts.
pub list_full_string-cons :
    (d e : DeviceRegistration) (ds es : DeviceRegistrations)
    → All IsTame (d ∷ ds)
    → All IsTame (e ∷ es)
    → list_full_string (d ∷ ds) ≡ list_full_string (e ∷ es)
    → sort_strings (map full_string (d ∷ ds)) ≡ sort_strings (map full_string (e ∷ es))
unfolding list_full_string
list_full_string-cons d e ds es hd he q =
    let (x, l, p) = insert_sorted-cons (full_string d) (sort_strings (map full_string ds)) in
    let (y, m, p') = insert_sorted-cons (full_string e) (sort_strings (map full_string es)) in
    join-injective (sort_strings (map full_string (d ∷ ds)))
      (sort_strings (map full_string (e ∷ es))) (unfold_cons d ds ∙ p) (unfold_cons e es ∙ p')
      (sort_strings-Lacks _ (map-Lacks (d ∷ ds) hd)) (sort_strings-Lacks _ (map-Lacks (e ∷ es) he))
      (append-cancel_last b']' _ _ (cc))

nobody : DeviceRegistration
nobody = record { id = []; ip = []; port = pos 0 }

from_option : Option DeviceRegistration → DeviceRegistration
from_option none = nobody
from_option (some d) = d

pub decode_or : Text → DeviceRegistration
unfolding from_option
decode_or s = from_option (decode s)

decode_or-full_string : (d : DeviceRegistration) → IsPlain d → decode_or (full_string d) ≡ d
unfolding decode_or
decode_or-full_string d h = rw (decode-full_string d h)

pub map-decode_or :
    (ds : DeviceRegistrations) → All IsTame ds → map decode_or (map full_string ds) ≡ ds
map-decode_or [] h = refl
map-decode_or (d ∷ ds) (h, hs) = cc (map-decode_or ds hs, decode_or-full_string d h.plain)
