-- ===== src/Devices/Change.antt =====
-- When two lists of devices have the same FullString, which is how the backends and the service
-- notice a change.
pub mod Parts
use mathlib.Core.List.{cons-ne-nil}
use mathlib.Core.List.Perm
use correlation.Base.{
  Text, List, [], ◌∷◌, ◌++◌, map, ◌≡◌, ◌↔◌, refl, sym, ap, ◌∙◌, arith, All, Perm, sort_strings,
  sort_strings_of_perm, sort_strings-perm,
}
use correlation.Strings.{join}
use correlation.Devices.{DeviceRegistration, DeviceRegistrations, full_string, list_full_string}
use Parts.{list_full_string-cons, decode_or, map-decode_or, IsTame}

-- The FullString of a list of devices does not depend on the order in which a backend returns them.
pub list_full_string_of_perm :
    (ds es : DeviceRegistrations) → Perm ds es → list_full_string ds ≡ list_full_string es
unfolding list_full_string
list_full_string_of_perm [] [] p = refl
list_full_string_of_perm [] (e ∷ es) p = absurd (cons-ne-nil e es (sym (Perm.nil-eq p)))
list_full_string_of_perm (d ∷ ds) [] p = absurd (cons-ne-nil d ds (Perm.eq-nil p))
list_full_string_of_perm (d ∷ ds) (e ∷ es) p =
    ap (λ l. b'[' ∷ (join b',' l ++ b']' ∷ [])) (sort_strings_of_perm (Perm.map full_string p))

sorted_perm : (l m : List Text) → sort_strings l ≡ sort_strings m → Perm l m
sorted_perm l m q = Perm.trans (Perm.symm (sort_strings-perm l)) (rw q (sort_strings-perm m))

same_sorted :
    (ds es : DeviceRegistrations)
    → All IsTame ds
    → All IsTame es
    → list_full_string ds ≡ list_full_string es
    → sort_strings (map full_string ds) ≡ sort_strings (map full_string es)
unfolding list_full_string
same_sorted [] [] hd he q = refl
same_sorted [] (e ∷ es) hd he q = cc
same_sorted (d ∷ ds) [] hd he q = cc
same_sorted (d ∷ ds) (e ∷ es) hd he q = list_full_string-cons d e ds es hd he q

-- For devices whose IDs and addresses hold no comma, whose addresses hold no dash and whose ports are
-- not negative, two lists have the same FullString exactly when one is a rearrangement of the other:
-- a change of any device is noticed, and a change of order is not.
pub list_full_string_iff_perm :
    (ds es : DeviceRegistrations)
    → All IsTame ds
    → All IsTame es
    → (list_full_string ds ≡ list_full_string es) ↔ Perm ds es
list_full_string_iff_perm ds es hd he = (
  λ q.
      rw (map-decode_or ds hd, map-decode_or es he) at
        (Perm.map decode_or (sorted_perm _ _ (same_sorted ds es hd he q))),
  list_full_string_of_perm ds es,
)
