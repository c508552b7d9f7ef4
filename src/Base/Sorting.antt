-- ===== src/Base/Sorting.antt =====
-- sort.Strings: the ascending rearrangement of a list of texts, written as an insertion sort.
-- The order is total and antisymmetric, so every correct sort returns this list.
use mathlib.Core.Path.{◌≡◌, refl, ap₂, ◌∙◌}
use mathlib.Core.Logic.{inl, inr, ∥∥₁_elim}
use mathlib.Core.Bool.{true}
use mathlib.Core.List.{List, [], ◌∷◌, Perm, Permᴰ}
use mathlib.Core.List.Perm
use native.Mathlib.Omega.{arith}
use correlation.Base.Tests.{if◌then◌else◌, Bool-cases}
use correlation.Base.Lists.{All}
use correlation.Base.Texts.{Text}
use correlation.Base.Order.{text_le, text_le_antisym, text_le_total, text_le_trans}

unfoldable pub insert_sorted : Text → List Text → List Text
insert_sorted x [] = x ∷ []
insert_sorted x (y ∷ l) = if text_le x y then x ∷ y ∷ l else y ∷ insert_sorted x l

unfoldable pub sort_strings : List Text → List Text
unfolding insert_sorted
sort_strings [] = []
sort_strings (x ∷ l) = insert_sorted x (sort_strings l)

abbrev pub IsSorted : List Text → Type 0
IsSorted [] = Unit
IsSorted (x ∷ l) = All (λ y. text_le x y ≡ true) l × IsSorted l

insert_sorted_comm :
    (x y : Text) (l : List Text)
    → insert_sorted x (insert_sorted y l) ≡ insert_sorted y (insert_sorted x l)
unfolding insert_sorted
insert_sorted_comm x y [] = ground (arith, text_le_total x y, text_le_antisym x y)
insert_sorted_comm x y (z ∷ l) = ground (
  arith,
  text_le_total x y,
  text_le_antisym x y,
  text_le_trans x y z,
  text_le_trans y x z,
  insert_sorted_comm x y l,
  text_le_total x z,
  text_le_total y z,
)

insert_sorted-perm : (x : Text) (l : List Text) → Perm (insert_sorted x l) (x ∷ l)
unfolding insert_sorted
insert_sorted-perm x [] = Perm.refl (x ∷ [])
insert_sorted-perm x (y ∷ l) = elim (Bool-cases (text_le x y)) [
  | inl e ↦ rw e (Perm.refl (x ∷ y ∷ l))
  | inr e ↦ rw e (Perm.trans (Perm.cons y (insert_sorted-perm x l)) (Perm.swap x y l))
]

pub sort_strings-perm : (l : List Text) → Perm (sort_strings l) l
unfolding sort_strings
sort_strings-perm [] = Perm.refl []
sort_strings-perm (x ∷ l) =
    Perm.trans (insert_sorted-perm x (sort_strings l)) (Perm.cons x (sort_strings-perm l))

sort_strings_of_permᴰ : {l m : List Text} → Permᴰ l m → sort_strings l ≡ sort_strings m
unfolding sort_strings
sort_strings_of_permᴰ Permᴰ.nil = refl
sort_strings_of_permᴰ (Permᴰ.cons e p) = ap₂ insert_sorted e (sort_strings_of_permᴰ p)
sort_strings_of_permᴰ (Permᴰ.swap {a} {b} {a'} {b'} {l} e f) =
    rw (e, f) (insert_sorted_comm b' a' (sort_strings l))
sort_strings_of_permᴰ (Permᴰ.trans p q) = sort_strings_of_permᴰ p ∙ sort_strings_of_permᴰ q

List_Text-set : IsSet (List Text)
List_Text-set = hlevel

-- Rearranging the input does not change the result.
pub sort_strings_of_perm : {l m : List Text} → Perm l m → sort_strings l ≡ sort_strings m
sort_strings_of_perm p = ∥∥₁_elim p (List_Text-set _ _) sort_strings_of_permᴰ
