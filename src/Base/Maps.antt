-- ===== src/Base/Maps.antt =====
-- Go maps with string keys as association lists. A missing key is `none`.
use Prim.Native.Nat.{suc, ◌≤◌}
use mathlib.Core.Path.{◌≡◌, refl, ◌∙◌}
use mathlib.Core.Logic.{inl, inr}
use mathlib.Core.Option.{Option, none, some}
use mathlib.Core.List.{List, [], ◌∷◌}
use native.Mathlib.Omega.{arith}
use correlation.Base.Tests.{if◌then◌else◌, Bool-cases}
use correlation.Base.Lists.{length}
use correlation.Base.Texts.{Text, text_eq, text_eq_iff, text_eq_comm}

abbrev pub Map {ℓ} : Type ℓ → Type ℓ
Map V = List (Text × V)

module _ {ℓ} {V : Type ℓ} where
  unfoldable pub lookup : Text → Map V → Option V
  lookup k [] = none
  lookup k ((j, v) ∷ m) = if text_eq j k then some v else lookup k m

  unfoldable pub insert : Text → V → Map V → Map V
  insert k v [] = (k, v) ∷ []
  insert k v ((j, w) ∷ m) = if text_eq j k then (k, v) ∷ m else (j, w) ∷ insert k v m

  unfoldable pub delete : Text → Map V → Map V
  delete k [] = []
  delete k ((j, v) ∷ m) = let rest = delete k m in if text_eq j k then rest else (j, v) ∷ rest

  abbrev pub keys : Map V → List Text
  keys [] = []
  keys ((k, v) ∷ m) = k ∷ keys m

  pub lookup-insert :
      (k j : Text) (v : V) (m : Map V)
      → lookup j (insert k v m) ≡ (if text_eq k j then some v else lookup j m)
  unfolding lookup insert
  lookup-insert k j v [] = refl
  lookup-insert k j v ((i, w) ∷ m) =
      ground (arith, text_eq_iff k j, text_eq_iff i k, text_eq_iff i j, lookup-insert k j v m)

  pub lookup-delete :
      (k j : Text) (m : Map V) → lookup j (delete k m) ≡ (if text_eq k j then none else lookup j m)
  unfolding lookup delete
  lookup-delete k j [] = ground arith
  lookup-delete k j ((i, w) ∷ m) =
      ground (arith, text_eq_iff k j, text_eq_iff i k, text_eq_iff i j, lookup-delete k j m)

  pub length-insert : (k : Text) (v : V) (m : Map V) → length (insert k v m) ≤ suc (length m)
  unfolding insert
  length-insert k v [] = omega arith
  length-insert k v ((j, w) ∷ m) = ground (arith, length-insert k v m)

  -- A write to a key that is there does not grow the map.
  pub length-insert_known :
      (k : Text) (v w : V) (m : Map V) → lookup k m ≡ some w → length (insert k v m) ≡ length m
  unfolding insert lookup
  length-insert_known k v w [] h = cc
  length-insert_known k v w ((j, u) ∷ m) h = ground (arith, length-insert_known k v w m)

  pub length-delete : (k : Text) (m : Map V) → length (delete k m) ≤ length m
  unfolding delete
  length-delete k [] = omega arith
  length-delete k ((j, v) ∷ m) = ground (arith, length-delete k m)

module _ {ℓ} {V : Type ℓ} where
  -- No key stands twice, as in any Go map.
  abbrev pub IsDistinct : Map V → Type ℓ
  IsDistinct [] = Unit
  IsDistinct ((k, v) ∷ m) = (lookup k m ≡ none) × IsDistinct m

  pub insert-IsDistinct : (k : Text) (v : V) (m : Map V) → IsDistinct m → IsDistinct (insert k v m)
  unfolding insert lookup
  insert-IsDistinct k v [] h = (refl, tt)
  insert-IsDistinct k v ((j, w) ∷ m) (fresh, h) = elim (Bool-cases (text_eq j k)) [
    | inl e ↦ rw (e, insert) (rw ((text_eq_iff j k).0 e) at fresh, h)
    | inr e ↦
        rw (e, insert)
          (lookup-insert k j v m ∙ rw (text_eq_comm k j ∙ e) fresh, insert-IsDistinct k v m h)
  ]

  pub delete-IsDistinct : (k : Text) (m : Map V) → IsDistinct m → IsDistinct (delete k m)
  unfolding delete
  delete-IsDistinct k [] h = tt
  delete-IsDistinct k ((j, w) ∷ m) (fresh, h) = elim (Bool-cases (text_eq j k)) [
    | inl e ↦ rw (e, delete) (delete-IsDistinct k m h)
    | inr e ↦
        rw (e, delete)
          (lookup-delete k j m ∙ rw (text_eq_comm k j ∙ e) fresh, delete-IsDistinct k m h)
  ]
