-- ===== src/Base/Lists.antt =====
-- Lists measured by native numbers, and a predicate on all elements.
use Prim.Native.Nat.{ℕ, zero, suc, ◌+◌}
use mathlib.Core.Path.{◌≡◌, refl, sym, ◌∙◌}
use mathlib.Core.Logic.{◌⊎◌, inl, inr, ∥∥₁_map}
use mathlib.Core.List.{List, [], ◌∷◌, ◌++◌, Perm, Permᴰ}
use mathlib.Core.Option.{Option, none, some}
use native.Mathlib.Omega.{arith}

module _ {ℓ} {A : Type ℓ} where
  abbrev pub length : List A → ℕ
  length [] = 0
  length (x ∷ xs) = suc (length xs)

  abbrev pub get_elem? : List A → ℕ → Option A
  get_elem? [] i = none
  get_elem? (x ∷ xs) zero = some x
  get_elem? (x ∷ xs) (suc i) = get_elem? xs i

  -- A write out of bounds changes nothing.
  abbrev pub set : List A → ℕ → A → List A
  set [] i v = []
  set (x ∷ xs) zero v = v ∷ xs
  set (x ∷ xs) (suc i) v = x ∷ set xs i v

  abbrev pub drop : ℕ → List A → List A
  drop zero xs = xs
  drop (suc n) [] = []
  drop (suc n) (x ∷ xs) = drop n xs

  pub length-append : (xs ys : List A) → length (xs ++ ys) ≡ length xs + length ys
  length-append [] ys = omega arith
  length-append (x ∷ xs) ys = omega (arith, length-append xs ys)

  -- A list with something behind it is not empty.
  pub append_cons_cases :
      (xs : List A) (y : A) (ys : List A) → (x : A) × (l : List A) × (xs ++ y ∷ ys ≡ x ∷ l)
  append_cons_cases [] y ys = (y, ys, refl)
  append_cons_cases (x ∷ xs) y ys = (x, xs ++ y ∷ ys, refl)

module _ {ℓ κ} {A : Type ℓ} (P : A → Type κ) where
  abbrev pub All : List A → Type κ
  All [] = Unit
  All (x ∷ xs) = P x × All xs

  pub All-append : (xs ys : List A) → All xs → All ys → All (xs ++ ys)
  All-append [] ys _ hy = hy
  All-append (x ∷ xs) ys (px, hx) hy = (px, All-append xs ys hx hy)

module _ {ℓ} {A : Type ℓ} (P : A → Type 0) where
  -- The place of an element of the list that is like this.
  abbrev pub Any : List A → Type 0
  Any [] = ⊥
  Any (x ∷ xs) = P x ⊎ Any xs

  pub Any-append_left : (xs ys : List A) → Any xs → Any (xs ++ ys)
  Any-append_left [] ys h = absurd h
  Any-append_left (x ∷ xs) ys (inl p) = inl p
  Any-append_left (x ∷ xs) ys (inr h) = inr (Any-append_left xs ys h)

  pub Any-append_right : (xs ys : List A) → Any ys → Any (xs ++ ys)
  Any-append_right [] ys h = h
  Any-append_right (x ∷ xs) ys h = inr (Any-append_right xs ys h)

-- what holds of each element that is in a list
pub All-each {κ} :
    {A : Type 0} (P : A → Type κ) (l : List A) → ((x : A) → Any (λ y. y ≡ x) l → P x) → All P l
All-each P [] h = tt
All-each P (x ∷ l) h = (h x (inl refl), All-each P l (λ y at. h y (inr at)))

Any-Permᴰ :
    {A : Type 0} (d : A) {l m : List A} → Permᴰ l m → Any (λ e. e ≡ d) l → Any (λ e. e ≡ d) m
Any-Permᴰ d Permᴰ.nil h = h
Any-Permᴰ d (Permᴰ.cons e p) (inl q) = inl (sym e ∙ q)
Any-Permᴰ d (Permᴰ.cons e p) (inr h) = inr (Any-Permᴰ d p h)
Any-Permᴰ d (Permᴰ.swap e e') (inl q) = inr (inl (sym e ∙ q))
Any-Permᴰ d (Permᴰ.swap e e') (inr (inl q)) = inl (sym e' ∙ q)
Any-Permᴰ d (Permᴰ.swap e e') (inr (inr h)) = inr (inr h)
Any-Permᴰ d (Permᴰ.trans p q) h = Any-Permᴰ d q (Any-Permᴰ d p h)

-- an element stays in a list that is rearranged
pub Any-Perm :
    {A : Type 0} (d : A) (l m : List A) → Perm l m → Any (λ e. e ≡ d) l → ∥ Any (λ e. e ≡ d) m ∥₁
Any-Perm d l m p h = ∥∥₁_map {B = Any (λ e. e ≡ d) m} p (λ q. Any-Permᴰ d q h)
