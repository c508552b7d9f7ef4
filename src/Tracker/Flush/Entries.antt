-- ===== src/Tracker/Flush/Entries.antt =====
-- What the loops of a flush do to a single tracked path.
use correlation.Base.{
  ℕ, Text, List, [], ◌∷◌, ◌≡◌, ◌≢◌, refl, sym, ap, ◌∙◌, arith, inl, inr, Bool, true, false, not,
  ◌&&◌, if◌then◌else◌, Bool-cases, Option, none, some, Map, lookup, delete, lookup-delete,
  IsDistinct, text_eq, text_eq_iff, All, ap₂,
}
use correlation.Paths.{clean}
use correlation.Aggregate.{clean_paths}
use correlation.Tracker.{ProgressTime, Tick, is_stale, is_ripe, swept, ripe, delete_all}
use correlation.Tracker.Bound.{lookup-swept-none}

-- an entry that is dropped without a request
abbrev pub keep_fresh : Tick → Text → Option ProgressTime → Option ProgressTime
keep_fresh k j none = none
keep_fresh k j (some p) = if is_stale k j p then none else some p

unfoldable pub contains : Text → List Text → Bool
contains j [] = false
contains j (p ∷ ps) = if text_eq p j then true else contains j ps

pub lookup-delete_all :
    (j : Text) (ps : List Text) (m : Map ProgressTime)
    → lookup j (delete_all ps m) ≡ (if contains j ps then none else lookup j m)
unfolding delete_all contains
lookup-delete_all j [] m = refl
lookup-delete_all j (p ∷ ps) m =
    ground (arith, lookup-delete_all j ps (delete p m), lookup-delete p j m)

-- whether an entry is old enough to be reported
abbrev pub is_due : ℕ → Tick → Text → Option ProgressTime → Bool
is_due interval k j none = false
is_due interval k j (some p) = not (is_stale k j p) && is_ripe interval k j p

contains_other :
    (b : Bool) (i j : Text) (r : List Text)
    → text_eq i j ≡ false
    → contains j (if b then i ∷ r else r) ≡ contains j r
unfolding contains
contains_other true i j r h = rw h
contains_other false i j r h = refl

contains_same :
    (b : Bool) (i j : Text) (r : List Text)
    → text_eq i j ≡ true
    → contains j r ≡ false
    → contains j (if b then i ∷ r else r) ≡ b
unfolding contains
contains_same true i j r h k = rw h
contains_same false i j r h k = k

lookup_other :
    (i j : Text) (p : ProgressTime) (m : Map ProgressTime)
    → text_eq i j ≡ false
    → lookup j ((i, p) ∷ m) ≡ lookup j m
unfolding lookup
lookup_other i j p m h = rw h

pub lookup_nil : (j : Text) → lookup {V = ProgressTime} j [] ≡ none
unfolding lookup
lookup_nil j = refl

lookup_same :
    (i j : Text) (p : ProgressTime) (m : Map ProgressTime)
    → text_eq i j ≡ true
    → lookup j ((i, p) ∷ m) ≡ some p
unfolding lookup
lookup_same i j p m h = rw h

some-ne-none : (p : ProgressTime) → some p ≢ none
some-ne-none p h = cc

abbrev due_entry : ℕ → Tick → Text → ProgressTime → Bool
due_entry interval k i p = not (is_stale k i p) && is_ripe interval k i p

ripe-cons :
    (interval : ℕ) (k : Tick) (i : Text) (p : ProgressTime) (m : Map ProgressTime)
    → ripe interval k ((i, p) ∷ m)
      ≡ (if due_entry interval k i p then i ∷ ripe interval k m else ripe interval k m)
unfolding ripe
ripe-cons interval k i p m = refl

contains-ripe-none :
    (interval : ℕ) (k : Tick) (j : Text) (m : Map ProgressTime)
    → lookup j m ≡ none
    → contains j (ripe interval k m) ≡ false
contains-ripe-none interval k j [] h = unfold contains ripe in refl
contains-ripe-none interval k j ((i, p) ∷ m) h = elim (Bool-cases (text_eq i j)) [
  | inl same ↦ absurd (some-ne-none p (sym (lookup_same i j p m same) ∙ h))
  | inr other ↦
      ap (contains j) (ripe-cons interval k i p m)
      ∙ contains_other (due_entry interval k i p) i j (ripe interval k m) other
      ∙ contains-ripe-none interval k j m (sym (lookup_other i j p m other) ∙ h)
]

pub contains-ripe :
    (interval : ℕ) (k : Tick) (j : Text) (m : Map ProgressTime)
    → IsDistinct m
    → contains j (ripe interval k m) ≡ is_due interval k j (lookup j m)
contains-ripe interval k j [] h = unfold lookup contains ripe in refl
contains-ripe interval k j ((i, p) ∷ m) (fresh, h) = elim (Bool-cases (text_eq i j)) [
  | inl same ↦
      let e : i ≡ j = (text_eq_iff i j).0 same in
      ap (contains j) (ripe-cons interval k i p m)
      ∙ contains_same (due_entry interval k i p) i j (ripe interval k m) same
          (contains-ripe-none interval k j m (rw e at fresh))
      ∙ ap (λ x. due_entry interval k x p) e
      ∙ sym (ap (is_due interval k j) (lookup_same i j p m same))
  | inr other ↦
      ap (contains j) (ripe-cons interval k i p m)
      ∙ contains_other (due_entry interval k i p) i j (ripe interval k m) other
      ∙ contains-ripe interval k j m h
      ∙ sym (ap (is_due interval k j) (lookup_other i j p m other))
]

-- Every tracked path is clean.
abbrev pub AllClean : Map ProgressTime → Type 0
AllClean m = All (λ (x : Text × ProgressTime). clean x.0 ≡ x.0) m

clean_paths-if :
    (b : Bool) (i : Text) (r : List Text)
    → clean i ≡ i
    → clean_paths r ≡ r
    → clean_paths (if b then i ∷ r else r) ≡ (if b then i ∷ r else r)
unfolding clean_paths
clean_paths-if true i r h k = ap₂ (λ x y. x ∷ y) h k
clean_paths-if false i r h k = k

-- then the paths of a request are those that were collected
pub clean_paths-ripe :
    (interval : ℕ) (k : Tick) (m : Map ProgressTime)
    → AllClean m
    → clean_paths (ripe interval k m) ≡ ripe interval k m
clean_paths-ripe interval k [] h = unfold clean_paths ripe in refl
clean_paths-ripe interval k ((i, p) ∷ m) (here, there) = rw (ripe-cons interval k i p m) (
    clean_paths-if (due_entry interval k i p) i (ripe interval k m) here
      (clean_paths-ripe interval k m there))

swept-cons :
    (k : Tick) (i : Text) (p : ProgressTime) (m : Map ProgressTime)
    → swept k ((i, p) ∷ m) ≡ (if is_stale k i p then swept k m else (i, p) ∷ swept k m)
unfolding swept
swept-cons k i p m = refl

lookup_kept_same :
    (b : Bool) (i j : Text) (p : ProgressTime) (m : Map ProgressTime)
    → text_eq i j ≡ true
    → lookup j m ≡ none
    → lookup j (if b then m else (i, p) ∷ m) ≡ (if b then none else some p)
lookup_kept_same true i j p m same gone = gone
lookup_kept_same false i j p m same gone = lookup_same i j p m same

lookup_kept_other :
    (b : Bool) (i j : Text) (p : ProgressTime) (m : Map ProgressTime)
    → text_eq i j ≡ false
    → lookup j (if b then m else (i, p) ∷ m) ≡ lookup j m
lookup_kept_other true i j p m other = refl
lookup_kept_other false i j p m other = lookup_other i j p m other

pub lookup-swept :
    (k : Tick) (j : Text) (m : Map ProgressTime)
    → IsDistinct m
    → lookup j (swept k m) ≡ keep_fresh k j (lookup j m)
lookup-swept k j [] h = unfold lookup swept in refl
lookup-swept k j ((i, p) ∷ m) (fresh, h) = elim (Bool-cases (text_eq i j)) [
  | inl same ↦
      let e : i ≡ j = (text_eq_iff i j).0 same in
      ap (lookup j) (swept-cons k i p m)
      ∙ lookup_kept_same (is_stale k i p) i j p (swept k m) same
          (lookup-swept-none k j m (rw e at fresh))
      ∙ ap (λ x. if is_stale k x p then none else some p) e
      ∙ sym (ap (keep_fresh k j) (lookup_same i j p m same))
  | inr other ↦
      ap (lookup j) (swept-cons k i p m)
      ∙ lookup_kept_other (is_stale k i p) i j p (swept k m) other
      ∙ lookup-swept k j m h
      ∙ sym (ap (keep_fresh k j) (lookup_other i j p m other))
]
