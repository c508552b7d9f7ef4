-- ===== src/Aggregate/Selection.antt =====
-- Which of the sorted keys are selected.
use correlation.Base.{
  ℕ, Text, List, [], ◌∷◌, ◌++◌, ◌≡◌, ◌≢◌, refl, sym, ◌∙◌, All, Any, ◌⊎◌, inl, inr, Bool, true,
  false, Bool-cases, Map, lookup, ℤ, has_prefix, text_eq,
}
use correlation.Paths.{slash}
use correlation.Aggregate.{select, is_enough, or_zero}

-- A scan of the folder itself, of the path, or of a directory above it.
abbrev pub Covers : Text → Text → Type 0
Covers k s = (s ≡ []) ⊎ ((s ≡ k) ⊎ (has_prefix k (s ++ slash ∷ []) ≡ true))

module _ (dir_vs_files : ℕ) (scores : Map ℤ) where
  abbrev pub is_due : Text → Bool
  is_due k = is_enough dir_vs_files (or_zero (lookup k scores))

  true-ne-false : true ≢ false
  true-ne-false h = cc

  -- the first branch that applies, as an equation each
  select_below :
      (previous k : Text) (ks : List Text)
      → has_prefix k (previous ++ slash ∷ []) ≡ true
      → select dir_vs_files scores previous (k ∷ ks) ≡ select dir_vs_files scores previous ks
  unfolding select
  select_below previous k ks h = rw h

  select_low :
      (previous k : Text) (ks : List Text)
      → has_prefix k (previous ++ slash ∷ []) ≡ false
      → is_due k ≡ false
      → select dir_vs_files scores previous (k ∷ ks) ≡ select dir_vs_files scores previous ks
  unfolding select
  select_low previous k ks h l = rw (h, l)

  select_root :
      (previous : Text) (ks : List Text)
      → has_prefix [] (previous ++ slash ∷ []) ≡ false
      → is_due [] ≡ true
      → select dir_vs_files scores previous ([] ∷ ks) ≡ [] ∷ []
  unfolding select text_eq
  select_root previous ks h l = rw (h, l)

  select_due :
      (previous : Text) (c : ℕ) (k : Text) (ks : List Text)
      → has_prefix (c ∷ k) (previous ++ slash ∷ []) ≡ false
      → is_due (c ∷ k) ≡ true
      → select dir_vs_files scores previous ((c ∷ k) ∷ ks)
        ≡ (c ∷ k) ∷ select dir_vs_files scores (c ∷ k) ks
  unfolding select text_eq
  select_due previous c k ks h l = rw (h, l)

  -- What select does with a key: it drops the key, or it selects it and stops, or it goes on behind it.
  data Choice (previous k : Text) (ks : List Text) : Type 0 where
    drop_below :
        has_prefix k (previous ++ slash ∷ []) ≡ true
        → select dir_vs_files scores previous (k ∷ ks) ≡ select dir_vs_files scores previous ks
        → Choice previous k ks
    drop_low :
        is_due k ≡ false
        → select dir_vs_files scores previous (k ∷ ks) ≡ select dir_vs_files scores previous ks
        → Choice previous k ks
    take_root :
        k ≡ []
        → is_due k ≡ true
        → select dir_vs_files scores previous (k ∷ ks) ≡ k ∷ []
        → Choice previous k ks
    take_key :
        is_due k ≡ true
        → select dir_vs_files scores previous (k ∷ ks) ≡ k ∷ select dir_vs_files scores k ks
        → Choice previous k ks

  choice : (previous k : Text) (ks : List Text) → Choice previous k ks
  choice previous [] ks = elim (Bool-cases (has_prefix [] (previous ++ slash ∷ []))) [
    | inl b ↦ drop_below b (select_below previous [] ks b)
    | inr b ↦ elim (Bool-cases (is_due [])) [
      | inl d ↦ take_root refl d (select_root previous ks b d)
      | inr d ↦ drop_low d (select_low previous [] ks b d)
    ]
  ]
  choice previous (c ∷ k) ks = elim (Bool-cases (has_prefix (c ∷ k) (previous ++ slash ∷ []))) [
    | inl b ↦ drop_below b (select_below previous (c ∷ k) ks b)
    | inr b ↦ elim (Bool-cases (is_due (c ∷ k))) [
      | inl d ↦ take_key d (select_due previous c k ks b d)
      | inr d ↦ drop_low d (select_low previous (c ∷ k) ks b d)
    ]
  ]

  select-nil : (previous : Text) → select dir_vs_files scores previous [] ≡ []
  unfolding select
  select-nil previous = refl

  -- Every path that is selected has enough changes, or is that of a file.
  pub select_sound :
      (previous : Text) (ks : List Text)
      → All (λ s. is_due s ≡ true) (select dir_vs_files scores previous ks)
  select_sound previous [] = rw (select-nil previous) tt
  select_sound previous (k ∷ ks) = elim (choice previous k ks) [
    | drop_below b e ↦ rw e (select_sound previous ks)
    | drop_low d e ↦ rw e (select_sound previous ks)
    | take_root r d e ↦ rw e (d, tt)
    | take_key d e ↦ rw e (d, select_sound k ks)
  ]

  -- A key with enough changes, or that of a file, is below the path selected before, or covered by one
  -- that is selected.
  pub select-Covers :
      (previous : Text) (ks : List Text) (k : Text)
      → Any (λ j. j ≡ k) ks
      → is_due k ≡ true
      → (has_prefix k (previous ++ slash ∷ []) ≡ true)
        ⊎ Any (Covers k) (select dir_vs_files scores previous ks)
  select-Covers previous [] k h d = absurd h
  select-Covers previous (j ∷ ks) k (inl same) d = elim (choice previous j ks) [
    | drop_below b e ↦ inl (rw same at b)
    | drop_low low e ↦ absurd (true-ne-false (sym d ∙ rw same at low))
    | take_root r due e ↦ inr (rw e (inl (inl r)))
    | take_key due e ↦ inr (rw e (inl (inr (inl same))))
  ]
  select-Covers previous (j ∷ ks) k (inr h) d = elim (choice previous j ks) [
    | drop_below b e ↦ rw e (select-Covers previous ks k h d)
    | drop_low low e ↦ rw e (select-Covers previous ks k h d)
    | take_root r due e ↦ inr (rw e (inl (inl r)))
    | take_key due e ↦ elim (select-Covers j ks k h d) [
      | inl below ↦ inr (rw e (inl (inr (inr below))))
      | inr found ↦ inr (rw e (inr found))
    ]
  ]
