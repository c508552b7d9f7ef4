-- ===== src/Aggregate/Coverage.antt =====
-- No change is lost: each changed path is scanned, or a directory above it is.
use correlation.Base.{
  ℕ, Text, List, [], ◌∷◌, ◌≡◌, ◌≢◌, refl, sym, ◌∙◌, All, Any, ◌⊎◌, inl, inr, Bool, true, false,
  Bool-cases, Map, lookup, keys, ℤ, has_prefix, text_eq, text_eq_iff, sort_strings, insert_sorted,
  text_le, some,
}
use correlation.Paths.{slash, clean}
use correlation.Aggregate.{
  PathStatus, aggregate_changes, sorted_unique_and_clean_paths, clean_paths, unique_from,
  as_relative, trim_folder,
}
use correlation.Aggregate.Selection.{Covers, select-Covers}
use correlation.Aggregate.Scores.{
  FitsStatus, HasNoFile, IsSettled-is_enough, track_all-IsSettled_given,
}

insert_sorted-Any_self : (k : Text) (l : List Text) → Any (λ j. j ≡ k) (insert_sorted k l)
unfolding insert_sorted
insert_sorted-Any_self k [] = inl refl
insert_sorted-Any_self k (x ∷ l) = elim (Bool-cases (text_le k x)) [
  | inl e ↦ rw (e, insert_sorted) (inl refl)
  | inr e ↦ rw (e, insert_sorted) (inr (insert_sorted-Any_self k l))
]

insert_sorted-Any :
    (x k : Text) (l : List Text) → Any (λ j. j ≡ k) l → Any (λ j. j ≡ k) (insert_sorted x l)
unfolding insert_sorted
insert_sorted-Any x k [] h = absurd h
insert_sorted-Any x k (y ∷ l) (inl e) = elim (Bool-cases (text_le x y)) [
  | inl c ↦ rw (c, insert_sorted) (inr (inl e))
  | inr c ↦ rw (c, insert_sorted) (inl e)
]
insert_sorted-Any x k (y ∷ l) (inr h) = elim (Bool-cases (text_le x y)) [
  | inl c ↦ rw (c, insert_sorted) (inr (inr h))
  | inr c ↦ rw (c, insert_sorted) (inr (insert_sorted-Any x k l h))
]

sort_strings-Any :
    (l : List Text) (k : Text) → Any (λ j. j ≡ k) l → Any (λ j. j ≡ k) (sort_strings l)
unfolding sort_strings
sort_strings-Any [] k h = absurd h
sort_strings-Any (x ∷ l) k (inl e) = rw e (insert_sorted-Any_self k (sort_strings l))
sort_strings-Any (x ∷ l) k (inr h) = insert_sorted-Any x k (sort_strings l) (sort_strings-Any l k h)

keys-Any : (m : Map ℤ) (k : Text) {z : ℤ} → lookup k m ≡ some z → Any (λ j. j ≡ k) (keys m)
unfolding lookup
keys-Any [] k h = cc
keys-Any ((j, z) ∷ m) k h = elim (Bool-cases (text_eq j k)) [
  | inl e ↦ inl ((text_eq_iff j k).0 e)
  | inr e ↦ inr (keys-Any m k (rw (e, lookup) at h))
]

clean_paths-Any :
    (l : List Text) (p : Text) → Any (λ j. j ≡ p) l → Any (λ j. j ≡ clean p) (clean_paths l)
unfolding clean_paths
clean_paths-Any [] p h = absurd h
clean_paths-Any (x ∷ l) p (inl e) = inl (rw e)
clean_paths-Any (x ∷ l) p (inr h) = inr (clean_paths-Any l p h)

unique_new :
    (previous j : Text) (l : List Text)
    → text_eq (as_relative j) previous ≡ false
    → unique_from previous (j ∷ l) ≡ as_relative j ∷ unique_from (as_relative j) l
unfolding unique_from
unique_new previous j l h = rw h

unique_old :
    (previous j : Text) (l : List Text)
    → text_eq (as_relative j) previous ≡ true
    → unique_from previous (j ∷ l) ≡ unique_from (as_relative j) l
unfolding unique_from
unique_old previous j l h = rw h

-- only a path that was the last one is left out
unique_from-Any :
    (previous : Text) (l : List Text) (q : Text)
    → Any (λ j. j ≡ q) l
    → (previous ≡ as_relative q) ⊎ Any (λ j. j ≡ as_relative q) (unique_from previous l)
unique_from-Any previous [] q h = absurd h
unique_from-Any previous (j ∷ l) q (inl e) = elim (Bool-cases (text_eq (as_relative j) previous)) [
  | inl c ↦ inl (rw e at (sym ((text_eq_iff (as_relative j) previous).0 c)))
  | inr c ↦ inr (rw (unique_new previous j l c) (inl (rw e)))
]
unique_from-Any previous (j ∷ l) q (inr h) = elim (Bool-cases (text_eq (as_relative j) previous)) [
  | inl c ↦
      let same : as_relative j ≡ previous = (text_eq_iff (as_relative j) previous).0 c in
      elim (unique_from-Any (as_relative j) l q h) [
        | inl e ↦ inl (sym same ∙ e)
        | inr found ↦ inr (rw (unique_old previous j l c) found)
      ]
  | inr c ↦ elim (unique_from-Any (as_relative j) l q h) [
    | inl e ↦ inr (rw (unique_new previous j l c) (inl e))
    | inr found ↦ inr (rw (unique_new previous j l c) (inr found))
  ]
]

-- A path that is not the folder itself is kept, in its clean form.
pub sorted_unique_keeps :
    (paths : List Text) (p : Text)
    → Any (λ j. j ≡ p) paths
    → as_relative (clean p) ≢ []
    → Any (λ j. j ≡ as_relative (clean p)) (sorted_unique_and_clean_paths paths)
unfolding sorted_unique_and_clean_paths
sorted_unique_keeps paths p h ne =
    elim (unique_from-Any [] (sort_strings (clean_paths paths)) (clean p)
      (sort_strings-Any _ _ (clean_paths-Any paths p h))) [
        | inl e ↦ absurd (ne (sym e))
        | inr found ↦ found
      ]

module _ (dir_vs_files : ℕ) (folder : Text) (status : Text → PathStatus)
    (is_file : Text → Bool) where
  nothing_yet : HasNoFile dir_vs_files is_file []
  unfolding lookup
  nothing_yet = record { no_file = λ k e. cc }

  -- Every changed path but the folder itself is covered by a scan: of the folder, of the path, or of a
  -- directory above it. The status function must be consistent, in that no file is a directory and every
  -- file is in a directory, and the path below the folder must not begin with a slash.
  pub aggregate_changes-Covers :
      (paths : List Text) (p : Text)
      → All (FitsStatus dir_vs_files is_file folder status) (sorted_unique_and_clean_paths paths)
      → Any (λ q. q ≡ p) paths
      → as_relative (clean p) ≢ []
      → has_prefix (trim_folder folder (as_relative (clean p))) (slash ∷ []) ≡ false
      → Any
          (Covers (trim_folder folder (as_relative (clean p))))
          (aggregate_changes dir_vs_files folder status paths)
  unfolding aggregate_changes
  aggregate_changes-Covers paths p fits h ne relative =
      let given = sorted_unique_keeps paths p h ne in
      let k = trim_folder folder (as_relative (clean p)) in
      let settled =
        track_all-IsSettled_given dir_vs_files is_file folder status
          (sorted_unique_and_clean_paths paths) (as_relative (clean p))
          (record { paths = []; dirs = [] }) fits nothing_yet given in
      elim (select-Covers dir_vs_files _ [] _ k (sort_strings-Any _ k (keys-Any _ k settled.known))
        (IsSettled-is_enough dir_vs_files is_file _ k settled)) [
          | inl below ↦ absurd (true-ne-false (sym below ∙ relative))
          | inr covered ↦ covered
        ]
    where
      true-ne-false : true ≢ false
      true-ne-false e = cc
