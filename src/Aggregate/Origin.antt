-- ===== src/Aggregate/Origin.antt =====
-- Where a scan comes from.
use correlation.Base.{
  ℕ, Text, List, [], ◌∷◌, ◌++◌, ◌≡◌, refl, All, Any, ◌⊎◌, inl, inr, Bool, true, false, not,
  if◌then◌else◌, Bool-cases, Map, lookup, insert, keys, ℤ, has_prefix, text_eq, sort_strings,
  insert_sorted, text_le,
}
use correlation.Paths.{slash}
use correlation.Aggregate.{
  Tracked, PathStatus, deleted_path, directory_path, file_path, parent, enter, count_above,
  trim_folder, track, track_all, select, is_enough, or_zero, aggregate_changes,
  sorted_unique_and_clean_paths,
}

module _ (P : Text → Type 0) where
  keys-insert : (k : Text) (z : ℤ) (m : Map ℤ) → P k → All P (keys m) → All P (keys (insert k z m))
  unfolding insert
  keys-insert k z [] p h = (p, tt)
  keys-insert k z ((j, w) ∷ m) p (q, h) = elim (Bool-cases (text_eq j k)) [
    | inl e ↦ rw e (p, h)
    | inr e ↦ rw e (q, keys-insert k z m p h)
  ]

  keys-count_above :
      (dirs : Map Bool) (d : Text) (m : Map ℤ)
      → All P (keys m)
      → All P (keys (count_above dirs d m))
  unfolding count_above
  keys-count_above dirs d [] h = tt
  keys-count_above dirs d ((k, z) ∷ m) (p, h) = (p, keys-count_above dirs d m h)

  insert_sorted-All : (k : Text) (l : List Text) → P k → All P l → All P (insert_sorted k l)
  unfolding insert_sorted
  insert_sorted-All k [] p h = (p, tt)
  insert_sorted-All k (x ∷ l) p (q, h) = elim (Bool-cases (text_le k x)) [
    | inl e ↦ rw e (p, (q, h))
    | inr e ↦ rw e (q, insert_sorted-All k l p h)
  ]

  sort_strings-All : (l : List Text) → All P l → All P (sort_strings l)
  unfolding sort_strings
  sort_strings-All [] h = tt
  sort_strings-All (k ∷ l) (p, h) = insert_sorted-All k (sort_strings l) p (sort_strings-All l h)

  if-All : (b : Bool) (l m : List Text) → All P l → All P m → All P (if b then l else m)
  if-All true l m hl hm = hl
  if-All false l m hl hm = hm

  select-All :
      (dir_vs_files : ℕ) (scores : Map ℤ) (previous : Text) (ks : List Text)
      → All P ks
      → All P (select dir_vs_files scores previous ks)
  unfolding select
  select-All dir_vs_files scores previous [] h = tt
  select-All dir_vs_files scores previous (k ∷ ks) (p, h) =
      let skipped = select-All dir_vs_files scores previous ks h in
      let others = select-All dir_vs_files scores k ks h in
      if-All (has_prefix k (previous ++ slash ∷ [])) _ _ skipped (
        if-All (not (is_enough dir_vs_files (or_zero (lookup k scores)))) _ _ skipped
          (if-All (text_eq k []) _ _ (p, tt) (p, others)))

module _ (dir_vs_files : ℕ) (folder : Text) (status : Text → PathStatus) where
  -- A scan is due to a changed path: it is of the path, or the path is a file and it is of the directory
  -- that holds the file.
  abbrev pub IsDueTo : Text → Text → Type 0
  IsDueTo s p =
      (s ≡ trim_folder folder p) ⊎ ((s ≡ parent (trim_folder folder p)) × (status p ≡ file_path))

  abbrev pub HasOrigin : List Text → Text → Type 0
  HasOrigin paths s = Any (IsDueTo s) paths

  enter-All :
      (P : Text → Type 0) (st : PathStatus) (path : Text) (t : Tracked)
      → P path
      → (st ≡ file_path → P (parent path))
      → All P (keys t.paths)
      → All P (keys (enter dir_vs_files st path t).paths)
  unfolding enter
  enter-All P deleted_path path t p q h = keys-insert P path _ t.paths p h
  enter-All P directory_path path t p q h = keys-insert P path _ t.paths p h
  enter-All P file_path path t p q h =
      keys-insert P (parent path) _ _ (q refl) (keys-insert P path _ t.paths p h)

  track-All :
      (P : Text → Type 0) (p : Text) (t : Tracked)
      → ((s : Text) → IsDueTo s p → P s)
      → All P (keys t.paths)
      → All P (keys (track dir_vs_files folder status p t).paths)
  unfolding track
  track-All P p t due h = keys-count_above P _ _ _ (
      enter-All P (status p) (trim_folder folder p) t (due _ (inl refl))
        (λ file. due _ (inr (refl, file))) h)

  track_all-All :
      (P : Text → Type 0) (ps : List Text) (t : Tracked)
      → ((s : Text) → HasOrigin ps s → P s)
      → All P (keys t.paths)
      → All P (keys (track_all dir_vs_files folder status ps t).paths)
  unfolding track_all
  track_all-All P [] t due h = h
  track_all-All P (p ∷ ps) t due h =
      track_all-All P ps (track dir_vs_files folder status p t) (λ s o. due s (inr o))
        (track-All P p t (λ s o. due s (inl o)) h)

  -- Every scan that is requested is of a changed path, or of the directory that directly holds a changed
  -- file: no directory further up is scanned, however many changes there are below it.
  pub aggregate_changes-HasOrigin :
      (paths : List Text)
      → All
          (HasOrigin (sorted_unique_and_clean_paths paths))
          (aggregate_changes dir_vs_files folder status paths)
  unfolding aggregate_changes
  aggregate_changes-HasOrigin paths =
      let ps = sorted_unique_and_clean_paths paths in
      select-All (HasOrigin ps) dir_vs_files _ [] _
        (sort_strings-All (HasOrigin ps) _ (track_all-All (HasOrigin ps) ps _ (λ s o. o) tt))
