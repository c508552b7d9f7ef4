-- ===== src/Aggregate/Scores.antt =====
-- What one changed path does to the scores of the others.
use correlation.Base.{
  ℕ, suc, ◌≤◌, Text, List, [], ◌∷◌, ◌≡◌, ◌≢◌, refl, sym, ◌∙◌, arith, none, some, Bool, true, false,
  ◌&&◌, if◌then◌else◌, Bool-cases, inl, inr, All, Any, Map, lookup, insert, lookup-insert, ℤ, pos,
  negsuc, suc_ℤ, text_eq, text_eq_iff, text_eq_refl,
}
use mathlib.Core.Path.{subst}
use correlation.Aggregate.{
  Tracked, PathStatus, deleted_path, directory_path, file_path, increment, or_zero, parent, enter,
  is_above, count_above, trim_folder, track, track_all, or_false, is_enough,
}

lookup-count_above :
    (dirs : Map Bool) (d k : Text) (m : Map ℤ)
    → lookup k (count_above dirs d m)
      ≡ elim (lookup k m) [ none ↦ none | some z ↦ some (if is_above dirs d k then suc_ℤ z else z) ]
unfolding lookup count_above
lookup-count_above dirs d k [] = refl
lookup-count_above dirs d k ((j, z) ∷ m) = elim (Bool-cases (text_eq j k)) [
  | inl e ↦ let same : j ≡ k = (text_eq_iff j k).0 e in rw (e, same) refl
  | inr e ↦ rw e (lookup-count_above dirs d k m)
]

and_left : (a b : Bool) → (a && b) ≡ true → a ≡ true
and_left a b h = ground arith

module _ (dir_vs_files : ℕ) (is_file : Text → Bool) where
  -- the score of a file, or enough for a directory
  abbrev pub Scored : Bool → ℤ → Type 0
  Scored true z = z ≡ negsuc 0
  Scored false z = (n : ℕ) × (z ≡ pos n) × (dir_vs_files ≤ n)

  -- A path that will be scanned, whatever else changes.
  pub record IsSettled (m : Map ℤ) (k : Text) : Type 0 where
    pub score : ℤ
    pub known : lookup k m ≡ some score
    pub scored : Scored (is_file k) score

  -- No file is taken for a directory.
  pub record HasNoFile (dirs : Map Bool) : Type 0 where
    pub no_file : (k : Text) → or_false (lookup k dirs) ≡ true → is_file k ≡ false

  true-ne-false : true ≢ false
  true-ne-false h = cc

  suc-Scored : (b : Bool) (z : ℤ) → b ≡ false → Scored b z → Scored b (suc_ℤ z)
  suc-Scored true z h s = absurd (true-ne-false h)
  suc-Scored false z h (n, e, le) = (suc n, rw e (ground arith), omega arith)

  insert-IsSettled :
      (m : Map ℤ) (k j : Text) (z : ℤ)
      → Scored (is_file j) z
      → IsSettled m k
      → IsSettled (insert j z m) k
  insert-IsSettled m k j z new h = elim (Bool-cases (text_eq j k)) [
    | inl e ↦
        let same : j ≡ k = (text_eq_iff j k).0 e in
        record { score = z; known = lookup-insert j k z m ∙ rw e; scored = rw same at new }
    | inr e ↦ record {
      score = h.score;
      known = lookup-insert j k z m ∙ rw e h.known;
      scored = h.scored;
    }
  ]

  insert-IsSettled_self :
      (m : Map ℤ) (k : Text) (z : ℤ) → Scored (is_file k) z → IsSettled (insert k z m) k
  insert-IsSettled_self m k z new = record {
    score = z;
    known = lookup-insert k k z m ∙ rw (text_eq_refl k);
    scored = new;
  }

  increment-IsSettled :
      (m : Map ℤ) (k j : Text) → is_file j ≡ false → IsSettled m k → IsSettled (increment j m) k
  increment-IsSettled m k j dir h = elim (Bool-cases (text_eq j k)) [
    | inl e ↦
        let same : j ≡ k = (text_eq_iff j k).0 e in
        record {
          score = suc_ℤ h.score;
          known = lookup-insert j k _ m ∙ rw (e, same, h.known);
          scored = suc-Scored (is_file k) h.score (rw same at dir) h.scored;
        }
    | inr e ↦ record {
      score = h.score;
      known = lookup-insert j k _ m ∙ rw e h.known;
      scored = h.scored;
    }
  ]

  count_above-IsSettled :
      (dirs : Map Bool) (d : Text) (m : Map ℤ) (k : Text)
      → HasNoFile dirs
      → IsSettled m k
      → IsSettled (count_above dirs d m) k
  count_above-IsSettled dirs d m k dirs_only h = elim (Bool-cases (is_above dirs d k)) [
    | inl e ↦ record {
      score = suc_ℤ h.score;
      known = lookup-count_above dirs d k m ∙ rw (h.known, e);
      scored = suc-Scored (is_file k) h.score (dirs_only.no_file k (and_left _ _ e)) h.scored;
    }
    | inr e ↦ record {
      score = h.score;
      known = lookup-count_above dirs d k m ∙ rw (h.known, e);
      scored = h.scored;
    }
  ]

  Scored-is_enough : (b : Bool) (z : ℤ) → Scored b z → is_enough dir_vs_files z ≡ true
  Scored-is_enough true z h = rw h (ground arith)
  Scored-is_enough false z (n, e, le) = rw e (ground arith)

  pub IsSettled-is_enough :
      (m : Map ℤ) (k : Text) → IsSettled m k → is_enough dir_vs_files (or_zero (lookup k m)) ≡ true
  IsSettled-is_enough m k h = rw h.known (Scored-is_enough (is_file k) h.score h.scored)

  -- What the status of a path must agree with: a file is no directory, and is in a directory.
  abbrev pub Fits : PathStatus → Text → Type 0
  Fits file_path path = (is_file path ≡ true) × (is_file (parent path) ≡ false)
  Fits directory_path path = is_file path ≡ false
  Fits deleted_path path = is_file path ≡ false

  insert-HasNoFile :
      (dirs : Map Bool) (j : Text)
      → is_file j ≡ false
      → HasNoFile dirs
      → HasNoFile (insert j true dirs)
  insert-HasNoFile dirs j dir h = record {
    no_file = λ k e. elim (Bool-cases (text_eq j k)) [
      | inl same ↦ rw ((text_eq_iff j k).0 same) at dir
      | inr other ↦ h.no_file k (rw (lookup-insert j k true dirs, other) at e)
    ];
  }

  enough : (b : Bool) → b ≡ false → Scored b (pos dir_vs_files)
  enough true h = absurd (true-ne-false h)
  enough false h = (dir_vs_files, refl, omega arith)

  of_file : (b : Bool) → b ≡ true → Scored b (negsuc 0)
  of_file true h = refl
  of_file false h = absurd (true-ne-false (sym h))

  enter-HasNoFile :
      (s : PathStatus) (path : Text) (t : Tracked)
      → Fits s path
      → HasNoFile t.dirs
      → HasNoFile (enter dir_vs_files s path t).dirs
  unfolding enter
  enter-HasNoFile deleted_path path t fits h = h
  enter-HasNoFile directory_path path t fits h = insert-HasNoFile t.dirs path fits h
  enter-HasNoFile file_path path t fits h = insert-HasNoFile t.dirs (parent path) fits.1 h

  enter-IsSettled :
      (s : PathStatus) (path k : Text) (t : Tracked)
      → Fits s path
      → IsSettled t.paths k
      → IsSettled (enter dir_vs_files s path t).paths k
  unfolding enter
  enter-IsSettled deleted_path path k t fits h = insert-IsSettled t.paths k path _ (enough _ fits) h
  enter-IsSettled directory_path path k t fits h =
      insert-IsSettled t.paths k path _ (enough _ fits) h
  enter-IsSettled file_path path k t fits h =
      increment-IsSettled _ k (parent path) fits.1
        (insert-IsSettled t.paths k path _ (of_file _ fits.0) h)

  enter-IsSettled_self :
      (s : PathStatus) (path : Text) (t : Tracked)
      → Fits s path
      → IsSettled (enter dir_vs_files s path t).paths path
  unfolding enter
  enter-IsSettled_self deleted_path path t fits =
      insert-IsSettled_self t.paths path _ (enough _ fits)
  enter-IsSettled_self directory_path path t fits =
      insert-IsSettled_self t.paths path _ (enough _ fits)
  enter-IsSettled_self file_path path t fits =
      increment-IsSettled _ path (parent path) fits.1
        (insert-IsSettled_self t.paths path _ (of_file _ fits.0))

  module _ (folder : Text) (status : Text → PathStatus) where
    abbrev pub FitsStatus : Text → Type 0
    FitsStatus p = Fits (status p) (trim_folder folder p)

    track-HasNoFile :
        (p : Text) (t : Tracked)
        → FitsStatus p
        → HasNoFile t.dirs
        → HasNoFile (track dir_vs_files folder status p t).dirs
    unfolding track
    track-HasNoFile p t fits h = enter-HasNoFile (status p) (trim_folder folder p) t fits h

    track-IsSettled :
        (p k : Text) (t : Tracked)
        → FitsStatus p
        → HasNoFile t.dirs
        → IsSettled t.paths k
        → IsSettled (track dir_vs_files folder status p t).paths k
    unfolding track
    track-IsSettled p k t fits clear h =
        count_above-IsSettled _ _ _ k
          (enter-HasNoFile (status p) (trim_folder folder p) t fits clear)
          (enter-IsSettled (status p) (trim_folder folder p) k t fits h)

    track-IsSettled_self :
        (p : Text) (t : Tracked)
        → FitsStatus p
        → HasNoFile t.dirs
        → IsSettled (track dir_vs_files folder status p t).paths (trim_folder folder p)
    unfolding track
    track-IsSettled_self p t fits clear =
        count_above-IsSettled _ _ _ (trim_folder folder p)
          (enter-HasNoFile (status p) (trim_folder folder p) t fits clear)
          (enter-IsSettled_self (status p) (trim_folder folder p) t fits)

    pub track_all-IsSettled :
        (ps : List Text) (k : Text) (t : Tracked)
        → All FitsStatus ps
        → HasNoFile t.dirs
        → IsSettled t.paths k
        → IsSettled (track_all dir_vs_files folder status ps t).paths k
    unfolding track_all
    track_all-IsSettled [] k t fits clear h = h
    track_all-IsSettled (p ∷ ps) k t (fit, fits) clear h =
        track_all-IsSettled ps k (track dir_vs_files folder status p t) fits
          (track-HasNoFile p t fit clear) (track-IsSettled p k t fit clear h)

    -- Every path that was given ends up with a score by which it is scanned.
    pub track_all-IsSettled_given :
        (ps : List Text) (p : Text) (t : Tracked)
        → All FitsStatus ps
        → HasNoFile t.dirs
        → Any (λ q. q ≡ p) ps
        → IsSettled (track_all dir_vs_files folder status ps t).paths (trim_folder folder p)
    unfolding track_all
    track_all-IsSettled_given [] p t fits clear h = absurd h
    track_all-IsSettled_given (q ∷ ps) p t (fit, fits) clear (inl same) =
        subst
          (λ x.
            IsSettled
              (track_all dir_vs_files folder status ps (track dir_vs_files folder status q t)).paths
              (trim_folder folder x))
          same
          (track_all-IsSettled ps (trim_folder folder q) (track dir_vs_files folder status q t) fits
            (track-HasNoFile q t fit clear) (track-IsSettled_self q t fit clear))
    track_all-IsSettled_given (q ∷ ps) p t (fit, fits) clear (inr h) =
        track_all-IsSettled_given ps p (track dir_vs_files folder status q t) fits
          (track-HasNoFile q t fit clear) h
