-- ===== src/Tracker/Flush.antt =====
-- What a flush does to each tracked path, and what it asks syncthing to scan.
pub mod Entries
use correlation.Base.{
  ℕ, Text, List, [], ◌∷◌, ◌≡◌, ◌≢◌, refl, sym, ap, ap₂, ◌∙◌, arith, All, Any, inl, inr, Bool, true,
  false, not, ◌&&◌, ltb, ◌==◌, if◌then◌else◌, Bool-cases, Option, none, some, Map, lookup, delete,
  lookup-delete, IsDistinct, length, text_eq, text_eq_iff, has_prefix,
}
use correlation.Paths.{slash, clean}
use correlation.Aggregate.{
  aggregate_changes, clean_paths, as_relative, trim_folder, sorted_unique_and_clean_paths,
}
use correlation.Aggregate.Selection.{Covers}
use correlation.Aggregate.Scores.{FitsStatus}
use correlation.Aggregate.Coverage.{aggregate_changes-Covers}
use correlation.Tracker.{
  Config, Tracker, ProgressTime, Tick, dir_vs_files, max_files, is_stale, is_ripe, swept, ripe,
  delete_all, finish, inform, flush,
}
use correlation.Tracker.Branches.{flush_some, flush_full}
use correlation.Tracker.Bound.{lookup-swept-none}
use Entries.{
  contains, lookup-delete_all, contains-ripe, lookup-swept, lookup_nil, is_due, keep_fresh,
  AllClean, clean_paths-ripe,
}

-- what a flush with fewer than maxFiles entries leaves of an entry, if its request succeeds or not
abbrev pub after_flush : Bool → ℕ → Tick → Text → Option ProgressTime → Option ProgressTime
after_flush accepted interval k j o =
    if accepted && is_due interval k j o then none else keep_fresh k j o

module _ (w : Config) (k : Tick) where
  -- the request that a flush makes for the paths that are due
  abbrev pub request : Tracker → List Text
  request t =
      aggregate_changes dir_vs_files w.folder_path k.status (ripe t.curr_interval k t.in_progress)

  only_if :
      (b : Bool) (j : Text) (o : Option ProgressTime) → o ≡ (if b && contains j [] then none else o)
  unfolding contains
  only_if true j o = refl
  only_if false j o = refl

  both_if :
      (b c : Bool) (o : Option ProgressTime)
      → (if b then (if c then none else o) else o) ≡ (if b && c then none else o)
  both_if true c o = refl
  both_if false c o = refl

  lookup-finish :
      (b : Bool) (j : Text) (m : Map ProgressTime) (t : Tracker)
      → lookup j (finish w b k m t).in_progress ≡ (if b then lookup j m else lookup j t.in_progress)
  lookup-finish true j m t = refl
  lookup-finish false j m t = refl

  pub lookup-inform :
      (j : Text) (ps : List Text) (t : Tracker)
      → lookup j (inform w k ps t).0.in_progress ≡ (
          if k.accepts (aggregate_changes dir_vs_files w.folder_path k.status ps)
            && contains j (clean_paths ps)
          then none
          else lookup j t.in_progress)
  unfolding clean_paths
  lookup-inform j [] t =
      only_if (k.accepts (aggregate_changes dir_vs_files w.folder_path k.status [])) j
        (lookup j t.in_progress)
  lookup-inform j (p ∷ ps) t =
      let b = k.accepts (aggregate_changes dir_vs_files w.folder_path k.status (p ∷ ps)) in
      lookup-finish b j (delete_all (clean_paths (p ∷ ps)) t.in_progress) t
      ∙ ap (λ o. if b then o else lookup j t.in_progress)
          (lookup-delete_all j (clean_paths (p ∷ ps)) t.in_progress)
      ∙ both_if b (contains j (clean_paths (p ∷ ps))) (lookup j t.in_progress)

  -- With no path tracked twice, and every tracked path clean, a flush with fewer than maxFiles paths, and
  -- at least one, drops a path if it is stale, or if it is old enough and the request for it succeeds. It
  -- keeps every other path as it was.
  pub lookup-flush :
      (j : Text) (t : Tracker)
      → IsDistinct t.in_progress
      → AllClean t.in_progress
      → (length t.in_progress == 0) ≡ false
      → ltb (length t.in_progress) max_files ≡ true
      → lookup j (flush w k t).0.in_progress
        ≡ after_flush (k.accepts (request t)) t.curr_interval k j (lookup j t.in_progress)
  lookup-flush j t h clean_ones some_entry few =
      ap (λ (r : Tracker × List (List Text)). lookup j r.0.in_progress)
        (flush_some w k t some_entry few)
      ∙ lookup-inform j (ripe t.curr_interval k t.in_progress)
          (record t { in_progress = swept k t.in_progress })
      ∙ ap₂ (λ c o. if k.accepts (request t) && c then none else o)
          (ap (contains j) (clean_paths-ripe t.curr_interval k t.in_progress clean_ones)
            ∙ contains-ripe t.curr_interval k j t.in_progress h)
          (lookup-swept k j t.in_progress h)

  true-ne-false : true ≢ false
  true-ne-false e = cc

  contains_tail :
      (p j : Text) (ps : List Text) → text_eq p j ≡ false → contains j ps ≡ contains j (p ∷ ps)
  unfolding contains
  contains_tail p j ps h = rw h

  not_empty :
      (j : Text) (t : Tracker)
      → is_due t.curr_interval k j (lookup j t.in_progress) ≡ true
      → (length t.in_progress == 0) ≡ false
  not_empty j t h = entries j t.in_progress t.curr_interval h
    where
      entries :
          (j : Text) (m : Map ProgressTime) (interval : ℕ)
          → is_due interval k j (lookup j m) ≡ true
          → (length m == 0) ≡ false
      entries j [] interval h =
          absurd (true-ne-false (sym h ∙ ap (is_due interval k j) (lookup_nil j)))
      entries j (x ∷ m) interval h = ground arith

  contains-Any : (j : Text) (ps : List Text) → contains j ps ≡ true → Any (λ q. q ≡ j) ps
  contains-Any j [] h = absurd (true-ne-false (sym h ∙ unfold contains in refl))
  contains-Any j (p ∷ ps) h = elim (Bool-cases (text_eq p j)) [
    | inl same ↦ inl ((text_eq_iff p j).0 same)
    | inr other ↦ inr (contains-Any j ps (contains_tail p j ps other ∙ h))
  ]

  inform_request :
      (j : Text) (ps : List Text) (t : Tracker)
      → Any (λ q. q ≡ j) ps
      → (inform w k ps t).1 ≡ aggregate_changes dir_vs_files w.folder_path k.status ps ∷ []
  inform_request j [] t h = absurd h
  inform_request j (p ∷ ps) t h = refl

  -- With no path tracked twice, every tracked change of a path other than the folder itself that is old
  -- enough when the timer fires is covered by a request of that flush: a scan of the folder, of the path,
  -- or of a directory above it. The status function must be consistent, in that no file is a directory and
  -- every file is in a directory, and the path below the folder must not begin with a slash.
  pub flush-Covers :
      (is_file : Text → Bool) (j : Text) (t : Tracker)
      → IsDistinct t.in_progress
      → is_due t.curr_interval k j (lookup j t.in_progress) ≡ true
      → All
          (FitsStatus dir_vs_files is_file w.folder_path k.status)
          (sorted_unique_and_clean_paths (ripe t.curr_interval k t.in_progress))
      → as_relative (clean j) ≢ []
      → has_prefix (trim_folder w.folder_path (as_relative (clean j))) (slash ∷ []) ≡ false
      → Any (Any (Covers (trim_folder w.folder_path (as_relative (clean j))))) (flush w k t).1
  flush-Covers is_file j t h due fits named relative =
      elim (Bool-cases (ltb (length t.in_progress) max_files)) [
        | inr many ↦ rw (flush_full w k t (not_empty j t due) many) (inl (inl (inl refl)))
        | inl few ↦
            let ps = ripe t.curr_interval k t.in_progress in
            let given =
              contains-Any j ps (contains-ripe t.curr_interval k j t.in_progress h ∙ due) in
            rw (flush_some w k t (not_empty j t due) few, inform_request j ps _ given)
              (inl (
                aggregate_changes-Covers dir_vs_files w.folder_path k.status is_file ps j fits given
                  named relative))
      ]
