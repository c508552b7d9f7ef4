-- ===== src/Tracker/Echo.antt =====
-- Changes that syncthing itself has made, and changes beyond the number that is tracked.
use correlation.Base.{
  is_empty, ℕ, ◌≤◌, ◌<◌, Text, List, [], ◌∷◌, ◌≡◌, ◌≢◌, refl, ap, ◌∙◌, arith, All, true, false, ltb,
  ◌==◌, if◌then◌else◌, none, Map, lookup, insert, delete, keys, length, IsDistinct, lookup-insert,
  lookup-delete, text_eq, text_eq_refl,
}
use correlation.Tracker.{
  Config, Tracker, ProgressTime, Tick, Event, st_input, fs_input, max_files, is_from_st,
  on_st_input, on_fs_input, arm, step, run, flush,
}
use correlation.Tracker.Branches.{flush_empty}
use correlation.Tracker.Bound.{arm_same}

full_path : (path : Text) → path ≢ [] → is_empty path ≡ false
full_path [] h = absurd (h refl)
full_path (c ∷ s) h = refl

started :
    (path : Text) (now : ℕ) (t : Tracker)
    → path ≢ []
    → ltb max_files (length t.in_progress) ≡ false
    → (on_st_input (record { path = path; finished = false }) now t).in_progress
      ≡ insert path (record { fs_event = false; time = now }) t.in_progress
unfolding on_st_input
started path now t ne room = rw (full_path path ne, room)

on_fs_input_st :
    (path : Text) (now : ℕ) (t : Tracker)
    → is_from_st (lookup path t.in_progress) ≡ true
    → (on_fs_input path now t).in_progress ≡ delete path t.in_progress
unfolding on_fs_input
on_fs_input_st path now t h = ground (arith, h)

-- With at most maxFiles paths tracked, a change of the file system that follows syncthing's start on the
-- same path, which is not empty, is dropped: the path is no longer tracked, and every other path is as
-- it was before.
pub echo_ignored :
    (path : Text) (a b : ℕ) (t : Tracker) (j : Text)
    → path ≢ []
    → length t.in_progress ≤ max_files
    → lookup j
        (on_fs_input path b
          (on_st_input (record { path = path; finished = false }) a t)).in_progress
      ≡ (if text_eq path j then none else lookup j t.in_progress)
echo_ignored path a b t j ne room =
    let t' = on_st_input (record { path = path; finished = false }) a t in
    let now = started path a t ne (ground arith) in
    let seen : is_from_st (lookup path t'.in_progress) ≡ true =
      rw
        (
          now,
          lookup-insert path path (record { fs_event = false; time = a }) t.in_progress,
          text_eq_refl path,
        )
        refl in
    ap (lookup j) (on_fs_input_st path b t' seen ∙ ap (delete path) now)
    ∙ lookup-delete path j _
    ∙ inserted path j (record { fs_event = false; time = a }) t.in_progress
  where
    inserted :
        (path j : Text) (p : ProgressTime) (m : Map ProgressTime)
        → (if text_eq path j then none else lookup j (insert path p m))
          ≡ (if text_eq path j then none else lookup j m)
    inserted path j p m = ground (arith, lookup-insert path j p m)

on_fs_input_full :
    (path : Text) (now : ℕ) (t : Tracker)
    → lookup path t.in_progress ≡ none
    → max_files < length t.in_progress
    → (on_fs_input path now t).in_progress ≡ t.in_progress
unfolding on_fs_input
on_fs_input_full path now t h full = ground (arith, h)

finished_deletes :
    (path : Text) (now : ℕ) (t : Tracker)
    → path ≢ []
    → (on_st_input (record { path = path; finished = true }) now t).in_progress
      ≡ delete path t.in_progress
unfolding on_st_input
finished_deletes path now t ne = rw (full_path path ne)

delete_unknown : (k : Text) (m : Map ProgressTime) → lookup k m ≡ none → delete k m ≡ m
unfolding lookup delete
delete_unknown k [] h = refl
delete_unknown k ((j, p) ∷ m) h = ground (arith, delete_unknown k m)

delete_first :
    (k : Text) (p : ProgressTime) (m : Map ProgressTime)
    → lookup k m ≡ none
    → delete k ((k, p) ∷ m) ≡ m
unfolding delete
delete_first k p m h = rw (text_eq_refl k) (delete_unknown k m h)

-- syncthing reports that it has finished each of the paths
pub finish_events : ℕ → List Text → List (ℕ × Event)
finish_events now [] = []
finish_events now (q ∷ qs) =
    (now, st_input (record { path = q; finished = true }) now) ∷ finish_events now qs

module _ (w : Config) where
  run_finished :
      (now : ℕ) (m : Map ProgressTime) (t : Tracker)
      → t.in_progress ≡ m
      → IsDistinct m
      → All (λ q. q ≢ []) (keys m)
      → ((run w (finish_events now (keys m)) t).0.in_progress ≡ [])
        × ((run w (finish_events now (keys m)) t).1 ≡ [])
  unfolding finish_events run step
  run_finished now [] t e h ne = (e, refl)
  run_finished now ((q, p) ∷ m) t e (fresh, h) (qne, ne) =
      let t' = on_st_input (record { path = q; finished = true }) now (arm now t) in
      let left : t'.in_progress ≡ m =
        finished_deletes q now (arm now t) qne
        ∙ ap (delete q) (arm_same now t ∙ e)
        ∙ delete_first q p m fresh in
      run_finished now m t' left h ne

  no_request : (k : Tick) (t : Tracker) → t.in_progress ≡ [] → (flush w k t).1 ≡ []
  no_request k t e =
      ap (λ (r : Tracker × List (List Text)). r.1) (flush_empty w k t (ap (λ m. length m == 0) e))

  -- With more than maxFiles paths tracked, none twice and none empty, a change of another path is lost if
  -- syncthing then finishes the tracked ones: nothing is tracked, nothing has been requested, and the next
  -- flush requests nothing.
  pub change_lost :
      (path : Text) (now : ℕ) (k : Tick) (t : Tracker)
      → max_files < length t.in_progress
      → lookup path t.in_progress ≡ none
      → IsDistinct t.in_progress
      → All (λ q. q ≢ []) (keys t.in_progress)
      → let (t', subs) =
          run w ((now, fs_input path now) ∷ finish_events now (keys t.in_progress)) t in
        (t'.in_progress ≡ []) × (subs ≡ []) × ((flush w k t').1 ≡ [])
  unfolding run step
  change_lost path now k t full unknown distinct named =
      let t1 = on_fs_input path now (arm now t) in
      let kept : t1.in_progress ≡ t.in_progress =
        on_fs_input_full path now (arm now t) (rw (arm_same now t) unknown)
          (rw (arm_same now t) full)
        ∙ arm_same now t in
      let (gone, quiet) = run_finished now t.in_progress t1 kept distinct named in
      (gone, quiet, no_request k _ gone)
