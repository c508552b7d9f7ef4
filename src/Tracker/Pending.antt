-- ===== src/Tracker/Pending.antt =====
-- service/watcher.go, accumulateChanges: a change of a path stays tracked while other paths change.
use correlation.Base.{
  ℕ, Text, ◌≡◌, ◌≢◌, refl, ◌∙◌, arith, Bool, true, false, not, is_empty, length, ltb, ◌==◌,
  if◌then◌else◌, some, lookup, insert, delete, lookup-insert, lookup-delete, IsDistinct,
  insert-IsDistinct, delete-IsDistinct, text_ne, text_eq_refl,
}
use correlation.Tracker.{
  Tracker, StEvent, ProgressTime, speed_up, arm, is_from_st, debounce_timeout, max_files,
  on_st_input, on_fs_input,
}
use correlation.Tracker.Bound.{speed_up_same}

module _ (path : Text) (since : ℕ) where
  -- A change of the path is tracked, and the timer is set to the short interval.
  pub record IsPending (t : Tracker) : Type 0 where
    pub entry : lookup path t.in_progress ≡ some (record { fs_event = true; time = since })
    pub distinct : IsDistinct t.in_progress
    pub interval : t.curr_interval ≡ debounce_timeout

  if-IsPending :
      (b : Bool) (t u : Tracker) → IsPending t → IsPending u → IsPending (if b then t else u)
  if-IsPending true t u h h' = h
  if-IsPending false t u h h' = h'

  speed_up-IsPending : (t : Tracker) → IsPending t → IsPending (speed_up t)
  speed_up-IsPending t h =
      if-IsPending (not (t.curr_interval == debounce_timeout)) _ t
        (record { entry = h.entry; distinct = h.distinct; interval = refl }) h

  delete-IsPending :
      (q : Text) (t : Tracker)
      → q ≢ path
      → IsPending t
      → IsPending (record t { in_progress = delete q t.in_progress })
  delete-IsPending q t other h = record {
    entry = lookup-delete q path t.in_progress ∙ rw (text_ne q path other) h.entry;
    distinct = delete-IsDistinct q t.in_progress h.distinct;
    interval = h.interval;
  }

  insert-IsPending :
      (q : Text) (p : ProgressTime) (t : Tracker)
      → q ≢ path
      → IsPending t
      → IsPending (record t { in_progress = insert q p t.in_progress })
  insert-IsPending q p t other h = record {
    entry = lookup-insert q path p t.in_progress ∙ rw (text_ne q path other) h.entry;
    distinct = insert-IsDistinct q p t.in_progress h.distinct;
    interval = h.interval;
  }

  pub arm-IsPending : (now : ℕ) (t : Tracker) → IsPending t → IsPending (arm now t)
  unfolding arm
  arm-IsPending now t h =
      if-IsPending t.needs_reset _ t
        (record { entry = h.entry; distinct = h.distinct; interval = h.interval }) h

  pub on_st_input-IsPending :
      (item : StEvent) (now : ℕ) (t : Tracker)
      → item.path ≢ path
      → IsPending t
      → IsPending (on_st_input item now t)
  unfolding on_st_input
  on_st_input-IsPending item now t other h =
      if-IsPending (is_empty item.path) (speed_up t) _ (speed_up-IsPending t h) (
        if-IsPending item.finished _ _ (delete-IsPending item.path t other h) (
          if-IsPending (ltb max_files (length t.in_progress)) t _ h
            (insert-IsPending item.path _ t other h)))

  pub on_fs_input-IsPending :
      (item : Text) (now : ℕ) (t : Tracker)
      → item ≢ path
      → IsPending t
      → IsPending (on_fs_input item now t)
  unfolding on_fs_input
  on_fs_input-IsPending item now t other h =
      let u = speed_up t in
      let h' = speed_up-IsPending t h in
      if-IsPending (is_from_st (lookup item u.in_progress)) _ _ (delete-IsPending item u other h') (
        if-IsPending (ltb max_files (length u.in_progress)) u _ h'
          (insert-IsPending item _ u other h'))

  speed_up_interval : (t : Tracker) → (speed_up t).curr_interval ≡ debounce_timeout
  speed_up_interval t = ground arith

  -- A change of the file system is tracked if the path is not one that syncthing is at, and there is room.
  pub on_fs_input_tracks :
      (t : Tracker)
      → IsDistinct t.in_progress
      → is_from_st (lookup path t.in_progress) ≡ false
      → ltb max_files (length t.in_progress) ≡ false
      → IsPending (on_fs_input path since t)
  unfolding on_fs_input
  on_fs_input_tracks t distinct own room =
      let same = speed_up_same t in
      rw (same, own, room)
        (record {
          entry = lookup-insert path path _ t.in_progress ∙ rw (text_eq_refl path);
          distinct = insert-IsDistinct path _ t.in_progress distinct;
          interval = speed_up_interval t;
        })
