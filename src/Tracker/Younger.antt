-- ===== src/Tracker/Younger.antt =====
-- service/watcher.go, accumulateChanges: a firing of the timer leaves a change that is too young for it.
use correlation.Base.{
  ℕ, Text, List, [], ◌∷◌, ◌≡◌, ◌≢◌, refl, sym, ◌∙◌, arith, Bool, true, false, ltb, ◌==◌,
  if◌then◌else◌, ◌&&◌, Bool-cases, inl, inr, none, some, lookup, length, Map, is_empty_ne,
  IsDistinct, Option,
}
use correlation.Aggregate.{aggregate_changes, clean_paths}
use correlation.Tracker.{
  Config, Tracker, Tick, ProgressTime, dir_vs_files, max_files, is_stale, ripe, swept, finish,
  inform, flush, on_timer, Event, st_input, fs_input, timer, arm, step, run,
}
use correlation.Tracker.Branches.{flush_some, due, reminded, on_timer-due, on_timer_plain}
use correlation.Tracker.Bound.{swept-IsDistinct, delete_all-IsDistinct}
use correlation.Tracker.Flush.{lookup-inform}
use correlation.Tracker.Flush.Entries.{contains, lookup-swept, lookup_nil}
use correlation.Tracker.Pending.{
  IsPending, arm-IsPending, on_st_input-IsPending, on_fs_input-IsPending,
}

module _ (path : Text) (since : ℕ) (w : Config) where
  -- A firing of the timer that finds fewer than maxFiles tracked paths, and collects none that is this path
  -- when it is cleaned.
  pub record IsEarly (k : Tick) (t : Tracker) : Type 0 where
    pub few : ltb (length t.in_progress) max_files ≡ true
    pub apart : contains path (clean_paths (ripe t.curr_interval k t.in_progress)) ≡ false

  some_entry :
      (m : Map ProgressTime) (p : ProgressTime) → lookup path m ≡ some p → (length m == 0) ≡ false
  some_entry [] p h = absurd (impossible (sym (lookup_nil path) ∙ h))
    where
      impossible : none ≡ some p → ⊥
      impossible q = cc
  some_entry (x ∷ m) p h = ground arith

  not_stale :
      (k : Tick) → path ≢ [] → is_stale k path (record { fs_event = true; time = since }) ≡ false
  not_stale k named = rw (is_empty_ne path named)

  finish-interval :
      (b : Bool) (k : Tick) (m : Map ProgressTime) (t : Tracker)
      → (finish w b k m t).curr_interval ≡ t.curr_interval
  finish-interval true k m t = refl
  finish-interval false k m t = refl

  inform-interval :
      (k : Tick) (ps : List Text) (t : Tracker)
      → (inform w k ps t).0.curr_interval ≡ t.curr_interval
  inform-interval k [] t = refl
  inform-interval k (p ∷ ps) t = finish-interval _ k _ t

  finish-IsDistinct :
      (b : Bool) (k : Tick) (m : Map ProgressTime) (t : Tracker)
      → IsDistinct m
      → IsDistinct t.in_progress
      → IsDistinct (finish w b k m t).in_progress
  finish-IsDistinct true k m t h h' = h
  finish-IsDistinct false k m t h h' = h'

  inform-IsDistinct :
      (k : Tick) (ps : List Text) (t : Tracker)
      → IsDistinct t.in_progress
      → IsDistinct (inform w k ps t).0.in_progress
  inform-IsDistinct k [] t h = h
  inform-IsDistinct k (p ∷ ps) t h =
      finish-IsDistinct _ k _ t (delete_all-IsDistinct (clean_paths (p ∷ ps)) t.in_progress h) h

  kept :
      (b c : Bool) (o o' : Option ProgressTime)
      → c ≡ false
      → o ≡ o'
      → (if b && c then none else o) ≡ o'
  kept true c o o' h e = rw h e
  kept false c o o' h e = e

  flush-IsPending :
      (k : Tick) (t : Tracker)
      → path ≢ []
      → IsEarly k t
      → IsPending path since t
      → IsPending path since (flush w k t).0
  flush-IsPending k t named early h =
      let ps = ripe t.curr_interval k t.in_progress in
      let s = record t { in_progress = swept k t.in_progress } in
      let swept_entry =
        lookup-swept k path t.in_progress h.distinct ∙ rw (h.entry, not_stale k named) in
      rw (flush_some w k t (some_entry t.in_progress _ h.entry) early.few) (record {
        entry =
            lookup-inform w k path ps s
            ∙ kept (k.accepts (aggregate_changes dir_vs_files w.folder_path k.status ps))
                (contains path (clean_paths ps)) _ _ early.apart swept_entry;
        distinct = inform-IsDistinct k ps s (swept-IsDistinct k t.in_progress h.distinct);
        interval = inform-interval k ps s ∙ h.interval;
      })

  on_timer-IsPending :
      (k : Tick) (t : Tracker)
      → path ≢ []
      → IsEarly k t
      → IsPending path since t
      → IsPending path since (on_timer w k t).0
  on_timer-IsPending k t named early h = elim (Bool-cases (due w k t)) [
    | inl e ↦ rw (on_timer-due w k t e) (
        flush-IsPending k (reminded w k t) named (record { few = early.few; apart = early.apart })
          (record { entry = h.entry; distinct = h.distinct; interval = h.interval }))
    | inr e ↦ rw (on_timer_plain w k t e) (
        flush-IsPending k (record t { needs_reset = true }) named
          (record { few = early.few; apart = early.apart })
          (record { entry = h.entry; distinct = h.distinct; interval = h.interval }))
  ]

  -- An event of another path, or a firing that comes too early for this one.
  abbrev Spares : Event → Tracker → Type 0
  Spares (st_input item now) t = item.path ≢ path
  Spares (fs_input item now) t = item ≢ path
  Spares (timer k) t = IsEarly k t

  -- each event on what the loop tracks when it comes
  unfoldable pub AllSpare : List (ℕ × Event) → Tracker → Type 0
  unfolding step arm
  AllSpare [] t = Unit
  AllSpare ((now, e) ∷ es) t = Spares e (arm now t) × AllSpare es (step w e (arm now t)).0

  step-IsPending :
      (e : Event) (t : Tracker)
      → path ≢ []
      → Spares e t
      → IsPending path since t
      → IsPending path since (step w e t).0
  unfolding step
  step-IsPending (st_input item now) t named other h =
      on_st_input-IsPending path since item now t other h
  step-IsPending (fs_input item now) t named other h =
      on_fs_input-IsPending path since item now t other h
  step-IsPending (timer k) t named early h = on_timer-IsPending k t named early h

  -- Such events leave the change tracked.
  pub run-IsPending :
      (es : List (ℕ × Event)) (t : Tracker)
      → path ≢ []
      → AllSpare es t
      → IsPending path since t
      → IsPending path since (run w es t).0
  unfolding run AllSpare
  run-IsPending [] t named others h = h
  run-IsPending ((now, e) ∷ es) t named (other, others) h =
      run-IsPending es (step w e (arm now t)).0 named others
        (step-IsPending e (arm now t) named other (arm-IsPending path since now t h))
