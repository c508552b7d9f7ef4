-- ===== src/Tracker/Branches.antt =====
-- The branches of a flush and of the timer's case, one equation each.
use correlation.Base.{
  List, Text, refl, ◌⊎◌, inl, inr, Bool-cases, ◌≡◌, ◌+◌, Bool, true, false, [], ◌∷◌, ltb, ◌==◌,
  ◌&&◌, length,
}
use correlation.Tracker.{
  Config, Tracker, Tick, max_files, swept, ripe, without_fs, finish, inform, flush, on_timer,
  reminder, delay_scan_interval,
}

module _ (w : Config) (k : Tick) (t : Tracker) where
  pub flush_empty :
      (length t.in_progress == 0) ≡ true
      → flush w k t ≡ (record t { curr_interval = delay_scan_interval w }, [])
  unfolding flush
  flush_empty h = rw h

  pub flush_some :
      (length t.in_progress == 0) ≡ false
      → ltb (length t.in_progress) max_files ≡ true
      → flush w k t
        ≡ inform w k
            (ripe t.curr_interval k t.in_progress)
            (record t { in_progress = swept k t.in_progress })
  unfolding flush
  flush_some h few = rw (h, few)

  pub flush_full :
      (length t.in_progress == 0) ≡ false
      → ltb (length t.in_progress) max_files ≡ false
      → flush w k t
        ≡ (finish w (k.accepts ([] ∷ [])) k (without_fs t.in_progress) t, ([] ∷ []) ∷ [])
  unfolding flush
  flush_full h many = rw (h, many)

  -- the tracker that a firing of the timer flushes
  abbrev pub due : Bool
  due = ltb 0 w.delay_scan && ltb t.next_scan_time k.check

  abbrev pub reminded : Tracker
  reminded = record t { needs_reset = true; next_scan_time = k.remind + delay_scan_interval w }

  pub on_timer-due :
      due ≡ true → on_timer w k t ≡ ((flush w k reminded).0, reminder w ∷ (flush w k reminded).1)
  unfolding on_timer
  on_timer-due h = rw h

  pub on_timer_plain : due ≡ false → on_timer w k t ≡ flush w k (record t { needs_reset = true })
  unfolding on_timer
  on_timer_plain h = rw h

  inform_once :
      (ps : List Text) (s : Tracker)
      → ((inform w k ps s).1 ≡ []) ⊎ ((subs : List Text) × ((inform w k ps s).1 ≡ subs ∷ []))
  inform_once [] s = inl refl
  inform_once (p ∷ ps) s = inr (_, refl)

  -- a flush makes one request at most
  pub flush_once : ((flush w k t).1 ≡ []) ⊎ ((subs : List Text) × ((flush w k t).1 ≡ subs ∷ []))
  flush_once = elim (Bool-cases (length t.in_progress == 0)) [
    | inl nothing ↦ rw (flush_empty nothing) (inl refl)
    | inr something ↦ elim (Bool-cases (ltb (length t.in_progress) max_files)) [
      | inl few ↦ rw (flush_some something few) (inform_once _ _)
      | inr many ↦ rw (flush_full something many) (inr (_, refl))
    ]
  ]
