-- ===== src/Watcher/Sending/Change.antt =====
-- A change of a file comes from the file system to syncthing.
use correlation.Base.{
  ℕ, ◌+◌, ◌<◌, Text, List, [], ◌∷◌, ◌++◌, map, ◌≡◌, ◌≢◌, inl, inr, refl, sym, ap, ◌∙◌, arith, All,
  Bool, true, false, none, lookup, length, ltb, IsDistinct, has_prefix, Bool-cases, ◌&&◌,
  is_empty_ne,
}
use mathlib.Core.Path.{subst}
use correlation.Paths.{slash, clean}
use correlation.Query.RoundTrip.{IsBytes}
use correlation.RelativePath.{relative_path_below}
use correlation.Syncthing.{Http, Client}
use correlation.Aggregate.{as_relative, trim_folder, sorted_unique_and_clean_paths}
use correlation.Aggregate.Scores.{FitsStatus}
use correlation.Tracker.{
  Tracker, Tick, Event, fs_input, dir_vs_files, debounce_timeout, max_files, is_from_st, ripe,
  flush, run, arm,
}
use correlation.Tracker.Bound.{arm_same}
use correlation.Tracker.Flush.Entries.{is_due}
use correlation.Tracker.Pending.{IsPending, on_fs_input_tracks}
use correlation.Tracker.Younger.{AllSpare, run-IsPending}
use correlation.Watcher.{Watcher, watch_folder, on_events, on_event}
use correlation.Watcher.Sending.{asked, flush_through, at_flush, on_timer_through}
use correlation.Watcher.Sending.Reach.{scan_request, Sends, flush_through-Sends}

-- what watchFolder sends on fsInput, as events of accumulateChanges
abbrev pub feed : ℕ → List Text → List (ℕ × Event)
feed now names = map (λ n. (now, fs_input n now)) names

module _ (h : Http) (c : Client) (w : Watcher) where
  handed_on :
      (is_ignored : Text → Bool) (home folder name : Text)
      → w.config.folder_path ≡ slash ∷ folder
      → is_ignored name ≡ false
      → watch_folder none is_ignored home w (((slash ∷ folder) ++ slash ∷ name) ∷ []) ≡ name ∷ []
  unfolding watch_folder on_events on_event
  handed_on is_ignored home folder name e kept = rw (e, relative_path_below home folder name, kept)

  -- a pending change is old enough for a flush behind the short interval
  pending_due :
      (name : Text) (since : ℕ) (k : Tick) (t : Tracker)
      → name ≢ []
      → since + debounce_timeout < k.visit name
      → IsPending name since t
      → is_due t.curr_interval k name (lookup name t.in_progress) ≡ true
  pending_due name since k t named late p =
      rw (p.entry, p.interval, is_empty_ne name named) (ground (arith, late))

  feed-IsPending :
      (now : ℕ) (name : Text) (es : List (ℕ × Event)) (t : Tracker)
      → IsDistinct t.in_progress
      → is_from_st (lookup name t.in_progress) ≡ false
      → ltb max_files (length t.in_progress) ≡ false
      → name ≢ []
      → AllSpare name now w.config es (run w.config (feed now (name ∷ [])) t).0
      → IsPending name now (run w.config (feed now (name ∷ []) ++ es) t).0
  unfolding run
  feed-IsPending now name es t distinct own room named others =
      run-IsPending name now w.config es _ named others (
        on_fs_input_tracks name now (arm now t) (rw (arm_same now t) distinct)
          (rw (arm_same now t) own) (rw (arm_same now t) room))

  -- the reminder changes no tracked path
  at_flush-IsPending :
      (name : Text) (since : ℕ) (k : Tick) (t : Tracker) (st : h.State)
      → IsPending name since t
      → IsPending name since (at_flush h c w k t st).0
  unfolding at_flush
  at_flush-IsPending name since k t st p =
      elim (Bool-cases (ltb 0 w.config.delay_scan && ltb t.next_scan_time k.check)) [
        | inl e ↦ rw e (record { entry = p.entry; distinct = p.distinct; interval = p.interval })
        | inr e ↦ rw e (record { entry = p.entry; distinct = p.distinct; interval = p.interval })
      ]

  through :
      (k : Tick) (t : Tracker) (st : h.State)
      → on_timer_through h c w k t st
        ≡ flush_through h c w k (at_flush h c w k t st).0 (at_flush h c w k t st).1
  unfolding on_timer_through
  through k t st = refl

  -- A file below the absolute folder of the watcher changes, under a name that is not ignored. If the
  -- path is not one that syncthing is at, and there is room for it, and if then only other paths change, and
  -- the timer fires at most when fewer than maxFiles paths are tracked and none is collected that is this
  -- path when it is cleaned, as it is too young, then a further firing, if it visits the path more than
  -- debounceTimeout after the change, asks syncthing for a scan that covers it. The API key and the endpoint must make proper requests, and the
  -- requested paths must be bytes; the conditions on the other paths are those of a flush that loses no
  -- change.
  pub change-Sends :
      (is_ignored is_file : Text → Bool) (home folder name : Text) (now : ℕ) (es : List (ℕ × Event))
      (k : Tick) (t t' u : Tracker) (st st1 : h.State)
      → w.config.folder_path ≡ slash ∷ folder
      → is_ignored name ≡ false
      → name ≢ []
      → IsDistinct t.in_progress
      → is_from_st (lookup name t.in_progress) ≡ false
      → ltb max_files (length t.in_progress) ≡ false
      → AllSpare name now w.config es
          (run w.config
            (feed now
              (watch_folder none is_ignored home w (((slash ∷ folder) ++ slash ∷ name) ∷ [])))
            t).0
      → (run w.config
          (feed now (watch_folder none is_ignored home w (((slash ∷ folder) ++ slash ∷ name) ∷ []))
            ++ es)
          t).0
        ≡ t'
      → now + debounce_timeout < k.visit name
      → at_flush h c w k t' st ≡ (u, st1)
      → c.api_key ≢ []
      → ((subs : List Text) → h.check_url (scan_request h c w subs).url ≡ none)
      → IsBytes w.folder_id
      → All (All IsBytes) (flush w.config (asked h c w st1 k) u).1
      → All
          (FitsStatus dir_vs_files is_file w.config.folder_path k.status)
          (sorted_unique_and_clean_paths (ripe u.curr_interval (asked h c w st1 k) u.in_progress))
      → as_relative (clean name) ≢ []
      → has_prefix (trim_folder w.config.folder_path (as_relative (clean name))) (slash ∷ [])
        ≡ false
      → Sends h c w
          (trim_folder w.config.folder_path (as_relative (clean name)))
          st1
          (on_timer_through h c w k t' st).1
  change-Sends is_ignored is_file home folder name now es k t t' u st st1 at_folder kept named
        distinct own room others ran late at_timer key good id_bytes bytes fits not_root relative =
      let spared =
        subst (λ l. AllSpare name now w.config es (run w.config (feed now l) t).0)
          (handed_on is_ignored home folder name at_folder kept) others in
      let start =
        ap (λ l. (run w.config (feed now l ++ es) t).0)
          (sym (handed_on is_ignored home folder name at_folder kept))
        ∙ ran in
      let pending =
        subst (IsPending name now) start
          (feed-IsPending now name es t distinct own room named spared) in
      let at_u =
        subst (IsPending name now) (ap (λ (p : Tracker × h.State). p.0) at_timer)
          (at_flush-IsPending name now k t' st pending) in
      let same =
        ap (λ (p : Tracker × h.State). (flush_through h c w k p.0 p.1).1) (sym at_timer)
        ∙ ap (λ (p : Tracker × h.State). p.1) (sym (through k t' st)) in
      subst (Sends h c w (trim_folder w.config.folder_path (as_relative (clean name))) st1) same (
        flush_through-Sends h c w k is_file name u st1 key good id_bytes bytes at_u.distinct
          (pending_due name now (asked h c w st1 k) u named late at_u) fits not_root relative)
