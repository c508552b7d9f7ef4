-- ===== src/Examples/Change.antt =====
-- A change of the file "/s/a", a change of another one, and the timer.
use correlation.Base.{
  ℕ, Text, codes, List, [], ◌∷◌, ◌++◌, ◌≡◌, refl, arith, none, false, insert, sort_strings, text_eq,
  has_prefix, lookup, trim_prefix, Bool, All,
}
use correlation.Paths.{slash, clean}
use correlation.Strings.{split, join}
use correlation.Aggregate.{trim_folder, sorted_unique_and_clean_paths, aggregate_changes}
use correlation.Tracker.{Tracker, Tick, Event, fs_input, timer, ripe, swept, flush, run, step, arm}
use correlation.Watcher.{watch_folder, on_events, on_event}
use correlation.RelativePath.{relative_path}
use correlation.Query.RoundTrip.{IsBytes}
use correlation.Watcher.Sending.{asked, at_flush, on_timer_through}
use correlation.Watcher.Sending.Reach.{Sends}
use correlation.Tracker.Younger.{AllSpare}
use correlation.Tracker.Flush.Entries.{contains}
use correlation.Aggregate.{clean_paths}
use correlation.Watcher.Sending.Change.{feed, change-Sends}
use correlation.Examples.Values.{differs}
use correlation.Examples.Scans.{tick, tracker, no_file}
use correlation.Examples.Syncthing.{willing, client}
use correlation.Examples.Sending.{watcher}

-- a firing of the timer after the delay, so that syncthing is reminded first
abbrev late : Tick
late = record tick { check = 1; expiry = 2_000_000_000; visit = λ path. 2_000_000_000 }

abbrev quiet : Tracker
quiet = record tracker { in_progress = [] }

abbrev nothing_ignored : Text → Bool
nothing_ignored path = false

-- an earlier firing
abbrev young : Tick
young = record tick { check = 1; expiry = 3; visit = λ path. 3 }

abbrev others : List (ℕ × Event)
others = (2, timer young) ∷ (3, fs_input (codes "b") 2_000_000_000) ∷ []

abbrev changed : Tracker
changed =
    (run watcher.config
      (feed 1 (
          watch_folder none nothing_ignored [] watcher
            (((slash ∷ codes "s") ++ slash ∷ codes "a") ∷ []))
        ++ others)
      quiet).0

abbrev given : Tracker × ℕ
given = at_flush willing client watcher late changed 0

others-AllSpare :
    AllSpare
      (codes "a")
      1
      watcher.config
      others
      (run watcher.config
        (feed 1 (
          watch_folder none nothing_ignored [] watcher
            (((slash ∷ codes "s") ++ slash ∷ codes "a") ∷ [])))
        quiet).0
unfolding AllSpare run step arm watch_folder on_events on_event relative_path has_prefix trim_prefix
    insert flush lookup text_eq clean_paths ripe contains swept
others-AllSpare = (record { few = refl; apart = refl }, (differs (codes "b") (codes "a") refl, tt))

requested :
    (flush watcher.config (asked willing client watcher given.1 late) given.0).1
    ≡ (codes "a" ∷ []) ∷ []
unfolding flush aggregate_changes sort_strings text_eq clean split join insert has_prefix
    trim_prefix lookup run step arm watch_folder on_events on_event relative_path at_flush
requested = refl

requested-IsBytes :
    All (All IsBytes) (flush watcher.config (asked willing client watcher given.1 late) given.0).1
requested-IsBytes = rw requested ((ground arith, tt), tt)

change-Sends_example :
    Sends willing client watcher
      (codes "a")
      given.1
      (on_timer_through willing client watcher late changed 0).1
unfolding sorted_unique_and_clean_paths clean text_eq trim_folder has_prefix ripe lookup
    sort_strings split join trim_prefix run step arm watch_folder on_events on_event relative_path
    at_flush insert
change-Sends_example =
    change-Sends willing client watcher nothing_ignored no_file [] (codes "s") (codes "a") 1 others
      late quiet changed given.0 0 given.1 refl refl (differs (codes "a") [] refl) tt refl refl
      others-AllSpare refl (omega arith) refl (differs (codes "k") [] refl) (λ subs. refl)
      (ground arith) requested-IsBytes (refl, tt) (differs (codes "a") [] refl) refl
