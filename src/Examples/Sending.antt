-- ===== src/Examples/Sending.antt =====
-- A change that is old enough, and a syncthing that answers each request with status 200.
use correlation.Base.{
  codes, false, ◌*◌, [], ◌∷◌, ◌≡◌, refl, arith, insert, sort_strings, text_eq, has_prefix, lookup,
  trim_prefix,
}
use correlation.Paths.{clean}
use correlation.Strings.{split, join}
use correlation.Aggregate.{trim_folder, sorted_unique_and_clean_paths, aggregate_changes}
use correlation.Tracker.{second, ripe, flush}
use correlation.Watcher.{Watcher}
use correlation.Watcher.Sending.{flush_through, asked}
use correlation.Watcher.Sending.Reach.{Sends, flush_through-Sends}
use correlation.Examples.Values.{differs}
use correlation.Examples.Scans.{tick, tracker, no_file, tracker-IsDistinct}
use correlation.Examples.Syncthing.{willing, client}

abbrev pub watcher : Watcher
watcher = record {
  folder_id = codes "f";
  ignore_paths = [];
  closed = false;
  config = record { folder_path = codes "/s"; delay_scan = 3600 * second };
}

requested :
    (flush watcher.config (asked willing client watcher 0 tick) tracker).1 ≡ (codes "a" ∷ []) ∷ []
unfolding flush aggregate_changes sort_strings text_eq clean split join insert has_prefix
    trim_prefix lookup
requested = refl

flush_through-Sends_example :
    Sends willing client watcher
      (codes "a")
      0
      (flush_through willing client watcher tick tracker 0).1
unfolding sorted_unique_and_clean_paths clean text_eq trim_folder has_prefix ripe lookup
    sort_strings split join trim_prefix
flush_through-Sends_example =
    flush_through-Sends willing client watcher tick no_file (codes "a") tracker 0
      (differs (codes "k") [] refl) (λ subs. refl) (ground arith)
      (rw requested ((ground arith, tt), tt)) tracker-IsDistinct refl (refl, tt)
      (differs (codes "a") [] refl) refl
