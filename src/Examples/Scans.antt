-- ===== src/Examples/Scans.antt =====
-- Changes of files, and a watcher that has tracked some of them.
use correlation.Base.{
  ℕ, zero, suc, ◌*◌, ◌≤◌, Text, codes, [], ◌∷◌, ◌≡◌, ◌≢◌, refl, arith, ap, All, Any, inl, none,
  true, false, Bool, Map, lookup, keys, length, IsDistinct, text_eq, has_prefix, if◌then◌else◌, suc,
  sort_strings, text_le, trim_prefix, text_ne, sym, ◌∙◌,
}
use correlation.Paths.{clean, dir}
use correlation.Strings.{split, join}
use correlation.Strconv.{itoa_nat}
use correlation.Strconv.RoundTrip.{itoa_nat-injective, itoa_nat-cons}
use correlation.Aggregate.{
  PathStatus, directory_path, file_path, aggregate_changes, as_relative, trim_folder,
  sorted_unique_and_clean_paths,
}
use correlation.Aggregate.Selection.{Covers}
use correlation.Aggregate.Coverage.{aggregate_changes-Covers}
use correlation.Aggregate.Origin.{HasOrigin, aggregate_changes-HasOrigin}
use correlation.Tracker.{Config, Tracker, ProgressTime, Tick, fs_input, timer, second, flush, run}
use correlation.Tracker.Bound.{IsBounded, run-IsBounded}
use correlation.Tracker.Flush.Entries.{AllClean}
use correlation.Tracker.Flush.{lookup-flush, after_flush, request}
use correlation.Tracker.Echo.{change_lost, finish_events}
use correlation.Examples.Values.{differs}

abbrev config : Config
config = record { folder_path = codes "/s"; delay_scan = 3600 * second }

-- every path is that of a directory
abbrev pub tick : Tick
tick = record {
  check = 0;
  remind = 0;
  expiry = 100;
  visit = λ path. 100;
  done = 100;
  status = λ path. directory_path;
  accepts = λ subs. true;
}

-- one change, of the path "a", at time 1
abbrev pub tracker : Tracker
tracker = record {
  in_progress = (codes "a", record { fs_event = true; time = 1 }) ∷ [];
  curr_interval = 10;
  next_scan_time = 0;
  flush_at = 0;
  needs_reset = false;
}

abbrev pub no_file : Text → Bool
no_file path = false

-- a directory "a" with a file "a/b"
abbrev is_ab : Text → Bool
is_ab path = text_eq path (codes "a/b")

abbrev status_ab : Text → PathStatus
status_ab path = if is_ab path then file_path else directory_path

aggregate_changes-Covers_example :
    Any
      (Covers (trim_folder (codes "/s") (as_relative (clean (codes "a/b")))))
      (aggregate_changes 3 (codes "/s") status_ab (codes "a/b" ∷ codes "a" ∷ []))
unfolding sorted_unique_and_clean_paths clean text_eq trim_folder has_prefix sort_strings text_le
    split join trim_prefix dir
aggregate_changes-Covers_example =
    aggregate_changes-Covers 3 (codes "/s") status_ab is_ab (codes "a/b" ∷ codes "a" ∷ [])
      (codes "a/b") (refl, ((refl, refl), tt)) (inl refl) (differs (codes "a/b") [] refl) refl

aggregate_changes-HasOrigin_example :
    All
      (HasOrigin 3
        (codes "/s")
        status_ab
        (sorted_unique_and_clean_paths (codes "a/b" ∷ codes "a" ∷ [])))
      (aggregate_changes 3 (codes "/s") status_ab (codes "a/b" ∷ codes "a" ∷ []))
aggregate_changes-HasOrigin_example =
    aggregate_changes-HasOrigin 3 (codes "/s") status_ab (codes "a/b" ∷ codes "a" ∷ [])

-- no path is tracked twice
pub tracker-IsDistinct : IsDistinct tracker.in_progress
unfolding lookup
tracker-IsDistinct = (refl, tt)

run-IsBounded_example :
    IsBounded (run config ((1, fs_input (codes "b") 1) ∷ (2, timer tick) ∷ []) tracker).0
run-IsBounded_example =
    run-IsBounded config ((1, fs_input (codes "b") 1) ∷ (2, timer tick) ∷ []) tracker
      (record { few = omega arith; distinct = tracker-IsDistinct })

tracker-AllClean : AllClean tracker.in_progress
unfolding clean split text_eq join
tracker-AllClean = (refl, tt)

lookup-flush_example :
    lookup (codes "a") (flush config tick tracker).0.in_progress
    ≡ after_flush
        (tick.accepts (request config tick tracker))
        10
        tick
        (codes "a")
        (lookup (codes "a") tracker.in_progress)
lookup-flush_example =
    lookup-flush config tick (codes "a") tracker tracker-IsDistinct tracker-AllClean refl refl

-- n changes, of the paths "0", "1" and so on
unfoldable many : ℕ → Map ProgressTime
many zero = []
many (suc n) = (itoa_nat n, record { fs_event = false; time = 0 }) ∷ many n

lookup-many : (m n : ℕ) → n ≤ m → lookup (itoa_nat m) (many n) ≡ none
unfolding lookup many
lookup-many m zero h = refl
lookup-many m (suc n) h =
    rw (text_ne (itoa_nat n) (itoa_nat m) (λ e. absurd (less (itoa_nat-injective n m e) h)))
      (lookup-many m n (omega arith))
  where
    less : n ≡ m → suc n ≤ m → ⊥
    less e le = omega arith

many-IsDistinct : (n : ℕ) → IsDistinct (many n)
unfolding many
many-IsDistinct zero = tt
many-IsDistinct (suc n) = (lookup-many n n (omega arith), many-IsDistinct n)

length-many : (n : ℕ) → length (many n) ≡ n
unfolding many
length-many zero = refl
length-many (suc n) = ap suc (length-many n)

itoa_nat-full : (n : ℕ) → itoa_nat n ≢ []
itoa_nat-full n h = let (c, s, e, d) = itoa_nat-cons n in impossible c s (sym e ∙ h)
  where
    impossible : (c : ℕ) (s : Text) → c ∷ s ≡ [] → ⊥
    impossible c s q = cc

many_named : (n : ℕ) → All (λ q. q ≢ []) (keys (many n))
unfolding many
many_named zero = tt
many_named (suc n) = (itoa_nat-full n, many_named n)

abbrev full : Tracker
full = record tracker { in_progress = many 513 }

change_lost_example :
    let (t', subs) =
      run config ((9, fs_input (itoa_nat 513) 9) ∷ finish_events 9 (keys full.in_progress)) full in
    (t'.in_progress ≡ []) × (subs ≡ []) × ((flush config tick t').1 ≡ [])
change_lost_example =
    change_lost config (itoa_nat 513) 9 tick full (omega (arith, length-many 513))
      (lookup-many 513 513 (omega arith)) (many-IsDistinct 513) (many_named 513)
