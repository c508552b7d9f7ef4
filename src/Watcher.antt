-- ===== src/Watcher.antt =====
-- service/watcher.go: NewWatcher, Run, Close, watchFolder with waitForEvent, informChange and askToDelayScan. What
-- syncthing's ignore patterns and the library for inotify say are arguments.
pub mod Events
pub mod Sending
use correlation.Base.{
  ℕ, Text, codes, List, [], ◌∷◌, Bool, true, false, if◌then◌else◌, Option, none, some, ◌*◌, ◌++◌,
  ◌||◌,
}
use correlation.Strings.{split, join}
use correlation.StEvents.{Outcome, going, panic}
use correlation.RelativePath.{relative_path}
use correlation.Rlimit.{Kernel, maximize_open_file_limit}
use correlation.Syncthing.{Http, Client, scan}
use correlation.Tracker.{second, Config}

-- Watcher, without its channels, its logger and the client
pub record Watcher : Type 0 where
  pub folder_id : Text
  pub ignore_paths : List Text
  pub closed : Bool
  pub config : Config

-- NewWatcher
unfoldable pub new_watcher : Text → Text → Watcher
new_watcher folder_id folder_path = record {
  folder_id = folder_id;
  ignore_paths = codes ".stversions" ∷ codes ".syncthing." ∷ codes "~syncthing~" ∷ [];
  closed = false;
  config = record { folder_path = folder_path; delay_scan = second * 3600 };
}

-- waitForEvent, on what it receives from the channel: `none` is a channel that is closed. The event is nil
-- then, and calling Path on it panics.
unfoldable pub wait_for_event : Option Text → Outcome Text
wait_for_event none = panic
wait_for_event (some path) = going path

-- folderSlice.String, what fmt.Sprint makes of the slice
unfoldable pub folders_string : List Text → Text
folders_string folders = b'[' ∷ (join b' ' folders ++ b']' ∷ [])

-- the folders of a folderSlice with those of a value of its flag
unfoldable pub set_folders : List Text → Text → List Text
set_folders folders value = folders ++ split b',' value

-- A round of watchFolder's loop on the path of an event: what is sent to fsInput.
unfoldable pub on_event : (Text → Bool) → Text → Text → Text → Option Text
on_event is_ignored home folder_path path =
    let rel_path = relative_path home path folder_path in
    if is_ignored rel_path then none else some rel_path

abbrev sent : Option Text → List Text → List Text
sent none rest = rest
sent (some path) rest = path ∷ rest

-- the loop, on the paths of the events
unfoldable pub on_events : (Text → Bool) → Text → Text → List Text → List Text
unfolding on_event
on_events is_ignored home folder_path [] = []
on_events is_ignored home folder_path (e ∷ es) =
    sent (on_event is_ignored home folder_path e) (on_events is_ignored home folder_path es)

-- watchFolder; with an error of notify.Watch it returns and nothing is sent
unfoldable pub watch_folder : Option Text → (Text → Bool) → Text → Watcher → List Text → List Text
unfolding on_events
watch_folder (some e) is_ignored home w paths = []
watch_folder none is_ignored home w paths = on_events is_ignored home w.config.folder_path paths

module _ (h : Http) where
  -- informChange
  unfoldable pub inform_change : Client → Watcher → List Text → h.State → h.State × Option Text
  inform_change c w subs st = scan h c w.folder_id subs w.config.delay_scan st

  -- askToDelayScan; an error is only logged
  unfoldable pub ask_to_delay_scan : Client → Watcher → h.State → h.State
  unfolding inform_change
  ask_to_delay_scan c w st = (inform_change c w (codes ".stfolder" ∷ []) st).0

-- Watcher.Close, which then sends 0 to the channel stop
unfoldable pub close : Watcher → Watcher
close w = record w { closed = true }

module _ (k : Kernel) where
  abbrev first_of : List ℕ → Option ℕ
  first_of [] = none
  first_of (code ∷ codes) = some code

  -- Watcher.Run on what is sent to the channel stop: the limit of open files is raised, and the first code
  -- is returned
  unfoldable pub run : List ℕ → k.State → k.State × Option ℕ
  unfolding maximize_open_file_limit
  run stops st = ((maximize_open_file_limit k st).0, first_of stops)
