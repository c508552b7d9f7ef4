-- ===== src/Tracker.antt =====
-- service/watcher.go, accumulateChanges: the loop that collects events of syncthing and of the file
-- system, and asks syncthing to scan what has changed. Each event is one step on the loop's
-- variables. Times and durations are nanoseconds; a subtraction of times is written as a sum on the
-- other side of the test. What time.Now returns, each time that it is called, and whether a scan
-- request succeeds come with the event.
pub mod Branches
pub mod Bound
pub mod Flush
pub mod Echo
pub mod Pending
pub mod Younger
use correlation.Base.{
  is_empty, ℕ, zero, suc, ◌+◌, ◌-◌, ◌*◌, Text, codes, List, [], ◌∷◌, ◌++◌, Bool, true, false, not,
  ◌&&◌, ◌||◌, ltb, ◌==◌, if◌then◌else◌, Option, none, some, Map, lookup, insert, delete, length,
}
use correlation.Aggregate.{PathStatus, aggregate_changes, clean_paths}

abbrev pub second : ℕ
second = 1_000_000_000

abbrev pub debounce_timeout : ℕ
debounce_timeout = 500_000_000

abbrev pub dir_vs_files : ℕ
dir_vs_files = 128

abbrev pub max_files : ℕ
max_files = 512

-- STEvent
pub record StEvent : Type 0 where
  pub path : Text
  pub finished : Bool

-- progressTime: whether the event is one of the file system, and when it came
pub record ProgressTime : Type 0 where
  pub fs_event : Bool
  pub time : ℕ

-- The fields of a Watcher that the loop reads.
pub record Config : Type 0 where
  pub folder_path : Text
  pub delay_scan : ℕ

-- the variables of the loop
pub record Tracker : Type 0 where
  pub in_progress : Map ProgressTime
  pub curr_interval : ℕ
  pub next_scan_time : ℕ
  pub flush_at : ℕ
  pub needs_reset : Bool

-- What one firing of the timer finds: the readings of the clock, the status of the paths, and whether
-- a scan request succeeds.
pub record Tick : Type 0 where
  pub check : ℕ
  pub remind : ℕ
  pub expiry : ℕ
  pub visit : Text → ℕ
  pub done : ℕ
  pub status : Text → PathStatus
  pub accepts : List Text → Bool

pub data Event : Type 0 where
  st_input : StEvent → ℕ → Event
  fs_input : Text → ℕ → Event
  timer : Tick → Event

-- the top of a round: flushTimer.Reset(currInterval)
unfoldable pub arm : ℕ → Tracker → Tracker
arm now t =
    if t.needs_reset then record t { needs_reset = false; flush_at = now + t.curr_interval } else t

abbrev speed_up : Tracker → Tracker
speed_up t =
    if not (t.curr_interval == debounce_timeout)
    then record t { curr_interval = debounce_timeout; needs_reset = true }
    else t

-- the case of an event of syncthing
unfoldable pub on_st_input : StEvent → ℕ → Tracker → Tracker
on_st_input item now t =
    if is_empty item.path
    then speed_up t
    else if item.finished
    then record t { in_progress = delete item.path t.in_progress }
    else if ltb max_files (length t.in_progress)
    then t
    else record t {
      in_progress = insert item.path (record { fs_event = false; time = now }) t.in_progress;
    }

abbrev pub is_from_st : Option ProgressTime → Bool
is_from_st none = false
is_from_st (some p) = not p.fs_event

-- the case of an event of the file system
unfoldable pub on_fs_input : Text → ℕ → Tracker → Tracker
on_fs_input item now s =
    let t = speed_up s in
    if is_from_st (lookup item t.in_progress)
    then record t { in_progress = delete item t.in_progress }
    else if ltb max_files (length t.in_progress)
    then t
    else record t {
      in_progress = insert item (record { fs_event = true; time = now }) t.in_progress;
    }

-- "Clean up invalid and expired paths"
abbrev pub is_stale : Tick → Text → ProgressTime → Bool
is_stale k path p =
    is_empty path || (not p.fs_event && ltb (p.time + debounce_timeout * 10) k.expiry)

-- an event of the file system that is older than the current interval
abbrev pub is_ripe : ℕ → Tick → Text → ProgressTime → Bool
is_ripe interval k path p = p.fs_event && ltb (p.time + interval) (k.visit path)

-- what the loop over inProgress leaves in it
unfoldable pub swept : Tick → Map ProgressTime → Map ProgressTime
swept k [] = []
swept k ((path, p) ∷ m) =
    let rest = swept k m in if is_stale k path p then rest else (path, p) ∷ rest

-- the paths that this loop collects
unfoldable pub ripe : ℕ → Tick → Map ProgressTime → List Text
ripe interval k [] = []
ripe interval k ((path, p) ∷ m) =
    let rest = ripe interval k m in
    if not (is_stale k path p) && is_ripe interval k path p then path ∷ rest else rest

unfoldable pub delete_all : List Text → Map ProgressTime → Map ProgressTime
delete_all [] m = m
delete_all (p ∷ ps) m = delete_all ps (delete p m)

-- what is left when the whole folder was scanned: the events of syncthing
unfoldable pub without_fs : Map ProgressTime → Map ProgressTime
without_fs [] = []
without_fs ((path, p) ∷ m) =
    let rest = without_fs m in if p.fs_event then rest else (path, p) ∷ rest

module _ (w : Config) where
  -- delayScanInterval
  unfoldable pub delay_scan_interval : ℕ
  delay_scan_interval =
      if ltb 0 w.delay_scan then w.delay_scan - 5 * second else 9999 * 3600 * second

  abbrev reminder : List Text
  reminder = codes ".stfolder" ∷ []

  -- The variables before the first round, at the time that nextScanTime is computed, and the reminder
  -- that is sent first.
  unfoldable pub start : ℕ → Tracker × List (List Text)
  unfolding delay_scan_interval
  start now = (
    record {
      in_progress = [];
      curr_interval = delay_scan_interval;
      next_scan_time = now + delay_scan_interval;
      flush_at = now;
      needs_reset = true;
    },
    if ltb 0 w.delay_scan then reminder ∷ [] else [],
  )

  -- the end of a flush, behind a scan request that succeeded or not
  abbrev finish : Bool → Tick → Map ProgressTime → Tracker → Tracker
  finish true k m t = record t { in_progress = m; next_scan_time = k.done + delay_scan_interval }
  finish false k m t = t

  -- The paths that have changed are scanned. aggregateChanges cleans the slice in place, so that the cleaned
  -- paths are deleted; that it also sorts it does not matter to that.
  abbrev inform : Tick → List Text → Tracker → Tracker × List (List Text)
  inform k [] t = (t, [])
  inform k (p ∷ ps) t =
      let subs = aggregate_changes dir_vs_files w.folder_path k.status (p ∷ ps) in
      (finish (k.accepts subs) k (delete_all (clean_paths (p ∷ ps)) t.in_progress) t, subs ∷ [])

  -- the part behind the reminder
  unfoldable pub flush : Tick → Tracker → Tracker × List (List Text)
  unfolding swept ripe delete_all without_fs delay_scan_interval
  flush k t =
      if length t.in_progress == 0
      then (record t { curr_interval = delay_scan_interval }, [])
      else if ltb (length t.in_progress) max_files
      then inform k (ripe t.curr_interval k t.in_progress)
          (record t { in_progress = swept k t.in_progress })
      else (finish (k.accepts ([] ∷ [])) k (without_fs t.in_progress) t, ([] ∷ []) ∷ [])

  -- the case of the timer; askToDelayScan is a request whose result is only logged
  unfoldable pub on_timer : Tick → Tracker → Tracker × List (List Text)
  unfolding flush
  on_timer k s =
      let t = record s { needs_reset = true } in
      if ltb 0 w.delay_scan && ltb t.next_scan_time k.check
      then (let (t', subs) =
            flush k (record t { next_scan_time = k.remind + delay_scan_interval }) in
          (t', reminder ∷ subs))
      else flush k t

  unfoldable pub step : Event → Tracker → Tracker × List (List Text)
  unfolding on_st_input on_fs_input on_timer
  step (st_input item now) t = (on_st_input item now t, [])
  step (fs_input item now) t = (on_fs_input item now t, [])
  step (timer k) t = on_timer k t

  -- Rounds of the loop: the timer is armed at the given time, then one event is taken. The result
  -- holds every scan request, in order.
  unfoldable pub run : List (ℕ × Event) → Tracker → Tracker × List (List Text)
  unfolding step arm
  run [] t = (t, [])
  run ((now, e) ∷ es) t =
      let (t', subs) = step e (arm now t) in let (last, rest) = run es t' in (last, subs ++ rest)
