-- ===== src/Watcher/Sending.antt =====
-- service/watcher.go: a flush of accumulateChanges with the calls of informChange that it makes.
pub mod Reach
pub mod Change
use correlation.Base.{
  Text, ltb, ◌+◌, ◌&&◌, if◌then◌else◌, List, [], ◌∷◌, Bool, true, false, Option, none, some,
}
use correlation.Syncthing.{Http, Client}
use correlation.Tracker.{Tracker, Tick, flush, delay_scan_interval}
use correlation.Watcher.{Watcher, inform_change, ask_to_delay_scan}

module _ (h : Http) (c : Client) (w : Watcher) where
  abbrev is_nil : Option Text → Bool
  is_nil none = true
  is_nil (some e) = false

  -- whether informChange succeeds
  unfoldable pub accepted : h.State → List Text → Bool
  unfolding inform_change
  accepted st subs = is_nil (inform_change h c w subs st).1

  -- the times and the answers of a flush that calls informChange
  abbrev pub asked : h.State → Tick → Tick
  asked st k = record k { accepts = accepted st }

  unfoldable pub inform_all : List (List Text) → h.State → h.State
  unfolding inform_change
  inform_all [] st = st
  inform_all (subs ∷ requests) st = inform_all requests (inform_change h c w subs st).0

  -- the part of the timer's case behind the reminder; it makes one call at most, so that its answer is
  -- that in the state before
  unfoldable pub flush_through : Tick → Tracker → h.State → Tracker × h.State
  unfolding flush inform_all
  flush_through k t st =
      let (t', requests) = flush w.config (asked st k) t in (t', inform_all requests st)

  -- what the flush in the case of the timer works on: the reminder of the delay comes before it
  unfoldable pub at_flush : Tick → Tracker → h.State → Tracker × h.State
  unfolding ask_to_delay_scan delay_scan_interval
  at_flush k s st =
      let t = record s { needs_reset = true } in
      if ltb 0 w.config.delay_scan && ltb t.next_scan_time k.check
      then (
        record t { next_scan_time = k.remind + delay_scan_interval w.config },
        ask_to_delay_scan h c w st,
      )
      else (t, st)

  -- the case of the timer, with its requests
  unfoldable pub on_timer_through : Tick → Tracker → h.State → Tracker × h.State
  unfolding flush_through at_flush
  on_timer_through k s st = let (t, st1) = at_flush k s st in flush_through k t st1
