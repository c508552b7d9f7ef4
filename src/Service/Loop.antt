-- ===== src/Service/Loop.antt =====
-- service/service.go: TriggerUpdate, and the loops that call it and wait for it (configLoop,
-- backendMonitorLoop). The counters are uint32 and are read and written atomically, so an
-- interleaving of the goroutines is a sequence of the steps below.
pub mod Triggers
use correlation.Base.{
  ℕ, zero, suc, ◌+◌, ◌%◌, ◌^◌, ◌<◌, ◌≤◌, List, [], ◌∷◌, ◌≡◌, ◌≢◌, refl, sym, ◌∙◌, ap, arith, Bool,
  true, false, ltb, ◌==◌, ◌&&◌, if◌then◌else◌, Option, none, some,
}

-- The counters of the service and the variables of configLoop: lastChangeCounter, and the value of
-- currentChangeCounter while updateSyncthing runs.
pub record LoopState : Type 0 where
  pub change_counter : ℕ
  pub signal_counter : ℕ
  pub last_change_counter : ℕ
  pub updating : Option ℕ

abbrev u32 : ℕ → ℕ
u32 n = n % 2 ^ 32

-- TriggerUpdate
unfoldable pub trigger_update : LoopState → LoopState
trigger_update s = record s { change_counter = u32 (s.change_counter + 1) }

-- a round of backendMonitorLoop, whatever Watch returns
unfoldable pub monitor_round : LoopState → LoopState
unfolding trigger_update
monitor_round s = trigger_update s

-- the start of a round of configLoop, up to the call of updateSyncthing
unfoldable pub start_round : LoopState → LoopState
start_round s =
    if ltb s.last_change_counter s.change_counter && s.signal_counter == 0
    then record s { updating = some s.change_counter }
    else s

-- what configLoop does with the result of updateSyncthing: whether it was nil
unfoldable pub end_round : Bool → LoopState → LoopState
end_round succeeded s = elim s.updating [
  | none ↦ s
  | some current ↦
      if succeeded
      then record s { last_change_counter = current; updating = none }
      else record s { updating = none }
]

-- Steps of the goroutines. A round begins only when the one before has ended.
pub data Step : Type 0 where
  trigger : Step
  signal : Step
  begin : Step
  finish : Bool → Step

unfoldable pub step : Step → LoopState → LoopState
unfolding monitor_round start_round end_round
step trigger s = monitor_round s
step signal s = record s { signal_counter = u32 (s.signal_counter + 1) }
step begin s = elim s.updating [ none ↦ start_round s | some current ↦ s ]
step (finish succeeded) s = end_round succeeded s

unfoldable pub run : List Step → LoopState → LoopState
unfolding step
run [] s = s
run (o ∷ os) s = run os (step o s)
