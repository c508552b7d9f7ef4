-- ===== src/Service/Converge.antt =====
-- service/service.go: the goroutines of one instance together. backendMonitorLoop turns a change of the
-- backend into a trigger, and configLoop answers with updateSyncthing, which reads the backend at some
-- time between the beginning and the end of its round.
pub mod Synced
pub mod Idle
pub mod Configured
use correlation.Base.{
  ℕ, Bool, true, false, not, ◌&&◌, if◌then◌else◌, Option, none, some, Text, List, [], ◌∷◌, Result,
}
use correlation.Devices.{DeviceRegistrations}
use correlation.Service.{Service}
use correlation.Service.Update.{Syncthing, Calls, update_syncthing}
use correlation.Service.Loop.{LoopState, trigger_update, monitor_round}
use correlation.Service.Loop

module _ (y : Syncthing) (calls : Calls y) where
  -- `devices` is what Get of the backend returns now, and `unseen` says that Watch has not returned since
  -- that last changed. `outcome` says whether the update of the round that runs was successful, if it
  -- has been made.
  pub record System : Type 0 where
    pub loop : LoopState
    pub service : Service
    pub state : y.State
    pub devices : Result DeviceRegistrations
    pub unseen : Bool
    pub outcome : Option Bool

  pub data Event : Type 0 where
    change : Result DeviceRegistrations → Event
    notice : Event
    signal : Event
    begin : Event
    update : Event
    finish : Event

  abbrev succeeded : Option Text → Bool
  succeeded none = true
  succeeded (some e) = false

  -- updateSyncthing, within the round that runs
  unfoldable pub perform : System → System
  perform s =
      let (service, state, e) = update_syncthing y calls s.devices s.service s.state in
      record s { service = service; state = state; outcome = some (succeeded e) }

  abbrev ended : Option Bool → System → System
  ended none s = s
  ended (some b) s = record s { loop = Loop.step (Loop.finish b) s.loop; outcome = none }

  -- the update is made once in a round
  abbrev on_update : Option ℕ → Option Bool → System → System
  on_update none outcome s = s
  on_update (some n) (some b) s = s
  on_update (some n) none s = perform s

  unfoldable pub step : Event → System → System
  unfolding perform
  step (change devices) s = record s { devices = devices; unseen = true }
  step notice s = record s { unseen = false; loop = monitor_round s.loop }
  step signal s = record s { loop = Loop.step Loop.signal s.loop }
  step begin s = record s { loop = Loop.step Loop.begin s.loop }
  step update s = on_update s.loop.updating s.outcome s
  step finish s = ended s.outcome s

  unfoldable pub run : List Event → System → System
  unfolding step
  run [] s = s
  run (e ∷ es) s = run es (step e s)

  -- the system when Run has made its first trigger
  unfoldable pub start : Service → y.State → Result DeviceRegistrations → System
  unfolding trigger_update
  start service state devices = record {
    loop = trigger_update (record {
      change_counter = 0;
      signal_counter = 0;
      last_change_counter = 0;
      updating = none;
    });
    service = service;
    state = state;
    devices = devices;
    unseen = false;
    outcome = none;
  }
