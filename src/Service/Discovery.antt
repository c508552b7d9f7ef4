-- ===== src/Service/Discovery.antt =====
-- service/service.go, Run, and how one instance comes into the configuration of another.
pub mod Found
use correlation.Base.{ℕ, Text, codes, List, [], ◌∷◌, Option, none, some, Result}
use correlation.Backend.{Backend}
use correlation.Devices.{DeviceRegistration, DeviceRegistrations}
use correlation.Address.{announce_address}
use correlation.Service.{Service}
use correlation.Service.Startup.{wait_and_get_local_device_id}
use correlation.Service.Update.{Syncthing, Calls, update_syncthing}
use correlation.Service.Converge.{System, start}

-- the device that Run announces, after the attempts to get its ID
abbrev pub own_device : List (Result Text) → Service → DeviceRegistration
own_device attempts s = record {
  id = wait_and_get_local_device_id attempts;
  ip = s.config.announce_ip;
  port = s.config.announce_port;
}

module _ (b : Backend) where
  -- the call of Announce in Run
  unfoldable pub announce_me :
      List (Result Text) → Service → b.Receiver → b.World → b.Receiver × b.World
  announce_me attempts s r w =
      let device_id = wait_and_get_local_device_id attempts in
      let address = announce_address s.config.announce_ip s.config.announce_port in
      b.announce device_id address r w

  -- What Run has made when it listens for signals: the backend's receiver and world, and the goroutines.
  -- The devices of the system are those that Get would return.
  pub record Running (y : Syncthing) (calls : Calls y) : Type 0 where
    pub receiver : b.Receiver
    pub world : b.World
    pub system : System y calls

  module _ (y : Syncthing) (calls : Calls y) where
    -- Run, up to listenSignals; its goroutines are steps of the system
    unfoldable pub run :
        List (Result Text) → Service → y.State → b.Receiver → b.World → Running y calls
    unfolding announce_me
    run attempts s st r w =
        let (r', w') = announce_me attempts s r w in
        record { receiver = r'; world = w'; system = start y calls s st (b.get r' w').1 }
