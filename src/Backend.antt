-- ===== src/Backend.antt =====
-- service/backend/backend.go: the interface Backend, through which the service sees etcd or Kubernetes.
-- A method works on its receiver and on the world behind it.
use correlation.Base.{Text, List, ◌≡◌, Any, Option, Result, ok}
use correlation.Devices.{DeviceRegistration, DeviceRegistrations}
use correlation.Address.{announce_address}

-- Watch blocks: it is given the worlds that it meets, and `none` says that it has not returned.
pub record Backend : Type 1 where
  pub Receiver : Type 0
  pub World : Type 0
  pub watch : Receiver → List World → Option (Receiver × Result (Unit {0}))
  pub get : Receiver → World → Receiver × Result DeviceRegistrations
  pub announce : Text → Text → Receiver → World → Receiver × World
  pub un_announce : Receiver → World → Receiver × World

-- What a backend promises to its clients: a device that was announced and is then published is found by
-- every receiver of the group that is up to date with the world. `Publishes d r w p w'` says that the world becomes w' after Announce of d on
-- r and w has come to p. What that takes, and which receivers are of the group, differs.
pub record IsRegistry (b : Backend) : Type 1 where
  pub Publishes :
      DeviceRegistration → b.Receiver → b.World → b.Receiver × b.World → b.World → Type 0
  pub IsPeer : b.Receiver → b.Receiver → b.World → Type 0
  pub found :
      (d : DeviceRegistration) (r r' : b.Receiver) (w w' : b.World)
      → Publishes d r w (b.announce d.id (announce_address d.ip d.port) r w) w'
      → IsPeer r r' w'
      → (ds : DeviceRegistrations) × ((b.get r' w').1 ≡ ok ds) × Any (λ e. e ≡ d) ds
