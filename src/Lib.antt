-- ===== src/Lib.antt =====
-- Correlation keeps a directory in sync between the instances of a distributed application. Each
-- instance runs syncthing, announces its device in a backend (etcd or Kubernetes), writes the devices
-- that it finds there into syncthing's configuration, and tells syncthing which changed paths to scan.
--
-- Which file models which part:
--
--   Backend      service/backend/backend.go: the interface Backend, and its contract
--   Devices      service/backend/backend.go: DeviceRegistration and the FullString of a list of them.
--                Devices/Group is the quotient of these lists by order
--   Address      the text "<ip>:<port>": net.JoinHostPort in service/service.go, parseDeviceInfo in
--                service/backend/etcd_backend.go, parseAddress in service/backend/k8s_backend.go
--   Etcd         service/backend/etcd_backend.go: each method is a function on EtcdBackend and the store
--                of the keys API; `step` and `run` are calls and rounds of announceLoop in any order.
--                Etcd/Directory is the abstract directory of announcements that it keeps,
--                Etcd/Directory/Together several instances on one store, and Etcd/Expiry the announce
--                loop, with the time that its calls take, against the time to live of its key,
--                second by second, Etcd/Crash its end
--   K8s          service/backend/k8s_backend.go: each method is a function on K8sBackend and the state of
--                the cluster; `watch` takes the states that the rounds of its loop meet. Etcd/Registered
--                and K8s/Registered present the two as a Backend
--   Announced    service/docker.go and service/kubernetes.go: where the address to announce comes from
--   Service      service/service.go: NewService (Service), updateSyncthing (Service/Update), configLoop,
--                backendMonitorLoop and TriggerUpdate (Service/Loop), close, exitProcess, listenSignals
--                and Watcher.Close (Service/Closing), the waits of Run (Service/Startup), Run up to
--                listenSignals on any backend (Service/Discovery). Service/Converge puts the loops, the
--                updates and a changing backend together, and Service/Converge/Configured adds the
--                configuration that syncthing has
--   Main         main.go and pkg/kubernetes/downward_api.go: the flags and the log levels (Main), Exitf and
--                its callers (Main/Exit), the backend and the service that cmdMainRun makes
--                (Main/Prepare), its call of Run on the chosen backend (Main/Start)
--   Syncthing    syncthing/client.go and syncthing/api.go: each method is a function on a Client and the
--                state of the transport
--   Watcher      service/watcher.go, NewWatcher, Run, Close, watchFolder, waitForEvent, informChange and
--                askToDelayScan. Watcher/Sending is a firing of the timer with the requests that it sends,
--                and Watcher/Sending/Change the way of a change from watchFolder to a request
--   Rlimit       service/rlimit_unix.go and service/rlimit_windows.go
--   StEvents     service/watcher.go, watchSTEvents, and the Event of syncthing/api.go
--   RelativePath service/watcher.go, relativePath, expandTilde and getHomeDir
--   Aggregate    service/watcher.go, aggregateChanges and what it calls
--   Tracker      service/watcher.go, accumulateChanges: `step` is one case of its select, `run` its loop
--   Base, Strings, Strconv, Paths and Query hold lists, texts, maps and what the code uses of the Go
--   packages strings, strconv, path, path/filepath and net/url. Examples applies the theorems to
--   concrete values.
--
-- How they interact: a backend's Watch ends in TriggerUpdate, which configLoop answers with
-- updateSyncthing; that compares FullString of the backend's Get with that of the last update, and the
-- first success starts the watcher. watchFolder and watchSTEvents feed accumulateChanges, whose flush asks
-- aggregateChanges what to scan, and whose requests informChange sends with the client of syncthing.
--
-- A string is a list of byte values. A map of Go is an association list without double keys; where the
-- code ranges over one, the order does not matter to what is stated. An error is a value of Result, and
-- a panic one of Outcome. The counters of service/service.go are numbers below 2^32 that wrap around.
-- Concurrent goroutines are sequences of steps: what a mutex or an atomic operation guards is one step.
-- Loops are recursion on a list, with two exceptions. The loop of updateAnnounce in the Kubernetes
-- backend is recursion on its 25 rounds. The loop of Watch there is recursion on the list of states that
-- it meets, and the theorems say for which lists it returns.
--
-- Parameters: the keys API of etcd (Etcd.KeysApi, with Etcd.Registry.KeepsKeys for what set and get
-- promise, Etcd.Directory.IsKeyValue for all that is read and written, and Etcd.Expiry.Expires and
-- Etcd.Crash.Forgets for keys with a time to live), the client of Kubernetes and encoding/json
-- (K8s.Cluster, with K8s.Announcing.KeepsPods and K8s.Withdrawn.IsByName for what updating and listing
-- pods promise), net/http and encoding/json in the client of syncthing (Syncthing.Http), syncthing and
-- its configuration types as updateSyncthing uses them (Service.Update.Syncthing and Calls, with
-- Service.Update.Mirrored.Stores for what its REST API promises), what lies outside of main
-- (Main.Prepare.Outside), docker, os.Stat, the ignore patterns, the clock, the system calls for the
-- file limit, and the run of a command.
--
-- Not modelled: the libraries under deps; logging; maskAny, which only adds a location to an error;
-- the handling of the flags by cobra in main.go, with showUsage; what the process that runSyncthing
-- starts does. DeviceRegistrations.Sort only calls sort.Sort with the methods that are modelled. Of
-- the retries of a library in service/service.go (Service/Startup) only the results of the attempts
-- are modelled, not the time between them.
pub mod Base
pub mod Strings
pub mod Strconv
pub mod Devices
pub mod Address
pub mod Paths
pub mod Query
pub mod Backend
pub mod Etcd
pub mod K8s
pub mod Aggregate
pub mod Tracker
pub mod RelativePath
pub mod StEvents
pub mod Syncthing
pub mod Watcher
pub mod Service
pub mod Announced
pub mod Main
pub mod Rlimit
pub mod Examples
