-- ===== src/Service.antt =====
-- service/service.go: the configuration and the construction of the service. What happens outside,
-- such as the run of syncthing that generates its configuration, is an argument.
pub mod Creation
pub mod Update
pub mod Loop
pub mod Closing
pub mod Converge
pub mod Startup
pub mod Discovery
use correlation.Base.{
  is_empty, ℕ, Text, codes, List, [], ◌∷◌, ◌++◌, Bool, true, false, not, if◌then◌else◌, Option,
  none, some, Result, ok, err, ◌>>=◌, ◌>>◌, ℤ, pos, eq_ℤ,
}
use correlation.Strconv.{itoa}

abbrev pub folder_id : Text
folder_id = codes "1338de53-f75a-4164-b769-dd62c1273717"

abbrev pub folder_label : Text
folder_label = codes "sync-dir"

-- ServiceConfig; an interval is in seconds
pub record ServiceConfig : Type 0 where
  pub sync_port : ℤ
  pub http_port : ℤ
  pub docker_endpoint : Text
  pub container_id : Text
  pub announce_ip : Text
  pub announce_port : ℤ
  pub syncthing_path : Text
  pub sync_dir : Text
  pub config_dir : Text
  pub master : Bool
  pub rescan_interval : ℕ
  pub no_watcher : Bool
  pub user : Text
  pub password : Text

-- The fields of a Service that change or are made up, and its watcher: `none` if there is none, and
-- otherwise whether it runs.
pub record Service : Type 0 where
  pub config : ServiceConfig
  pub api_key : Text
  pub endpoint : Text
  pub last_devices : Text
  pub watcher : Option Bool

abbrev pub is_zero : ℤ → Bool
is_zero z = eq_ℤ z (pos 0)

-- "Apply defaults"
unfoldable pub with_defaults : ServiceConfig → ServiceConfig
with_defaults c = record c {
  announce_port = if is_zero c.announce_port then c.sync_port else c.announce_port;
  syncthing_path = if is_empty c.syncthing_path then codes "/app/syncthing" else c.syncthing_path;
}

abbrev pub need : Bool → Text → Result (Unit {0})
need true message = err message
need false message = ok tt

-- "Check input"
unfoldable pub check_input : ServiceConfig → Result (Unit {0})
check_input c = do
  need (is_empty c.announce_ip) (codes "AnnounceIP is empty")
  need (is_zero c.announce_port) (codes "AnnouncePort is 0")
  need (is_empty c.sync_dir) (codes "SyncDir is empty")
  need (is_empty c.config_dir) (codes "ConfigDir is empty")

-- the arguments with which generateConfig runs syncthing
unfoldable pub generate_args : ServiceConfig → Text → List Text
generate_args c api_key =
    (codes "-generate=" ++ c.config_dir)
    ∷ (codes "-home=" ++ c.config_dir)
    ∷ codes "-no-browser"
    ∷ (codes "-gui-apikey=" ++ api_key)
    ∷ (codes "-gui-address=" ++ b':' ∷ itoa c.http_port)
    ∷ []

-- the arguments with which runSyncthing runs it
unfoldable pub run_args : ServiceConfig → Text → List Text
run_args c api_key =
    (codes "-home=" ++ c.config_dir)
    ∷ codes "-no-browser"
    ∷ (codes "-gui-apikey=" ++ api_key)
    ∷ (codes "-gui-address=" ++ b':' ∷ itoa c.http_port)
    ∷ []

-- What comes of starting a command, and of waiting for its end.
pub record Commands : Type 0 where
  pub start : Text → List Text → Option Text
  pub wait : Text → List Text → Option Text

-- runSyncthing; an error of the wait is only logged
unfoldable pub run_syncthing : Commands → ServiceConfig → Text → Result (Unit {0})
unfolding run_args
run_syncthing commands c api_key = elim (commands.start c.syncthing_path (run_args c api_key)) [
  | none ↦ ok tt
  | some e ↦ err e
]

-- generateConfig, on what comes of running a command
unfoldable pub generate_config :
    (Text → List Text → Option Text) → ServiceConfig → Text → Result (Unit {0})
unfolding generate_args
generate_config run_command c api_key =
    elim (run_command c.syncthing_path (generate_args c api_key)) [ none ↦ ok tt | some e ↦ err e ]

abbrev create : ServiceConfig → Text → Service
create c api_key = record {
  config = c;
  api_key = api_key;
  endpoint = codes "http://127.0.0.1:" ++ itoa c.http_port;
  last_devices = [];
  watcher = if not c.no_watcher then some false else none;
}

-- NewService; the API key that uniuri makes up is an argument
unfoldable pub new_service :
    (Text → List Text → Option Text) → Text → ServiceConfig → Result Service
unfolding with_defaults check_input generate_config
new_service run_command api_key config = do
  let c = with_defaults config
  check_input c
  generate_config run_command c api_key
  ok (create c api_key)
