-- ===== src/Syncthing.antt =====
-- syncthing/client.go and syncthing/api.go: the client of the REST API of syncthing. What net/http does
-- with a request and what encoding/json makes of a body are parameters. A body that is read is closed;
-- that is not modelled.
pub mod Requests
use correlation.Base.{
  is_empty, ℕ, Text, codes, List, [], ◌∷◌, ◌++◌, map, Bool, true, false, not, ◌==◌, ltb,
  if◌then◌else◌, ◌/◌, Option, none, some, Result, ok, err, ◌>>=◌, Map, lookup, ℤ, pos,
}
use correlation.Strings.{trim_space}
use correlation.Strconv.{itoa, itoa_nat}
use correlation.Query.{Values, values_set, values_add, encode}
use correlation.StEvents.{Json, text, flag, other, Event, Outcome, going, panic, as_text}

pub data Method : Type 0 where
  get_method post_method : Method

-- the parts of an http.Request that the code sets; `none` is a header that is not there
pub record Request : Type 0 where
  pub method : Method
  pub url : Text
  pub api_key : Option Text
  pub body : Text

-- the parts of an http.Response that the code reads, with what reading the body gives
pub record Response : Type 0 where
  pub status_code : ℕ
  pub status : Text
  pub body : Result Text

-- `check_url` is the error of http.NewRequest, `errorf` what fmt.Errorf makes of a format without
-- operands, and the last three are json.Unmarshal and json.Marshal.
pub record Http : Type 1 where
  pub State : Type 0
  pub Config : Type 0
  pub check_url : Text → Option Text
  pub send : Request → State → State × Result Response
  pub errorf : Text → Text
  pub unmarshal_object : Text → Result (Map Json)
  pub unmarshal_config : Text → Result Config
  pub marshal_config : Config → Result Text
  pub unmarshal_events : Text → Result (List Event)

pub record Client : Type 0 where
  pub endpoint : Text
  pub api_key : Text

pub record ClientConfig : Type 0 where
  pub endpoint : Text
  pub api_key : Text
  pub insecure_skip_verify : Bool

-- NewClient; the transport keeps insecure_skip_verify
unfoldable pub new_client : ClientConfig → Client
new_client cfg = record { endpoint = cfg.endpoint; api_key = cfg.api_key }

module _ (h : Http) where
  open h use {
    State, Config, check_url, send, errorf, unmarshal_object, unmarshal_config, marshal_config,
    unmarshal_events,
  }

  abbrev pub unexpected : Text → Text → Result Response
  unexpected status raw =
      let body = trim_space raw in
      if not (is_empty body)
      then err (errorf body)
      else err (errorf (codes "Unknown HTTP status returned: " ++ status))

  -- the tests on the status of a response
  unfoldable pub check_response : Response → Result Response
  check_response r =
      if r.status_code == 404
      then err (codes "Invalid endpoint or API call")
      else if r.status_code == 401
      then err (codes "Invalid username or password")
      else if r.status_code == 403
      then err (codes "Invalid API key")
      else if not (r.status_code == 200)
      then (do raw ← r.body; unexpected r.status raw)
      else ok r

  -- Client.handleRequest
  unfoldable pub handle_request : Client → Request → State → State × Result Response
  unfolding check_response
  handle_request c request st =
      let r = if is_empty c.api_key then request else record request { api_key = some c.api_key } in
      let (st', response) = send r st in (st', response >>= check_response)

  abbrev with_url : Option Text → Client → Request → State → State × Result Response
  with_url (some e) c request st = (st, err e)
  with_url none c request st = handle_request c request st

  -- Client.httpGet
  unfoldable pub http_get : Client → Text → State → State × Result Response
  unfolding handle_request
  http_get c url st =
      let full = c.endpoint ++ codes "/rest/" ++ url in
      with_url (check_url full) c
        (record { method = get_method; url = full; api_key = none; body = [] }) st

  -- Client.httpPost
  unfoldable pub http_post : Client → Text → Text → State → State × Result Response
  unfolding handle_request
  http_post c url body st =
      let full = c.endpoint ++ codes "/rest/" ++ url in
      with_url (check_url full) c
        (record { method = post_method; url = full; api_key = none; body = body }) st

  -- responseToBArray
  unfoldable pub response_to_b_array : Response → Result Text
  response_to_b_array r = r.body

  -- the body of an answer, and what a function makes of it
  abbrev pub decoded : {A : Type 0} → (Text → Result A) → Result Response → Result A
  decoded read (err e) = err e
  decoded read (ok r) = response_to_b_array r >>= read

  -- a type assertion on the field of an object: it panics on another type and on a missing key
  abbrev pub field :
      {A : Type 0} → (Option Json → Outcome A) → Text → Result (Map Json) → Outcome (Result A)
  field get key (err e) = going (err e)
  field get key (ok m) = elim (get (lookup key m)) [ going a ↦ going (ok a) | panic ↦ panic ]

  abbrev as_flag : Option Json → Outcome Bool
  as_flag (some (flag b)) = going b
  as_flag (some (text s)) = panic
  as_flag (some other) = panic
  as_flag none = panic

  -- Client.GetMyID
  unfoldable pub get_my_id : Client → State → State × Outcome (Result Text)
  unfolding http_get response_to_b_array
  get_my_id c st =
      let (st', r) = http_get c (codes "system/status") st in
      (st', field as_text (codes "myID") (decoded unmarshal_object r))

  -- Client.GetConfig
  unfoldable pub get_config : Client → State → State × Result Config
  unfolding http_get response_to_b_array
  get_config c st =
      let (st', r) = http_get c (codes "system/config") st in (st', decoded unmarshal_config r)

  abbrev pub error_of : Result Response → Option Text
  error_of (err e) = some e
  error_of (ok r) = none

  abbrev posted : Client → State → Result Text → State × Option Text
  posted c st (err e) = (st, some e)
  posted c st (ok body) =
      let (st', r) = http_post c (codes "system/config") body st in (st', error_of r)

  -- Client.SetConfig
  unfoldable pub set_config : Client → Config → State → State × Option Text
  unfolding http_post
  set_config c cfg st = posted c st (marshal_config cfg)

  -- Client.IsConfigInSync
  unfoldable pub is_config_in_sync : Client → State → State × Outcome (Result Bool)
  unfolding http_get response_to_b_array
  is_config_in_sync c st =
      let (st', r) = http_get c (codes "system/config/insync") st in
      (st', field as_flag (codes "configInSync") (decoded unmarshal_object r))

  -- Client.Restart
  unfoldable pub restart : Client → State → State × Option Text
  unfolding http_post
  restart c st = let (st', r) = http_post c (codes "system/restart") [] st in (st', error_of r)

  -- Client.Shutdown
  unfoldable pub shutdown : Client → State → State × Option Text
  unfolding http_post
  shutdown c st = let (st', r) = http_post c (codes "system/shutdown") [] st in (st', error_of r)

  -- the loop that adds the paths
  unfoldable pub add_subs : List Text → Values → Values
  add_subs [] m = m
  add_subs (sub ∷ subs) m = add_subs subs (values_add (codes "sub") sub m)

  -- the values of a scan request; the delay is in nanoseconds
  unfoldable pub scan_values : Text → List Text → ℕ → Values
  unfolding add_subs
  scan_values folder_id subs delay_scan =
      let values = add_subs subs (values_set (codes "folder") folder_id []) in
      let seconds = delay_scan / 1_000_000_000 in
      if ltb 0 seconds then values_set (codes "next") (itoa_nat seconds) values else values

  -- Client.Scan
  unfoldable pub scan : Client → Text → List Text → ℕ → State → State × Option Text
  unfolding http_post scan_values
  scan c folder_id subs delay_scan st =
      let query = encode (scan_values folder_id subs delay_scan) in
      let (st', r) = http_post c (codes "db/scan?" ++ query) [] st in
      (
        st',
        elim r [
          | err e ↦ some e
          | ok response ↦ elim response.body [ err e ↦ some e | ok raw ↦ none ]
        ],
      )

  -- Client.GetEvents
  unfoldable pub get_events : Client → ℤ → State → State × Result (List Event)
  unfolding http_get response_to_b_array
  get_events c last_seen_id st =
      let (st', r) = http_get c (codes "events?since=" ++ itoa last_seen_id) st in
      (st', decoded unmarshal_events r)
