-- ===== src/Examples/Syncthing.antt =====
-- A syncthing that answers each request with status 200.
use correlation.Base.{ℕ, suc, Text, codes, [], none, ok, Bool, has_prefix}
use correlation.Syncthing.{Http, Client, Response}

abbrev answer : Response
answer = record { status_code = 200; status = codes "200 OK"; body = ok [] }

abbrev pub willing : Http
willing = record {
  State = ℕ;
  Config = ℕ;
  check_url = λ u. none;
  send = λ r n. (suc n, ok answer);
  errorf = λ s. s;
  unmarshal_object = λ s. ok [];
  unmarshal_config = λ s. ok 0;
  marshal_config = λ c. ok [];
  unmarshal_events = λ s. ok [];
}

abbrev pub client : Client
client = record { endpoint = codes "http://h"; api_key = codes "k" }

-- hidden files are ignored
abbrev is_hidden : Text → Bool
is_hidden path = has_prefix path (codes ".")
