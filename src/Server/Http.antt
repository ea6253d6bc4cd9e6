-- ===== src/Server/Http.antt =====
-- `handle_request` of the server's httpserver.c, and the handlers of httphandlers.c that it calls,
-- as what they write to the socket. `strstr` and cJSON's printer are parameters.
pub mod Requests
use esp32_fl.Base.{ℕ, String, Bool, Option, none, some, List, [], ◌∷◌, if◌then◌else◌, ◌>>=◌}
use esp32_fl.Float.{FloatArith}
use esp32_fl.Server.{FederatedLearning}
use esp32_fl.Server.Registry.{Registration, handle_get_noderegister, handle_get_checkmodelstatus}
use esp32_fl.Json.{Cjson}
use esp32_fl.Json.Objects.{object_of}
use esp32_fl.Json.Writer.{int_to_json, federated_learning_to_json}

abbrev pub json_header : String
json_header = "HTTP/1.1 200 OK\nContent-Type: application/json\n\n"

abbrev pub handle_root_request : List String
handle_root_request = "HTTP/1.1 404 Not Found\nContent-Type: text/plain\n\nFile Not Found" ∷ []

abbrev pub handle_not_found_request : List String
handle_not_found_request = "HTTP/1.1 404 Not Found\nContent-Type: text/plain\n\n404 Not Found" ∷ []

-- What is in the request is parsed and printed only.
abbrev pub handle_testpost_request : List String
handle_testpost_request =
    "HTTP/1.1 200 OK\nContent-Type: text/plain\n\nPOST request to /api/testpost" ∷ []

abbrev pub handle_post_globalmodel : List String
handle_post_globalmodel =
    "HTTP/1.1 200 OK\nContent-Type: text/plain\n\nPOST request to /api/postglobalmodel" ∷ []

abbrev pub registration_text : Registration → String
registration_text Registration.limit_reached = "{\"status\":\"limit reached\"}"
registration_text Registration.registred = "{\"status\":\"registred\"}"
registration_text Registration.added = "{\"status\":\"added\"}"
registration_text Registration.overrun = "{\"status\":\"added\"}"

abbrev pub register_response : Registration → List String
register_response r = json_header ∷ registration_text r ∷ []

-- A write past the array is a fault.
abbrev pub register_result :
    {F : Type 0} → FederatedLearning F × Registration → Option (FederatedLearning F × List String)
register_result (s, Registration.overrun) = none
register_result (s, Registration.limit_reached) =
    some (s, register_response Registration.limit_reached)
register_result (s, Registration.registred) = some (s, register_response Registration.registred)
register_result (s, Registration.added) = some (s, register_response Registration.added)

module _ (fl : FloatArith) (json : Cjson (FloatArith.D fl)) (print : Cjson.Json json → String)
    (strstr : String → String → Bool) where
  open fl use {F}
  open json use {Json, create_string}

  -- `{"status":n}`: the number that is set in place of the 0 that the object is made with.
  abbrev pub status_json : ℕ → Json
  status_json n = object_of json (("status", int_to_json fl json n) ∷ [])

  abbrev pub handle_testget_request : List String
  handle_testget_request =
      json_header
      ∷ print (
          object_of json
            (("message", create_string "This is a JSON response for /api/testget.") ∷ []))
      ∷ []

  abbrev pub handle_get_globalmodel : FederatedLearning F → List String
  handle_get_globalmodel s = json_header ∷ print (federated_learning_to_json fl json s) ∷ []

  abbrev pub status_response : ℕ → List String
  status_response n = json_header ∷ print (status_json n) ∷ []

  -- The state behind the request, and what was written. `none` is the null dereference of the
  -- status request, or the write past `ip_id` of the registration.
  pub handle_request :
      (buffer client_ip : String) → FederatedLearning F → Option (FederatedLearning F × List String)
  handle_request buffer client_ip s =
      if strstr buffer "GET /api/checkglobalmodel HTTP/1.1"
      then (do n ← handle_get_checkmodelstatus client_ip s; some (s, status_response n))
      else if strstr buffer "GET /api/noderegister HTTP/1.1"
      then register_result (handle_get_noderegister client_ip s)
      else if strstr buffer "GET /api/getglobalmodel HTTP/1.1"
      then some (s, handle_get_globalmodel s)
      else if strstr buffer "POST /api/postglobalmodel HTTP/1.1"
      then some (s, handle_post_globalmodel)
      else if strstr buffer "POST /api/testpost"
      then some (s, handle_testpost_request)
      else if strstr buffer "GET /api/testget HTTP/1.1"
      then some (s, handle_testget_request)
      else if strstr buffer "GET / HTTP/1.1"
      then some (s, handle_root_request)
      else some (s, handle_not_found_request)
