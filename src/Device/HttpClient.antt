-- ===== src/Device/HttpClient.antt =====
-- httpclient.c of the device. The answer to a request is in the global variable `req`, which is a
-- null pointer, a tree, or a pointer to a tree that was deleted. `none` is an access to a deleted
-- tree. What the HTTP library reports during a request is given as a list of events.
pub mod Requests
pub mod Waiting
pub mod Replies
use esp32_fl.Base.{
  ℕ, zero, suc, String, Bool, true, false, ◌-◌, ◌^◌, Option, none, some, List, [], ◌∷◌,
  if◌then◌else◌, ◌>>=◌,
}
use esp32_fl.Float.{FloatArith}
use esp32_fl.Server.{ClientModel}
use esp32_fl.Json.{Cjson}
use esp32_fl.Json.Reader.{NewMemory}
use esp32_fl.Device.Functions.{json_to_federated_learning}

pub data Req (J : Type 0) : Type 0 where
  null_req : Req J
  live_req : J → Req J
  deleted_req : Req J

pub data Event : Type 0 where
  http_event_error : Event
  http_event_on_data : String → Event
  http_event_disconnected : Event
  other_event : Event

module _ {J : Type 0} where
  -- Reading `req`: `cJSON` takes a null pointer for no item.
  abbrev pub read_req : Req J → Option (Option J)
  read_req null_req = some none
  read_req (live_req j) = some (some j)
  read_req deleted_req = none

  -- `cJSON_Delete(req)`
  abbrev pub delete_req : Req J → Option (Req J)
  delete_req null_req = some null_req
  delete_req (live_req j) = some deleted_req
  delete_req deleted_req = none

  abbrev pub is_null : Req J → Bool
  is_null null_req = true
  is_null (live_req j) = false
  is_null deleted_req = false

  abbrev pub set_req : Option J → Req J
  set_req none = null_req
  set_req (some j) = live_req j

module _ (fl : FloatArith) (json : Cjson (FloatArith.D fl))
    (parse : String → Option (Cjson.Json json)) (memory : NewMemory (FloatArith.F fl)) where
  open fl use {F}
  open json use {Json, get_object_item, is_number, valueint}

  -- Whether the handler returns `ESP_OK`, and `req` behind it.
  pub client_event_get_handler : Event → Req Json → Bool × Req Json
  client_event_get_handler http_event_error r = (true, r)
  client_event_get_handler (http_event_on_data text) r = elim (parse text) [
    | none ↦ (false, null_req)
    | some j ↦ (true, live_req j)
  ]
  client_event_get_handler http_event_disconnected r = (true, r)
  client_event_get_handler other_event r = (true, r)

  pub perform_get_request : List Event → Req Json → Req Json
  perform_get_request [] r = r
  perform_get_request (e ∷ es) r = perform_get_request es (client_event_get_handler e r).1

  pub getglobalmodel : List Event → Req Json → Option (Option (ClientModel F) × Req Json)
  getglobalmodel events r = do
    item ← read_req (perform_get_request events r)
    r' ← delete_req (perform_get_request events r)
    some (json_to_federated_learning fl json memory item, r')

  status_value : Option Json → ℕ
  status_value none = 2 ^ 32 - 1
  status_value (some item) = if is_number item then valueint item else 2 ^ 32 - 1

  -- The status is -1 where there is none.
  pub getglobalmodelstatus : List Event → Req Json → Option (ℕ × Req Json)
  unfolding status_value
  getglobalmodelstatus events r = do
    item ← read_req (perform_get_request events r)
    r' ← delete_req (perform_get_request events r)
    some (elim item [ none ↦ 2 ^ 32 - 1 | some j ↦ status_value (get_object_item j "status") ], r')

  pub registernode : List Event → Req Json → Option (Req Json)
  registernode events r = delete_req (perform_get_request events r)

  pub isserverworking : List Event → Req Json → Option (Bool × Req Json)
  isserverworking events r = do
    r' ← delete_req (perform_get_request events r)
    some (if is_null (perform_get_request events r) then false else true, r')

  -- `while (!isserverworking())` of main.c, with the events of each attempt: how many attempts it
  -- made, and `req` behind it. Without fuel left it is still waiting.
  pub wait_for_server : ℕ → ℕ → (ℕ → List Event) → Req Json → Option (Option ℕ × Req Json)
  wait_for_server zero attempt events r = some (none, r)
  wait_for_server (suc fuel) attempt events r = elim (isserverworking (events attempt) r) [
    | none ↦ none
    | some (true, r') ↦ some (some (suc attempt), r')
    | some (false, r') ↦ wait_for_server fuel (suc attempt) events r'
  ]
