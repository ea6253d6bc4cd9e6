-- ===== src/Device/HttpClient/Replies.antt =====
-- What the device makes of the replies of the server.
use esp32_fl.Base.{ℕ, String, true, ◌≡◌, Option, some, List}
use esp32_fl.Float.{FloatArith}
use esp32_fl.Server.{ClientModel}
use esp32_fl.Json.{Cjson}
use esp32_fl.Json.Reader.{NewMemory}
use esp32_fl.Device.Functions.{json_to_federated_learning}
use esp32_fl.Device.HttpClient.{
  Req, Event, status_value, getglobalmodel, getglobalmodelstatus, registernode,
}
use esp32_fl.Device.HttpClient.Requests.{answer, perform_get_request_lem}

module _ (fl : FloatArith) (json : Cjson (FloatArith.D fl))
    (parse : String → Option (Cjson.Json json)) (memory : NewMemory (FloatArith.F fl)) where
  open fl use {F}
  open json use {Json, get_object_item, is_number, valueint}

  -- A reply with this status.
  abbrev pub SaysStatus : ℕ → Json → Type 0
  SaysStatus k reply =
      (item : Json) × (get_object_item reply "status" ≡ some item)
      × (is_number item ≡ true)
      × (valueint item ≡ k)

  pub status-said :
      (es : List Event) (k : ℕ) (reply : Json) (r : Req Json)
      → answer fl json parse memory es ≡ some (some reply)
      → SaysStatus k reply
      → getglobalmodelstatus fl json parse memory es r ≡ some (k, Req.deleted_req)
  unfolding getglobalmodelstatus status_value
  status-said es k reply r e (item, found, number, said) =
      rw (perform_get_request_lem fl json parse memory es r, e, found, number, said)

  pub registernode-answered :
      (es : List Event) (reply : Json) (r : Req Json)
      → answer fl json parse memory es ≡ some (some reply)
      → registernode fl json parse memory es r ≡ some Req.deleted_req
  unfolding registernode
  registernode-answered es reply r e = rw (perform_get_request_lem fl json parse memory es r, e)

  pub model-read :
      (es : List Event) (reply : Json) (r : Req Json) (m : Option (ClientModel F))
      → answer fl json parse memory es ≡ some (some reply)
      → json_to_federated_learning fl json memory (some reply) ≡ m
      → getglobalmodel fl json parse memory es r ≡ some (m, Req.deleted_req)
  unfolding getglobalmodel
  model-read es reply r m e read = rw (perform_get_request_lem fl json parse memory es r, e, read)
