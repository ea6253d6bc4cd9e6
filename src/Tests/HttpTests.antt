-- ===== src/Tests/HttpTests.antt =====
-- The HTTP client of the device at concrete inputs.
use esp32_fl.Base.{
  ℕ, zero, suc, ◌+◌, ◌<◌, ◌≡◌, ◌↔◌, ◌⊎◌, Option, String, true, none, some, List, [], ◌∷◌, arith,
  if◌then◌else◌, ◌==◌,
}
use esp32_fl.Device.WebSocketClient.{websocket_send_local_model}
use esp32_fl.Device.WebSocketClient.Protocol.{Delivers, websocket_send_local_model-Delivers}
use esp32_fl.Device.HttpClient.{Req, Event}
use esp32_fl.Device.HttpClient.Requests.{
  Call, answer, run_call, run_calls, run_call-faults, run_calls-answered,
}
use esp32_fl.Device.HttpClient.Waiting.{NoJson}
use esp32_fl.Device.Utf8.{is_utf8}
use esp32_fl.Device.Utf8.Groups.{Groups, is_utf8-Groups}
use esp32_fl.Tests.Samples.{natural_arith}
use esp32_fl.Tests.JsonTests.{memory}
use esp32_fl.Tests.JsonTree.{Tree, tree_json}
use esp32_fl.Tests.DeviceTests.{parse, on_data}

abbrev old : Req Tree
old = Req.deleted_req

run_call-faults_example :
    (run_call natural_arith tree_json parse memory Call.get_status (Event.http_event_error ∷ []) old
      ≡ none)
    ↔ ((answer natural_arith tree_json parse memory (Event.http_event_error ∷ []) ≡ none)
        × (old ≡ Req.deleted_req))
run_call-faults_example =
    run_call-faults natural_arith tree_json parse memory Call.get_status
      (Event.http_event_error ∷ []) old

run_calls-answered_example :
    (r : Req Tree) × (run_calls natural_arith tree_json parse memory
        ((Call.test_server, on_data "hello") ∷ (Call.get_status, on_data "status") ∷ [])
        Req.deleted_req
      ≡ some r)
run_calls-answered_example =
    run_calls-answered natural_arith tree_json parse memory
      ((Call.test_server, on_data "hello") ∷ (Call.get_status, on_data "status") ∷ [])
      Req.deleted_req ((λ e. cc), ((λ e. cc), tt))

abbrev pub attempts : ℕ → List Event
attempts i = if i == 2 then on_data "status" else on_data "no JSON"

pub silent :
    (i : ℕ)
    → i < 2
    → NoJson natural_arith tree_json parse memory
        (answer natural_arith tree_json parse memory (attempts (0 + i)))
silent zero h = tt
silent (suc zero) h = tt
silent (suc (suc i)) h = absurd (omega arith)

-- The sign for the euro.
is_utf8-Groups_example : (is_utf8 (226 ∷ 130 ∷ 172 ∷ []) ≡ true) ↔ Groups (226 ∷ 130 ∷ 172 ∷ [])
is_utf8-Groups_example = is_utf8-Groups (226 ∷ 130 ∷ 172 ∷ [])

abbrev model_text : Option String
model_text = some "model"

websocket_send_local_model-Delivers_example :
    ((true ≡ true)
      × (model_text ≡ none)
      × (websocket_send_local_model (some 1) true model_text ≡ none))
    ⊎ Delivers (some 1) true model_text
websocket_send_local_model-Delivers_example =
    websocket_send_local_model-Delivers (some 1) true model_text (λ e. cc)
