-- ===== src/Device/Interaction/Awaited.antt =====
-- A device and the server together: the two requests of a round, and what comes of them.
use esp32_fl.Base.{
  ℕ, String, Bool, true, false, ◌<◌, ◌≡◌, sym, ap, ◌∙◌, Option, some, List, [], ◌∷◌, int_mod, arith,
}
use esp32_fl.Float.{FloatArith}
use esp32_fl.Network.Metrics.{sample_size}
use esp32_fl.Server.{FederatedLearning}
use esp32_fl.Server.Registry.Status.{Offered, handle_get_checkmodelstatus-one}
use esp32_fl.Server.Http.{json_header, status_json, handle_request}
use esp32_fl.Server.Http.Requests.{status-written, model-written}
use esp32_fl.Json.{Cjson, IsLawful}
use esp32_fl.Json.Objects.{get-object_of}
use esp32_fl.Json.Writer.{int_to_json, federated_learning_to_json}
use esp32_fl.Json.Reader.{NewMemory}
use esp32_fl.Json.Received.{IsWritable}
use esp32_fl.Device.Training.Runs.{IsTrainable}
use esp32_fl.Device.HttpClient.{Event}
use esp32_fl.Device.HttpClient.Requests.{answer}
use esp32_fl.Device.HttpClient.Replies.{SaysStatus}
use esp32_fl.Device.Interaction.{DeviceState, Surroundings}
use esp32_fl.Device.Interaction.Sends.{Sends, deep_learning_round-Sends}

-- `print` is the printer of the server's cJSON, `print_model` that of the device's.
module _ (fl : FloatArith) (json : Cjson (FloatArith.D fl)) (lawful : IsLawful fl json)
    (parse : String → Option (Cjson.Json json)) (print : Cjson.Json json → String)
    (print_model : Cjson.Json json → Option String) (strstr : String → String → Bool)
    (memory : NewMemory (FloatArith.F fl)) (x : FloatArith.F fl) where
  open fl use {F}
  open json use {Json}

  -- What the HTTP library reports to the device is the answer of the server to this request: its
  -- last text is the body that the server writes behind the header.
  pub record Delivered (buffer client_ip : String) (s : FederatedLearning F) (es : List Event)
      : Type 0 where
    pub body : String
    pub written :
        handle_request fl json print strstr buffer client_ip s ≡ some (s, json_header ∷ body ∷ [])
    pub arrived : answer fl json parse memory es ≡ some (parse body)

  status_json-SaysStatus : SaysStatus fl json parse memory 1 (status_json fl json print strstr 1)
  unfolding int_to_json
  status_json-SaysStatus = (
    int_to_json fl json 1,
    get-object_of fl json lawful (("status", int_to_json fl json 1) ∷ []) "status",
    lawful.is_number-create _,
    lawful.valueint-create 1 (omega arith),
  )

  body_of : Option (FederatedLearning F × List String) → String
  body_of (some (s, header ∷ body ∷ texts)) = body
  body_of _ = ""

  -- The body is the printed tree that the handler wrote, and the device parses it.
  replied :
      (buffer client_ip : String) (s : FederatedLearning F) (es : List Event) (j : Json)
      → handle_request fl json print strstr buffer client_ip s
        ≡ some (s, json_header ∷ print j ∷ [])
      → Delivered buffer client_ip s es
      → parse (print j) ≡ some j
      → answer fl json parse memory es ≡ some (some j)
  unfolding body_of
  replied buffer client_ip s es j runs d parsed =
      let same : d.body ≡ print j = ap body_of (sym d.written ∙ runs) in
      d.arrived ∙ ap (λ text. some (parse text)) same ∙ ap some parsed

  -- If the server offers a model to a registered client, and its answers to the client's two
  -- requests, for the status and for the model, are what the device receives, then the round of
  -- the device runs through: what it reads is the server's network up to the values of the neurons,
  -- `NeuralNetworkTraining` trains what it read, and a text of the trained network, of which the
  -- evaluation has changed nothing but values, goes out with counter 1 if one is printed and the
  -- websocket is connected. The network keeps the counts, kinds and chains of the server's.
  -- Printing and parsing are to give the two trees of the server back; the other conditions are
  -- that the status and the counter are `int`s, that the server's network can be written, has
  -- equally wide hidden layers and fits the sample array, and that the data set can be opened for
  -- the evaluation.
  pub deep_learning_round-Offered :
      (i : Surroundings F) (st : DeviceState F Json) (s : FederatedLearning F)
      (client_ip status_request model_request : String) (size : ℕ) (rows : List (List F))
      → Offered client_ip s
      → strstr status_request "GET /api/checkglobalmodel HTTP/1.1" ≡ true
      → strstr model_request "GET /api/checkglobalmodel HTTP/1.1" ≡ false
      → strstr model_request "GET /api/noderegister HTTP/1.1" ≡ false
      → strstr model_request "GET /api/getglobalmodel HTTP/1.1" ≡ true
      → Delivered status_request client_ip s i.status_events
      → Delivered model_request client_ip s i.model_events
      → parse (print (status_json fl json print strstr 1))
        ≡ some (status_json fl json print strstr 1)
      → parse (print (federated_learning_to_json fl json s))
        ≡ some (federated_learning_to_json fl json s)
      → s.globalmodelstatus < int_mod
      → s.trainingscounter < int_mod
      → IsWritable s.neuralnetwork
      → sample_size s.neuralnetwork ≡ some size
      → IsTrainable size s.neuralnetwork
      → i.evaluation.rows ≡ some rows
      → Sends fl json lawful parse print_model memory x i st s
  deep_learning_round-Offered i st s client_ip status_request model_request size rows offered asks a
        b gets status model p q h k w sized r opened =
      let told =
        status-written fl json print strstr status_request client_ip s 1 asks
          ((handle_get_checkmodelstatus-one client_ip s).1 offered) in
      let written = model-written fl json print strstr model_request client_ip s a b gets in
      deep_learning_round-Sends fl json lawful parse print_model memory x i st s (record {
        reply = status_json fl json print strstr 1;
        size = size;
        rows = rows;
        says =
            replied status_request client_ip s i.status_events (status_json fl json print strstr 1)
              told status p;
        ready = status_json-SaysStatus;
        sent =
            replied model_request client_ip s i.model_events (federated_learning_to_json fl json s)
              written model q;
        status = h;
        counter = k;
        writable = w;
        sized = sized;
        trainable = r;
        opened = opened;
      })
