-- ===== src/Device/Interaction/Sends.antt =====
-- A round of a device that is awaited.
use esp32_fl.Base.{ℕ, String, true, ◌<◌, ◌≡◌, refl, sym, ◌∙◌, Option, some, List, int_mod, arith}
use esp32_fl.Float.{FloatArith}
use esp32_fl.Network.{NeuralNetwork}
use esp32_fl.Network.Params.{blank_neuron, shape}
use esp32_fl.Network.Values.{frozen}
use esp32_fl.Network.Forward.Reference.{IsNetwork}
use esp32_fl.Network.Metrics.{Evaluation, sample_size}
use esp32_fl.Network.Metrics.Size.{sample_size_congr}
use esp32_fl.Network.Metrics.Runs.{performance_metrics-Measured}
use esp32_fl.Server.{FederatedLearning, ClientModel}
use esp32_fl.Json.{Cjson, IsLawful}
use esp32_fl.Json.Writer.{model_to_json}
use esp32_fl.Json.Writer
use esp32_fl.Json.Reader.{NewMemory, json_to_federated_learning}
use esp32_fl.Json.Received.{IsWritable}
use esp32_fl.Json.Exchange.{fetch-Fetched, Arrives}
use esp32_fl.Device.Functions.{federated_learning_to_json}
use esp32_fl.Device.Training.{neural_network_training}
use esp32_fl.Device.Training.Runs.{IsTrainable, IsTrainable-same, frozen-same, SameShape}
use esp32_fl.Device.Training.Epochs.{neural_network_training-Trained}
use esp32_fl.Device.HttpClient.{Req}
use esp32_fl.Device.HttpClient.Requests.{answer}
use esp32_fl.Device.HttpClient.Replies.{SaysStatus, status-said, model-read}
use esp32_fl.Device.Interaction.{
  DeviceState, Surroundings, replace_neural_network, data_count, outcome_of, train_and_send,
  use_model, deep_learning_round,
}
use esp32_fl.Device.Interaction.Shapes.{shape_congr, IsWritable-congr}

module _ (fl : FloatArith) (json : Cjson (FloatArith.D fl)) (lawful : IsLawful fl json)
    (parse : String → Option (Cjson.Json json)) (print : Cjson.Json json → Option String)
    (memory : NewMemory (FloatArith.F fl)) (x : FloatArith.F fl) where
  open fl use {F}
  open json use {Json, get_object_item, is_number, valueint}

  -- What a device makes of a model: it trains the network, and the evaluation changes nothing but
  -- values of it.
  pub record TrainedModel (i : Surroundings F) (s : ClientModel F) (nn : NeuralNetwork F)
      : Type 0 where
    pub network : NeuralNetwork F
    pub trained : NeuralNetwork F
    pub errors : List F
    pub training : neural_network_training fl i.dataset nn ≡ some (trained, errors)
    pub kept : frozen x network ≡ frozen x trained
    pub runs :
        train_and_send fl json parse print memory i s
        ≡ some (
          record s { trainingscounter = 1; neuralnetwork = some network },
          outcome_of i.connected (print (model_to_json fl json s.globalmodelstatus 1 network)),
        )
    pub fits : IsNetwork network
    pub same : SameShape fl x nn network

  train_and_send_lem :
      (i : Surroundings F) (s : ClientModel F) (nn : NeuralNetwork F) (size : ℕ)
      (rows : List (List F))
      → s.trainingscounter ≡ 0
      → s.neuralnetwork ≡ some nn
      → i.evaluation.rows ≡ some rows
      → sample_size nn ≡ some size
      → IsTrainable size nn
      → TrainedModel i s nn
  unfolding train_and_send federated_learning_to_json
  train_and_send_lem i s nn size rows fresh found opened sized r =
      let g = blank_neuron x in
      let done = neural_network_training-Trained fl x i.dataset nn size sized r in
      let after = IsTrainable-same fl x size nn done.nn' done.same r in
      let measured =
        performance_metrics-Measured fl x i.evaluation done.nn' data_count size rows opened
          done.network (sym (sample_size_congr g nn done.nn' done.same) ∙ sized) after.room
          after.wide in
      record {
        network = measured.nn';
        trained = done.nn';
        errors = done.errors;
        training = done.runs;
        kept = measured.same;
        runs = rw (found, done.runs, measured.runs, fresh);
        fits = measured.network;
        same = done.same ∙ sym (frozen-same fl x measured.nn' done.nn' measured.same);
      }

  -- A device that is awaited: the server's replies are that there is a model, and its model,
  -- written as JSON. The server's network can be written, has equally wide hidden layers and fits
  -- the sample array, and the data set can be opened for the evaluation.
  pub record Asked (i : Surroundings F) (st : DeviceState F Json) (s : FederatedLearning F)
      : Type 0 where
    pub reply : Json
    pub size : ℕ
    pub rows : List (List F)
    pub says : answer fl json parse memory i.status_events ≡ some (some reply)
    pub ready : SaysStatus fl json parse memory 1 reply
    pub sent :
        answer fl json parse memory i.model_events
        ≡ some (some (Writer.federated_learning_to_json fl json s))
    pub status : s.globalmodelstatus < int_mod
    pub counter : s.trainingscounter < int_mod
    pub writable : IsWritable s.neuralnetwork
    pub sized : sample_size s.neuralnetwork ≡ some size
    pub trainable : IsTrainable size s.neuralnetwork
    pub opened : i.evaluation.rows ≡ some rows

  -- The network comes of training the server's: it is what `NeuralNetworkTraining` makes, on the
  -- device's data set, of the network that the device reads, up to the values of the neurons.
  pub record IsTrained (i : Surroundings F) (s : FederatedLearning F) (network : NeuralNetwork F)
      : Type 0 where
    pub fetched : NeuralNetwork F
    pub read :
        json_to_federated_learning fl json true memory
          (some (Writer.federated_learning_to_json fl json s))
        ≡ some (record {
          globalmodelstatus = s.globalmodelstatus;
          trainingscounter = s.trainingscounter;
          neuralnetwork = some fetched;
        })
    pub global : frozen x fetched ≡ frozen x s.neuralnetwork
    pub trained : NeuralNetwork F
    pub errors : List F
    pub training : neural_network_training fl i.dataset fetched ≡ some (trained, errors)
    pub kept : frozen x network ≡ frozen x trained

  -- What one round does for a device that is awaited: it sends the network that it trained.
  pub record Sends (i : Surroundings F) (st : DeviceState F Json) (s : FederatedLearning F)
      : Type 0 where
    pub network : NeuralNetwork F
    pub trains : IsTrained i s network
    pub runs :
        deep_learning_round fl json parse print memory i st
        ≡ some (
          record {
            instance_model = record {
              globalmodelstatus = st.instance_model.globalmodelstatus;
              trainingscounter = 1;
              neuralnetwork = some network;
            };
            req = Req.deleted_req;
          },
          outcome_of i.connected
              (print (model_to_json fl json st.instance_model.globalmodelstatus 1 network)),
        )
    pub fits : IsNetwork network
    pub same : SameShape fl x s.neuralnetwork network

  -- One round of a device that is awaited runs through: it reads the server's network, trains and
  -- evaluates it, and prints the trained network with counter 1; the text is sent if there is one
  -- and the websocket is connected. The network is well formed and has the counts, kinds and chains
  -- of the server's.
  pub deep_learning_round-Sends :
      (i : Surroundings F) (st : DeviceState F Json) (s : FederatedLearning F)
      → Asked i st s
      → Sends i st s
  unfolding deep_learning_round use_model
  deep_learning_round-Sends i st s asked =
      let got = fetch-Fetched fl json lawful memory x s asked.status asked.counter asked.writable in
      let shape = frozen-same fl x s.neuralnetwork got.network (sym got.same) in
      let model : ClientModel F = record {
        globalmodelstatus = s.globalmodelstatus;
        trainingscounter = s.trainingscounter;
        neuralnetwork = some got.network;
      } in
      let done =
        train_and_send_lem i (replace_neural_network model st.instance_model) got.network asked.size
          asked.rows refl refl asked.opened
          (sym (sample_size_congr (blank_neuron x) s.neuralnetwork got.network shape) ∙ asked.sized)
          (IsTrainable-same fl x asked.size s.neuralnetwork got.network shape asked.trainable) in
      record {
        network = done.network;
        trains = record {
          fetched = got.network;
          read = got.runs;
          global = got.same;
          trained = done.trained;
          errors = done.errors;
          training = done.training;
          kept = done.kept;
        };
        runs = rw (
          status-said fl json parse memory i.status_events 1 asked.reply st.req asked.says
              asked.ready,
          model-read fl json parse memory i.model_events
              (Writer.federated_learning_to_json fl json s) Req.deleted_req (some model) asked.sent
              got.runs,
          done.runs,
        );
        fits = done.fits;
        same = shape ∙ done.same;
      }

  -- A text of a network with the counts, kinds and chains of the server's, such as a round of a
  -- device sends, arrives: if it parses to what was written, with an `int` for the status, and
  -- the server's network can be written and has the shape of the sums, the server takes it for a
  -- model with the weight 1.
  pub SameShape-Arrives :
      (env : Evaluation F) (status : ℕ) (s : FederatedLearning F) (sums network : NeuralNetwork F)
      (ip text : String)
      → SameShape fl x s.neuralnetwork network
      → status < int_mod
      → IsWritable s.neuralnetwork
      → shape sums ≡ shape s.neuralnetwork
      → parse text ≡ some (model_to_json fl json status 1 network)
      → Arrives fl json lawful memory env parse sums
          (record { ip = ip; message = text; status = status; counter = 1; network = network })
  SameShape-Arrives env status s sums network ip text same h w fits parsed = (
    parsed,
    h,
    omega arith,
    IsWritable-congr x s.neuralnetwork network same w,
    fits ∙ shape_congr x s.neuralnetwork network same,
  )
