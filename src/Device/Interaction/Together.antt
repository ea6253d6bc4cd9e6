-- ===== src/Device/Interaction/Together.antt =====
-- A whole interaction: the awaited devices train, and the server averages what they send.
use mathlib.Core.Path.{subst}
use esp32_fl.Base.{
  String, Bool, true, false, none, ◌<◌, ◌≡◌, sym, ap, ◌∙◌, Option, some, List, [], ◌∷◌, map, All,
  int_mod,
}
use esp32_fl.Float.{FloatArith}
use esp32_fl.Network.{NeuralNetwork}
use esp32_fl.Network.Params.{shape}
use esp32_fl.Network.Metrics.{Evaluation}
use esp32_fl.Server.{FederatedLearning}
use esp32_fl.Server.Registry.Valid.{Distinct}
use esp32_fl.Server.Aggregation.Pending.{pending, IsOrder}
use esp32_fl.Server.Aggregation.Finish.{IsAggregable}
use esp32_fl.Json.{Cjson, IsLawful}
use esp32_fl.Json.Writer.{model_to_json}
use esp32_fl.Json.Reader.{NewMemory}
use esp32_fl.Json.Received.{IsWritable}
use esp32_fl.Json.Exchange.{Posted, Arrives, Averaged, deliver-Averaged}
use esp32_fl.Device.Functions.{federated_learning_to_json}
use esp32_fl.Device.Training.Runs.{SameShape}
use esp32_fl.Device.Interaction.{
  DeviceState, Surroundings, Outcome, trained_model, stopped, outcome_of, deep_learning_round,
}
use esp32_fl.Device.Interaction.Sends.{
  Asked, IsTrained, deep_learning_round-Sends, SameShape-Arrives,
}

-- `parse` is the parser of the devices' cJSON, `parse_message` that of the server's.
module _ (fl : FloatArith) (json : Cjson (FloatArith.D fl)) (lawful : IsLawful fl json)
    (parse parse_message : String → Option (Cjson.Json json))
    (print : Cjson.Json json → Option String) (memory : NewMemory (FloatArith.F fl))
    (x : FloatArith.F fl) where
  open fl use {F}
  open json use {Json}

  -- A device that was asked with the network of this state, how its round ended, and the text that
  -- it sent, from which the server's parser gives the printed tree back. The rest of the state may
  -- have changed when the device asked.
  pub record Contribution (global : NeuralNetwork F) : Type 0 where
    pub ip : String
    pub message : String
    pub surroundings : Surroundings F
    pub device : DeviceState F Json
    pub seen : FederatedLearning F
    pub same : seen.neuralnetwork ≡ global
    pub asked : Asked fl json lawful parse print memory x surroundings device seen
    pub small : device.instance_model.globalmodelstatus < int_mod
    pub after : DeviceState F Json
    pub network : NeuralNetwork F
    pub holds : after.instance_model.neuralnetwork ≡ some network
    pub round :
        deep_learning_round fl json parse print memory surroundings device
        ≡ some (after, Outcome.trained_model (some message))
    pub faithful :
        (item : Json)
        → federated_learning_to_json fl json after.instance_model ≡ some item
        → print item ≡ some message
        → parse_message message ≡ some item

  abbrev pub posted_of : {global : NeuralNetwork F} → Contribution global → Posted F
  posted_of c = record {
    ip = c.ip;
    message = c.message;
    status = c.device.instance_model.globalmodelstatus;
    counter = 1;
    network = c.network;
  }

  abbrev pub Contributed : {global : NeuralNetwork F} → Contribution global → Type 0
  Contributed c = IsTrained fl json lawful parse print memory x c.surroundings c.seen c.network

  state_of : DeviceState F Json → Option (DeviceState F Json × Outcome) → DeviceState F Json
  state_of st none = st
  state_of st (some (st', o)) = st'

  outcome_in : Option (DeviceState F Json × Outcome) → Outcome
  outcome_in none = stopped
  outcome_in (some (st', o)) = o

  text_sent :
      (connected : Bool) (printed : Option String) (text : String)
      → outcome_of connected printed ≡ trained_model (some text)
      → printed ≡ some text
  text_sent connected none text e = absurd cc
  text_sent true (some t) text e = cc
  text_sent false (some t) text e = absurd cc

  -- What the round shows of the text and the network.
  record Ran {global : NeuralNetwork F} (c : Contribution global) : Type 0 where
    trains : Contributed c
    shaped : SameShape fl x c.seen.neuralnetwork c.network
    parsed :
        parse_message c.message
        ≡ some (model_to_json fl json c.device.instance_model.globalmodelstatus 1 c.network)

  Contribution-Ran : {global : NeuralNetwork F} (c : Contribution global) → Ran c
  unfolding state_of outcome_in federated_learning_to_json
  Contribution-Ran c =
      let sends =
        deep_learning_round-Sends fl json lawful parse print memory x c.surroundings c.device c.seen
          c.asked in
      let ends = sym sends.runs ∙ c.round in
      let held = ap (state_of c.device) ends in
      let model = ap (λ st. st.instance_model.neuralnetwork) held ∙ c.holds in
      let network : sends.network ≡ c.network = cc in
      let printed = text_sent c.surroundings.connected _ c.message (ap outcome_in ends) in
      let written = ap (λ st. federated_learning_to_json fl json st.instance_model) (sym held) in
      record {
        trains =
            subst (λ nn. IsTrained fl json lawful parse print memory x c.surroundings c.seen nn)
              network sends.trains;
        shaped = subst (λ nn. SameShape fl x c.seen.neuralnetwork nn) network sends.same;
        parsed =
            subst
              (λ nn.
                parse_message c.message
                ≡ some (model_to_json fl json c.device.instance_model.globalmodelstatus 1 nn))
              network (c.faithful _ written printed);
      }

  Contribution-Arrives :
      (env : Evaluation F) (s : FederatedLearning F)
      → IsWritable s.neuralnetwork
      → shape s.nodecontrol.neuralnetwork ≡ shape s.neuralnetwork
      → (cs : List (Contribution s.neuralnetwork))
      → All
          (Arrives fl json lawful memory env parse_message s.nodecontrol.neuralnetwork)
          (map posted_of cs)
  Contribution-Arrives env s w e [] = tt
  Contribution-Arrives env s w e (c ∷ cs) = (
    SameShape-Arrives fl json lawful parse_message print memory x env
        c.device.instance_model.globalmodelstatus c.seen s.nodecontrol.neuralnetwork c.network c.ip
        c.message (Contribution-Ran c).shaped c.small (subst (λ nn. IsWritable nn) (sym c.same) w)
        (e ∙ ap (λ nn. shape nn) (sym c.same)) (Contribution-Ran c).parsed,
    Contribution-Arrives env s w e cs,
  )

  trained_each : {global : NeuralNetwork F} (cs : List (Contribution global)) → All Contributed cs
  trained_each [] = tt
  trained_each (c ∷ cs) = ((Contribution-Ran c).trains, trained_each cs)

  -- If each awaited device is asked with the server's network and sends a text at the end of its
  -- round, and the texts arrive, once and in any order, the server's parser giving the printed
  -- trees back, then the network that each device holds is what `NeuralNetworkTraining` makes on
  -- its data set of the server's network as the device reads it, up to values of the neurons. The
  -- interaction ends without a fault, and every parameter of the new global network is the sum of
  -- the parameters of those networks, each times 1, from the sums at the start on, divided by the
  -- number of the devices, added to the counter. The sums are to be aggregable and to have the
  -- shape of the network, which can be written; no address is registered twice, the number of the
  -- interaction is an `int`, and the data set can be opened.
  pub interaction-Averaged :
      (env : Evaluation F) (s : FederatedLearning F) (c : Contribution s.neuralnetwork)
      (cs : List (Contribution s.neuralnetwork)) (rows : List (List F))
      → env.rows ≡ some rows
      → s.nodecontrol.currentinteraction < int_mod
      → Distinct s.nodecontrol.nodes
      → IsAggregable s.nodecontrol.neuralnetwork
      → IsWritable s.neuralnetwork
      → shape s.nodecontrol.neuralnetwork ≡ shape s.neuralnetwork
      → IsOrder
          (map Posted.ip (map posted_of (c ∷ cs)))
          (pending s.nodecontrol.currentinteraction s.nodecontrol.nodes)
      → All Contributed (c ∷ cs)
        × Averaged fl json lawful memory env parse_message (map posted_of (c ∷ cs)) s
  interaction-Averaged env s c cs rows opened small d h w e order = (
    trained_each (c ∷ cs),
    deliver-Averaged fl json lawful memory env parse_message x (map posted_of cs) (posted_of c) s
        rows opened small d h (Contribution-Arrives env s w e (c ∷ cs)) order,
  )
