-- ===== src/Json/Exchange.antt =====
-- Models that pass between the server and the devices as texts.
use esp32_fl.Base.{
  ℕ, String, ◌<◌, ◌≡◌, refl, sym, ap, ap₂, ◌∙◌, true, false, Option, some, List, [], ◌∷◌, map,
  foldl, zip_with, All, add_int, int_mod,
}
use esp32_fl.Float.{FloatArith}
use esp32_fl.Network.{NeuralNetwork}
use esp32_fl.Network.Params.{params, shape}
use esp32_fl.Network.Values.{frozen, IsNetwork_congr}
use esp32_fl.Network.Forward.Reference.{IsNetwork}
use esp32_fl.Network.Metrics.{Evaluation}
use esp32_fl.Server.{FederatedLearning, ClientModel}
use esp32_fl.Server.Registry.Valid.{Distinct}
use esp32_fl.Server.Averaging.{add_weighted, divide}
use esp32_fl.Server.Aggregation.Pending.{pending, IsOrder}
use esp32_fl.Server.Aggregation.Finish.{IsAggregable}
use esp32_fl.Server.Aggregation.Round.{Sent, Fits, weigh, tally, Round, deliver-Round}
use esp32_fl.Json.{Cjson, IsLawful}
use esp32_fl.Json.Writer.{model_to_json, federated_learning_to_json}
use esp32_fl.Json.Reader.{NewMemory, json_to_federated_learning}
use esp32_fl.Json.Received.{IsWritable, received}
use esp32_fl.Json.RoundTrip.{read-model_to_json}
use esp32_fl.Json.Transfer.{params-received, shape-received, frozen-received}

-- A text that a device sends, with what it was written from.
pub record Posted (F : Type 0) : Type 0 where
  pub ip : String
  pub message : String
  pub status : ℕ
  pub counter : ℕ
  pub network : NeuralNetwork F

module _ (fl : FloatArith) (json : Cjson (FloatArith.D fl)) (lawful : IsLawful fl json)
    (memory : NewMemory (FloatArith.F fl)) where
  open fl use {F}
  open json use {Json}

  -- What a device makes of the global model.
  pub record Fetched (x : F) (s : FederatedLearning F) : Type 0 where
    pub network : NeuralNetwork F
    pub runs :
        json_to_federated_learning fl json true memory (some (federated_learning_to_json fl json s))
        ≡ some (record {
          globalmodelstatus = s.globalmodelstatus;
          trainingscounter = s.trainingscounter;
          neuralnetwork = some network;
        })
    pub same : frozen x network ≡ frozen x s.neuralnetwork
    pub fits : IsNetwork s.neuralnetwork → IsNetwork network

  -- A device that reads the server's model has its network, with all weights, biases, counts and
  -- activation functions, up to the values of the neurons; it is well formed where the server's
  -- is. Status and counter are `int`s, and the server's network can be written.
  pub fetch-Fetched :
      (x : F) (s : FederatedLearning F)
      → s.globalmodelstatus < int_mod
      → s.trainingscounter < int_mod
      → IsWritable s.neuralnetwork
      → Fetched x s
  unfolding federated_learning_to_json
  fetch-Fetched x s h k w =
      let same = frozen-received memory x s.neuralnetwork in
      record {
        network = received true memory s.neuralnetwork;
        runs =
            read-model_to_json fl json lawful true memory s.globalmodelstatus s.trainingscounter
              s.neuralnetwork h k w;
        same = same;
        fits = IsNetwork_congr x s.neuralnetwork (received true memory s.neuralnetwork) (sym same);
      }

  module _ (env : Evaluation F) (parse : String → Option Json) where
    -- The server's converter, behind `cJSON_Parse`.
    abbrev pub decode : String → Option (ClientModel F)
    decode text = json_to_federated_learning fl json false memory (parse text)

    abbrev pub sent_of : Posted F → Sent F
    sent_of p = record {
      ip = p.ip;
      message = p.message;
      client = record {
        globalmodelstatus = p.status;
        trainingscounter = p.counter;
        neuralnetwork = some (received false memory p.network);
      };
      network = received false memory p.network;
    }

    -- The text parses to what was written, and the network has the shape of the sums.
    abbrev pub Arrives : NeuralNetwork F → Posted F → Type 0
    Arrives sums p =
        (parse p.message ≡ some (model_to_json fl json p.status p.counter p.network))
        × (p.status < int_mod)
        × (p.counter < int_mod)
        × IsWritable p.network
        × (shape sums ≡ shape p.network)

    Arrives-Fits :
        (sums : NeuralNetwork F) (p : Posted F)
        → Arrives sums p
        → Fits fl env decode sums (sent_of p)
    Arrives-Fits sums p (parsed, h, k, w, fits) = (
      ap (json_to_federated_learning fl json false memory) parsed
          ∙ read-model_to_json fl json lawful false memory p.status p.counter p.network h k w,
      refl,
      fits ∙ sym (shape-received memory false p.network),
    )

    Arrives-Fits-All :
        (sums : NeuralNetwork F) (ps : List (Posted F))
        → All (Arrives sums) ps
        → All (Fits fl env decode sums) (map sent_of ps)
    Arrives-Fits-All sums [] h = tt
    Arrives-Fits-All sums (p ∷ ps) (h, hs) = (Arrives-Fits sums p h, Arrives-Fits-All sums ps hs)

    -- The devices' own parameters times their counters, added up; and the counters.
    abbrev pub weigh_posted : List F → Posted F → List F
    weigh_posted sums p = zip_with (add_weighted fl p.counter) sums (params p.network)

    abbrev pub tally_posted : ℕ → Posted F → ℕ
    tally_posted t p = add_int t p.counter

    weigh-sent_of :
        (sums : List F) (ps : List (Posted F))
        → foldl (weigh fl env decode) sums (map sent_of ps) ≡ foldl weigh_posted sums ps
    weigh-sent_of sums [] = refl
    weigh-sent_of sums (p ∷ ps) =
        ap
          (λ qs.
            foldl (weigh fl env decode) (zip_with (add_weighted fl p.counter) sums qs)
              (map sent_of ps))
          (params-received memory false p.network)
        ∙ weigh-sent_of (weigh_posted sums p) ps

    tally-sent_of :
        (t : ℕ) (ps : List (Posted F))
        → foldl (tally fl env decode) t (map sent_of ps) ≡ foldl tally_posted t ps
    tally-sent_of t [] = refl
    tally-sent_of t (p ∷ ps) = tally-sent_of (tally_posted t p) ps

    ips-sent_of : (ps : List (Posted F)) → map Sent.ip (map sent_of ps) ≡ map Posted.ip ps
    ips-sent_of [] = refl
    ips-sent_of (p ∷ ps) = ap (◌∷◌ p.ip) (ips-sent_of ps)

    -- The outcome for the devices' models.
    pub record Averaged (ps : List (Posted F)) (s : FederatedLearning F) : Type 0 where
      pub round : Round fl env decode (map sent_of ps) s
      pub average :
          params round.result.neuralnetwork
          ≡ map
              (divide fl (foldl tally_posted s.trainingscounter ps))
              (foldl weigh_posted (params s.nodecontrol.neuralnetwork) ps)

    -- If the texts that arrive are those that the awaited devices wrote, each once and in any
    -- order, of networks that can be written and have the shape of the sums, with `int`s for
    -- status and counter, the interaction ends without a fault, and every parameter of the global
    -- network is the sum of the devices' own parameters times their counters, from the sums at
    -- the start on, divided by the sum of the counters: nothing is lost on the way through JSON.
    -- The sums are to be aggregable, no address is registered twice, the number of the
    -- interaction is an `int`, and the data set can be opened.
    pub deliver-Averaged :
        (x : F) (ps : List (Posted F)) (p : Posted F) (s : FederatedLearning F)
        (rows : List (List F))
        → env.rows ≡ some rows
        → s.nodecontrol.currentinteraction < int_mod
        → Distinct s.nodecontrol.nodes
        → IsAggregable s.nodecontrol.neuralnetwork
        → All (Arrives s.nodecontrol.neuralnetwork) (p ∷ ps)
        → IsOrder
            (map Posted.ip (p ∷ ps))
            (pending s.nodecontrol.currentinteraction s.nodecontrol.nodes)
        → Averaged (p ∷ ps) s
    deliver-Averaged x ps p s rows opened small d h arrives order =
        let round =
          deliver-Round fl env decode x (map sent_of ps) (sent_of p) s rows opened small d h
            (Arrives-Fits-All s.nodecontrol.neuralnetwork (p ∷ ps) arrives)
            (rw (ips-sent_of ps) order) in
        record {
          round = round;
          average =
              round.average
              ∙ ap₂ (λ t q. map (divide fl t) q) (tally-sent_of s.trainingscounter (p ∷ ps))
                  (weigh-sent_of (params s.nodecontrol.neuralnetwork) (p ∷ ps));
        }
