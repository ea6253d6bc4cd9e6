-- ===== src/Device/Interaction/Boot.antt =====
-- A device from its start on.
use esp32_fl.Base.{
  ℕ, String, Bool, true, false, ◌+◌, ◌<◌, ◌≡◌, ◌≢◌, refl, ◌==◌, Option, some, List, [], ◌∷◌, ◌++◌,
  map, All, arith,
}
use esp32_fl.Float.{FloatArith}
use esp32_fl.Network.{NeuralNetwork}
use esp32_fl.Server.{FederatedLearning}
use esp32_fl.Json.{Cjson, IsLawful}
use esp32_fl.Json.Writer.{model_to_json}
use esp32_fl.Json.Reader.{NewMemory}
use esp32_fl.Device.HttpClient.{Req, Event}
use esp32_fl.Device.HttpClient.Requests.{answer}
use esp32_fl.Device.HttpClient.Replies.{SaysStatus, status-said, registernode-answered}
use esp32_fl.Device.HttpClient.Waiting.{NoJson, wait_for_server-ends}
use esp32_fl.Device.Interaction.{
  DeviceState, Surroundings, Outcome, first_instance, outcome_of, goes_on, deep_learning_round,
  deep_learning_rounds, deep_learning,
}
use esp32_fl.Device.Interaction.Sends.{Asked, IsTrained, deep_learning_round-Sends}

module _ (fl : FloatArith) (json : Cjson (FloatArith.D fl)) (lawful : IsLawful fl json)
    (parse : String → Option (Cjson.Json json)) (print : Cjson.Json json → Option String)
    (memory : NewMemory (FloatArith.F fl)) (x : FloatArith.F fl) where
  open fl use {F}
  open json use {Json}

  -- The state before the first request, and that behind the registration.
  abbrev pub booted : DeviceState F Json
  booted = record { instance_model = first_instance; req = Req.null_req }

  abbrev pub registered : DeviceState F Json
  registered = record { instance_model = first_instance; req = Req.deleted_req }

  -- The server says that there is nothing to do.
  pub record Waits (i : Surroundings F) : Type 0 where
    pub reply : Json
    pub status : ℕ
    pub arrived : answer fl json parse memory i.status_events ≡ some (some reply)
    pub said : SaysStatus fl json parse memory status reply
    pub other : status ≢ 1

  round-Waits :
      (i : Surroundings F)
      → Waits i
      → deep_learning_round fl json parse print memory i registered
        ≡ some (registered, Outcome.waited)
  unfolding deep_learning_round
  round-Waits i w =
      let not_one : (w.status == 1) ≡ false = ground (arith, w.other) in
      rw (
        status-said fl json parse memory i.status_events w.status w.reply Req.deleted_req w.arrived
            w.said,
        not_one,
      )

  last_round :
      (b : Bool) (st : DeviceState F Json)
      → (elim b as (λ _. Option (DeviceState F Json × List Outcome)) [
        | true ↦ deep_learning_rounds fl json parse print memory [] st
        | false ↦ some (st, [])
      ])
        ≡ some (st, [])
  unfolding deep_learning_rounds
  last_round true st = refl
  last_round false st = refl

  rounds-waited :
      (is : List (Surroundings F)) (i : Surroundings F) (st : DeviceState F Json) (o : Outcome)
      → All Waits is
      → deep_learning_round fl json parse print memory i registered ≡ some (st, o)
      → deep_learning_rounds fl json parse print memory (is ++ (i ∷ [])) registered
        ≡ some (st, map (λ _. Outcome.waited) is ++ (o ∷ []))
  unfolding deep_learning_rounds
  rounds-waited [] i st o h e = rw (e, last_round (goes_on o) st)
  rounds-waited (w ∷ is) i st o (h, hs) e = rw (round-Waits w h, rounds-waited is i st o hs e)

  -- From its start on a device waits until the first attempt that the server answers with JSON,
  -- registers, where the answer is JSON too, and asks until it is told that there is a model: if
  -- the rounds before have another status as their reply, and in the next one the server's replies
  -- are that there is a model, and its model, then the device trains what it reads of it, the
  -- outcomes are as many rounds of waiting and the outcome of that round, and the device holds the
  -- network that the training and the evaluation give, with counter 1. Every number of attempts
  -- above those needed is enough. The server's network can be written, has equally wide hidden
  -- layers and fits the sample array, status and counter are `int`s, and the data set can be opened
  -- for the evaluation.
  pub deep_learning-trains :
      (n fuel : ℕ) (events : ℕ → List Event) (registration : List Event)
      (is : List (Surroundings F)) (i : Surroundings F) (s : FederatedLearning F) (up reply : Json)
      → n < fuel
      → ((k : ℕ)
          → k < n
          → NoJson fl json parse memory (answer fl json parse memory (events (0 + k))))
      → answer fl json parse memory (events (0 + n)) ≡ some (some up)
      → answer fl json parse memory registration ≡ some (some reply)
      → All Waits is
      → Asked fl json lawful parse print memory x i registered s
      → (network : NeuralNetwork F) × IsTrained fl json lawful parse print memory x i s network
        × (deep_learning fl json parse print memory fuel events registration (is ++ (i ∷ [])) booted
            ≡ some (
              record {
                instance_model = record {
                  globalmodelstatus = 0;
                  trainingscounter = 1;
                  neuralnetwork = some network;
                };
                req = Req.deleted_req;
              },
              map (λ _. Outcome.waited) is
                  ++ (outcome_of i.connected (print (model_to_json fl json 0 1 network)) ∷ []),
            ))
  unfolding deep_learning
  deep_learning-trains n fuel events registration is i s up reply h silent found joined waits
        asked =
      let sends =
        deep_learning_round-Sends fl json lawful parse print memory x i registered s asked in
      (
        sends.network,
        sends.trains,
        rw (
          wait_for_server-ends fl json parse memory n fuel 0 events up h silent found,
          registernode-answered fl json parse memory registration reply Req.deleted_req joined,
          rounds-waited is i _ _ waits sends.runs,
        ),
      )
