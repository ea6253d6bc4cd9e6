-- ===== src/Server/Start/First.antt =====
-- The first interaction, from the start of the server on.
use esp32_fl.Base.{
  String, ◌≡◌, refl, ap, ap₂, ◌∙◌, Option, some, List, [], ◌∷◌, map, foldl, All, All-mono, arith,
}
use esp32_fl.Float.{FloatArith}
use esp32_fl.Network.Params.{params, shape}
use esp32_fl.Network.Metrics.{Evaluation}
use esp32_fl.Network.Initialize.{Memory}
use esp32_fl.Server.{NodeControl, FederatedLearning, ClientModel}
use esp32_fl.Server.Registry.Valid.{IsValid}
use esp32_fl.Server.Registry.Requests.{arrive, arrive-register_all, arrive-Arrived}
use esp32_fl.Server.Registry.Arrivals.{take, addresses, first_arrivals, register_all-addresses}
use esp32_fl.Server.Averaging.{divide}
use esp32_fl.Server.Aggregation.Pending.{pending, IsOrder}
use esp32_fl.Server.Aggregation.Round.{Sent, Fits, weigh, tally, Round, deliver-Round}
use esp32_fl.Server.Start.{Unset, new_instance, set_federated_learning_global_model}
use esp32_fl.Server.Start.Ready.{repeat, IsStart, set_federated_learning_global_model-Started}

module _ (fl : FloatArith) (env : Evaluation (FloatArith.F fl))
    (decode : String → Option (ClientModel (FloatArith.F fl)))
    (first second : Memory (FloatArith.F fl)) where
  open fl use {F, of_int}

  arrive-pending :
      (unset : Unset F) (ips : List String) (s : FederatedLearning F)
      → IsStart fl unset s
      → IsValid s.nodecontrol
      → pending 0 (arrive ips s).nodecontrol.nodes ≡ take 3 (first_arrivals [] ips)
  arrive-pending unset ips s start v =
      let a = arrive-Arrived ips s in
      a.keeps.fresh (rw start.nodes refl)
      ∙ ap (λ c. addresses (NodeControl.nodes c)) (arrive-register_all ips s)
      ∙ register_all-addresses ips s.nodecontrol v
      ∙ rw (start.nodes, start.places) refl

  module _ (x : F) where
    first_interaction-Round :
        (unset : Unset F) (ips : List String) (m : Sent F) (ms : List (Sent F))
        (rows : List (List F)) (s : FederatedLearning F)
        → env.rows ≡ some rows
        → IsStart fl unset s
        → IsValid s.nodecontrol
        → All (Fits fl env decode s.nodecontrol.neuralnetwork) (m ∷ ms)
        → IsOrder (map Sent.ip (m ∷ ms)) (take 3 (first_arrivals [] ips))
        → Round fl env decode (m ∷ ms) (arrive ips s)
    first_interaction-Round unset ips m ms rows s opened start v fits order =
        let a = arrive-Arrived ips s in
        let current : (arrive ips s).nodecontrol.currentinteraction ≡ 0 =
          a.keeps.current ∙ start.current in
        let sums = a.keeps.sums in
        deliver-Round fl env decode x ms m (arrive ips s) rows opened (rw current (omega arith))
          (IsValid.distinct (a.valid v)) (rw sums start.aggregable)
          (All-mono (Fits fl env decode s.nodecontrol.neuralnetwork)
            (Fits fl env decode (arrive ips s).nodecontrol.neuralnetwork)
            (λ n f. (f.0, f.1, ap shape sums ∙ f.2)) (m ∷ ms) fits)
          (rw (current, arrive-pending unset ips s start v) order)

    -- Where the server ends up behind its first interaction.
    pub record FirstRound (s : FederatedLearning F) (sent : List (Sent F)) : Type 0 where
      pub round : Round fl env decode sent s
      pub average :
          params round.result.neuralnetwork
          ≡ map
              (divide fl (foldl (tally fl env decode) 0 sent))
              (foldl (weigh fl env decode) (repeat 43 (of_int 0)) sent)

    -- From the start of the server on, if the count of nodes happens to be 0 there and the data
    -- set can be opened: whoever asks to be registered, if the first three different addresses (or
    -- the fewer that there are) then send a network of the shape of the sums each, in any order,
    -- the interaction ends without a fault; and every parameter of the global network is the sum
    -- of parameters times counters, begun at 0, divided by the sum of the counters.
    pub first_interaction :
        (unset : Unset F) (ips : List String) (m : Sent F) (ms : List (Sent F))
        (rows : List (List F)) (s : FederatedLearning F)
        → set_federated_learning_global_model fl first second (new_instance unset) ≡ some s
        → unset.clientnodesregistered ≡ 0
        → env.rows ≡ some rows
        → All (Fits fl env decode s.nodecontrol.neuralnetwork) (m ∷ ms)
        → IsOrder (map Sent.ip (m ∷ ms)) (take 3 (first_arrivals [] ips))
        → FirstRound (arrive ips s) (m ∷ ms)
    first_interaction unset ips m ms rows s set none_yet opened fits order =
        let begun = set_federated_learning_global_model-Started fl first second unset in
        let same : begun.result ≡ s = cc (set, begun.runs) in
        let start : IsStart fl unset s = rw (← same) begun.starts in
        let a = arrive-Arrived ips s in
        let round =
          first_interaction-Round unset ips m ms rows s opened start (start.valid none_yet) fits
            order in
        record {
          round = round;
          average =
              round.average
              ∙ ap₂
                  (λ t p.
                    map (divide fl (foldl (tally fl env decode) t (m ∷ ms)))
                      (foldl (weigh fl env decode) p (m ∷ ms)))
                  (a.counter ∙ start.counter) (ap params a.keeps.sums ∙ start.zeros);
        }
