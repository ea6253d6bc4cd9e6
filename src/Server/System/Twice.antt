-- ===== src/Server/System/Twice.antt =====
-- The loop of main.c as it is: a device asks again while its message waits to be taken up.
use esp32_fl.Base.{
  ◌+◌, String, ◌≡◌, refl, sym, ◌∙◌, ◌≢◌, ◌<◌, true, Option, some, List, [], ◌∷◌, ◌++◌, arith,
  str_eq, eq_iff, int_mod,
}
use esp32_fl.Float.{FloatArith}
use esp32_fl.Network.Metrics.{Evaluation}
use esp32_fl.Server.{ClientNode, FederatedLearning, ClientModel}
use esp32_fl.Server.Registry.{find_node, handle_get_checkmodelstatus}
use esp32_fl.Server.Registry.Status.{handle_get_checkmodelstatus-one}
use esp32_fl.Server.Aggregation.Pending.{remove}
use esp32_fl.Server.Aggregation.Level.{counted_node, count_interaction-found}
use esp32_fl.Server.Aggregation.Round.{Sent, Fits}
use esp32_fl.Server.Aggregation.Joined.{handle-Joined}
use esp32_fl.Server.System.{Posted, System, in_turn, Step, told, sends, handles, Reach, here, next}

module _ (fl : FloatArith) (env : Evaluation (FloatArith.F fl))
    (decode : String → Option (ClientModel (FloatArith.F fl))) where
  open fl use {F}

  abbrev pub at_rest : FederatedLearning F → System F
  at_rest s = record { server = s; training = []; posted = [] }

  -- Two models of one device, sent one after the other, the first one still waiting.
  module _ (ip first second : String) (server : FederatedLearning F) where
    abbrev busy : List String → List Posted → System F
    busy ts ps = record { server = server; training = ts; posted = ps }

    abbrev first_message : Posted
    first_message = record { sender = ip; message = first }

    abbrev second_message : Posted
    second_message = record { sender = ip; message = second }

    one_sent :
        (message : String) (ps : List Posted)
        → Step fl env decode in_turn
            (busy (ip ∷ []) ps)
            (busy [] (ps ++ (record { sender = ip; message = message } ∷ [])))
    one_sent message ps =
        let self : str_eq ip ip ≡ true = (eq_iff ip ip).1 refl in
        let step : Step fl env decode in_turn (busy (ip ∷ []) ps)
            (busy (remove ip (ip ∷ [])) (ps ++ (record { sender = ip; message = message } ∷ []))) =
          sends ip message (rw self refl) in
        rw self at step

    sent_twice :
        handle_get_checkmodelstatus ip server ≡ some 1
        → Reach fl env decode in_turn
            (at_rest server)
            (busy [] (first_message ∷ second_message ∷ []))
    sent_twice one =
        next (next (next (next here (told ip refl one)) (one_sent first [])) (told ip refl one))
          (one_sent second (first_message ∷ []))

  -- Two messages of a device counted in one interaction.
  pub record CountedTwice (ip : String) (s : System F) : Type 0 where
    pub result : FederatedLearning F
    pub reach : Reach fl env decode in_turn s (record s { server = result })
    pub node : ClientNode
    pub found : find_node ip result.nodecontrol.nodes ≡ some node
    pub ahead : node.interaction ≡ s.server.nodecontrol.currentinteraction + 2
    pub current : result.nodecontrol.currentinteraction ≡ s.server.nodecontrol.currentinteraction

  -- Where no device is busy, this device and another one are told that a model is there, the
  -- number of the interaction is small enough, and two texts hold networks of the shape of the
  -- sums: the loop of main.c leads to a state, without a fault, where both texts, sent by this
  -- device, are counted in the same interaction, and its node is two messages ahead of it.
  pub handle_clint_model_message-CountedTwice :
      (x : F) (ip other : String) (first second : Sent F) (s : FederatedLearning F)
      → other ≢ ip
      → s.nodecontrol.currentinteraction + 2 < int_mod
      → Fits fl env decode s.nodecontrol.neuralnetwork first
      → Fits fl env decode s.nodecontrol.neuralnetwork second
      → handle_get_checkmodelstatus ip s ≡ some 1
      → handle_get_checkmodelstatus other s ≡ some 1
      → CountedTwice ip (at_rest s)
  handle_clint_model_message-CountedTwice x ip other first second s ne small fits fits' one one' =
      let o = (handle_get_checkmodelstatus-one ip s).0 one in
      let o' = (handle_get_checkmodelstatus-one other s).0 one' in
      let a : Sent F = record first { ip = ip } in
      let b : Sent F = record second { ip = ip } in
      let j =
        handle-Joined fl env decode x a other s o.client o'.client fits o.found ne o'.found
          o'.pending in
      let ahead =
        count_interaction-found ip s.nodecontrol.nodes o.client o.found j.counts.counted in
      let j' =
        handle-Joined fl env decode x b other j.result (counted_node o.client) o'.client
          (fits'.0, fits'.1, j.keeps ∙ fits'.2) ahead ne (j.still ∙ o'.found)
          (o'.pending ∙ sym j.current) in
      record {
        result = j'.result;
        reach =
            next
              (next (sent_twice ip first.message second.message s one)
                (handles _ _ j.result refl j.runs))
              (handles _ _ j'.result refl j'.runs);
        node = counted_node (counted_node o.client);
        found = count_interaction-found ip j.result.nodecontrol.nodes _ ahead j'.counts.counted;
        ahead = omega (arith, o.pending, small);
        current = j'.current ∙ j.current;
      }
