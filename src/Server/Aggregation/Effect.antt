-- ===== src/Server/Aggregation/Effect.antt =====
-- What a message that was handled leaves of the node control.
use esp32_fl.Base.{
  ℕ, String, ◌≡◌, sym, ap, ◌∙◌, ◌⊎◌, inl, inr, Option, some, List, any, if◌then◌else◌, add_int,
  >>=-eq-some, Option-cases, Bool-cases,
}
use esp32_fl.Float.{FloatArith}
use esp32_fl.Network.Copy.{copy_neural_network}
use esp32_fl.Network.Metrics.{Evaluation, performance_metrics}
use esp32_fl.Server.{ClientNode, NodeControl, FederatedLearning, ClientModel}
use esp32_fl.Server.Averaging.{
  federated_averaging_sum, federated_averaging, set_neural_network_zero_weight_value,
}
use esp32_fl.Server.Aggregation.{
  is_pending, count_interaction, finish_interaction, add_model, aggregation_model,
  handle_clint_model_message,
}

-- The number of the interaction behind a model that was added.
abbrev pub next_interaction : ℕ → List ClientNode → ℕ
next_interaction current ns = if any (is_pending current) ns then current else add_int current 1

module _ {F : Type 0} where
  -- The model of `ip` was counted, and the rest of the control follows from that.
  pub record Counts (ip : String) (c c' : NodeControl F) : Type 0 where
    pub counted : count_interaction ip c.nodes ≡ some c'.nodes
    pub current : c'.currentinteraction ≡ next_interaction c.currentinteraction c'.nodes
    pub cycle : c'.interactioncycle ≡ c.interactioncycle
    pub places : c'.clientnodes ≡ c.clientnodes
    pub registered : c'.clientnodesregistered ≡ c.clientnodesregistered

  -- All but the sums, and the number of the interaction.
  record Aside (c c' : NodeControl F) : Type 0 where
    pub nodes : c'.nodes ≡ c.nodes
    pub cycle : c'.interactioncycle ≡ c.interactioncycle
    pub places : c'.clientnodes ≡ c.clientnodes
    pub registered : c'.clientnodesregistered ≡ c.clientnodesregistered

module _ (fl : FloatArith) (env : Evaluation (FloatArith.F fl)) where
  open fl use {F}

  finish_interaction-Aside :
      (s : FederatedLearning F) {s' : FederatedLearning F}
      → finish_interaction fl env s ≡ some s'
      → Aside s.nodecontrol s'.nodecontrol
        × (s'.nodecontrol.currentinteraction ≡ add_int s.nodecontrol.currentinteraction 1)
  unfolding finish_interaction
  finish_interaction-Aside s done =
      let averaged = federated_averaging fl s.nodecontrol.neuralnetwork s.trainingscounter in
      let (global, copied, rest) = >>=-eq-some (copy_neural_network averaged) _ done in
      let (cleared, zeroed, rest') =
        >>=-eq-some (set_neural_network_zero_weight_value fl averaged) _ rest in
      let ((measured, counts), ran, now) =
        >>=-eq-some (performance_metrics fl env global 30) _ rest' in
      (record { nodes = cc; cycle = cc; places = cc; registered = cc }, cc)

  add_model-Aside :
      (client : ClientModel F) (s : FederatedLearning F) {s' : FederatedLearning F}
      → add_model fl env client s ≡ some s'
      → Aside s.nodecontrol s'.nodecontrol
        × (s'.nodecontrol.currentinteraction ≡ s.nodecontrol.currentinteraction)
  unfolding add_model
  add_model-Aside client s done =
      let (c, given, rest) = >>=-eq-some client.neuralnetwork _ done in
      let (sums, summed, now) =
        >>=-eq-some
          (federated_averaging_sum fl s.nodecontrol.neuralnetwork c client.trainingscounter) _
          rest in
      (record { nodes = cc; cycle = cc; places = cc; registered = cc }, cc)

  -- What is left to do with a model that was added.
  close-Aside :
      (s : FederatedLearning F) {s' : FederatedLearning F}
      → (if any (is_pending s.nodecontrol.currentinteraction) s.nodecontrol.nodes
          then some (record s { globalmodelstatus = 1 })
          else finish_interaction fl env s)
        ≡ some s'
      → Aside s.nodecontrol s'.nodecontrol
        × (s'.nodecontrol.currentinteraction
            ≡ next_interaction s.nodecontrol.currentinteraction s.nodecontrol.nodes)
  close-Aside s done =
      elim (Bool-cases (any (is_pending s.nodecontrol.currentinteraction) s.nodecontrol.nodes)) [
        | inl more ↦
            let now : some (record s { globalmodelstatus = 1 }) ≡ some _ = rw more at done in
            (record { nodes = cc; cycle = cc; places = cc; registered = cc }, rw more (cc))
        | inr last ↦
            let (aside, current) = finish_interaction-Aside s (rw last at done) in
            (aside, rw last current)
      ]

  aggregation_model-Aside :
      (client : ClientModel F) (s : FederatedLearning F) {s' : FederatedLearning F}
      → aggregation_model fl env client s ≡ some s'
      → Aside s.nodecontrol s'.nodecontrol
        × (s'.nodecontrol.currentinteraction
            ≡ next_interaction s.nodecontrol.currentinteraction s.nodecontrol.nodes)
  unfolding aggregation_model
  aggregation_model-Aside client s done =
      let (added, ran, rest) = >>=-eq-some (add_model fl env client s) _ done in
      let (one, current) = add_model-Aside client s ran in
      let (two, current') = close-Aside added rest in
      (
        record {
          nodes = two.nodes ∙ one.nodes;
          cycle = two.cycle ∙ one.cycle;
          places = two.places ∙ one.places;
          registered = two.registered ∙ one.registered;
        },
        rw (current', current, one.nodes),
      )

  module _ (decode : String → Option (ClientModel F)) (message ip : String)
      (s : FederatedLearning F) {s' : FederatedLearning F}
      (done : handle_clint_model_message fl env decode message ip s ≡ some s') where
    -- A model that is handled without a fault is counted.
    pub handle_clint_model_message-counted :
        {client : ClientModel F}
        → decode message ≡ some client
        → Counts ip s.nodecontrol s'.nodecontrol
    unfolding handle_clint_model_message
    handle_clint_model_message-counted {client} e =
        let (ns, counted, rest) =
          >>=-eq-some (count_interaction ip s.nodecontrol.nodes) _
            (rw (e, handle_clint_model_message) at done) in
        let (aside, current) = aggregation_model-Aside client _ rest in
        record {
          counted = counted ∙ ap some (sym aside.nodes);
          current =
              current ∙ ap (next_interaction s.nodecontrol.currentinteraction) (sym aside.nodes);
          cycle = aside.cycle;
          places = aside.places;
          registered = aside.registered;
        }

    -- A message that is handled without a fault changes nothing, or is counted.
    pub handle_clint_model_message-Counts : (s' ≡ s) ⊎ Counts ip s.nodecontrol s'.nodecontrol
    unfolding handle_clint_model_message
    handle_clint_model_message-Counts = elim (Option-cases (decode message)) [
      | inl nothing ↦ inl (cc)
      | inr (client, e) ↦ inr (handle_clint_model_message-counted e)
    ]

  -- The status behind a message that was handled: a model is ready, or nothing changed.
  close-ready :
      (s : FederatedLearning F) {s' : FederatedLearning F}
      → (if any (is_pending s.nodecontrol.currentinteraction) s.nodecontrol.nodes
          then some (record s { globalmodelstatus = 1 })
          else finish_interaction fl env s)
        ≡ some s'
      → s'.globalmodelstatus ≡ 1
  unfolding finish_interaction
  close-ready s done =
      elim (Bool-cases (any (is_pending s.nodecontrol.currentinteraction) s.nodecontrol.nodes)) [
        | inl more ↦
            let now : some (record s { globalmodelstatus = 1 }) ≡ some _ = rw more at done in cc
        | inr last ↦
            let averaged = federated_averaging fl s.nodecontrol.neuralnetwork s.trainingscounter in
            let (global, copied, rest) =
              >>=-eq-some (copy_neural_network averaged) _ (rw last at done) in
            let (cleared, zeroed, rest') =
              >>=-eq-some (set_neural_network_zero_weight_value fl averaged) _ rest in
            let ((measured, counts), ran, now) =
              >>=-eq-some (performance_metrics fl env global 30) _ rest' in
            cc
      ]

  pub handle_clint_model_message-ready :
      (decode : String → Option (ClientModel F)) (message ip : String) (s : FederatedLearning F)
      {s' : FederatedLearning F}
      → handle_clint_model_message fl env decode message ip s ≡ some s'
      → (s' ≡ s) ⊎ (s'.globalmodelstatus ≡ 1)
  unfolding handle_clint_model_message aggregation_model
  handle_clint_model_message-ready decode message ip s done = elim (Option-cases (decode message)) [
    | inl nothing ↦ inl (cc)
    | inr (client, e) ↦
        let (ns, counted, rest) =
          >>=-eq-some (count_interaction ip s.nodecontrol.nodes) _
            (rw (e, handle_clint_model_message) at done) in
        let (added, ran, rest') = >>=-eq-some (add_model fl env client _) _ rest in
        inr (close-ready added rest')
  ]
