-- ===== src/Tests/ServerTests.antt =====
-- The server's operations at concrete inputs.
use esp32_fl.Base.{
  All, ℕ, ◌≡◌, refl, ◌≢◌, false, ◌↔◌, ◌++◌, ◌≤◌, none, some, List, [], ◌∷◌, map, arith,
}
use esp32_fl.Network.Params.{params}
use esp32_fl.Server.Registry.{is_registered, handle_get_noderegister, handle_get_checkmodelstatus}
use esp32_fl.Server.Registry.Valid.{Distinct, IsValid, handle_get_noderegister-IsValid}
use esp32_fl.Server.Registry.Arrivals.{
  addresses, first_arrivals, register_all, register_all-addresses,
}
use esp32_fl.Server.Registry.Status.{
  Offered, Faults, handle_get_checkmodelstatus-one, handle_get_checkmodelstatus-fault,
}
use esp32_fl.Server.Averaging.{divide, federated_averaging}
use esp32_fl.Server.Averaging.Mean.{params-federated_averaging}
use esp32_fl.Server.Averaging.Zero.{IsCleared, set_neural_network_zero_weight_value-IsCleared}
use esp32_fl.Server.Aggregation.Finish.{IsAggregable, Finished, finish_interaction-Finished}
use esp32_fl.Server.Aggregation.Round.{Sent, Round, deliver-Round}
use esp32_fl.Server.WebSocket.{is_complete_json, Receiver, callback_receive, get_client_ip}
use esp32_fl.Server.WebSocket.Bounds.{IsShort, IsSmall, receive_all_bound}
use esp32_fl.Server.WebSocket.Reassembly.{
  IsObject, receive_all, receive_all-join, Bounded, callback_receive_bound, message_of,
}
use esp32_fl.Tests.Samples.{
  natural_arith, network, evaluation, client_model, decode, nodes, control, server,
}
use esp32_fl.Tests.NetworkTests.{network-IsNetwork, network-sized}

pub nodes-Distinct : Distinct nodes
unfolding is_registered
nodes-Distinct = (refl, (refl, tt))

pub control-IsValid : (places : ℕ) → 2 ≤ places → places ≤ 9 → IsValid (control places)
control-IsValid places h k = record {
  distinct = nodes-Distinct;
  counted = refl;
  within = h;
  fits = omega arith;
}

pub network-IsAggregable : (b : ℕ) → IsAggregable (network b)
network-IsAggregable b = record {
  network = network-IsNetwork b;
  several = refl;
  neurons = ((λ e. omega (arith, e)), ((λ e. omega (arith, e)), ((λ e. omega (arith, e)), tt)));
  size = 7;
  sized = network-sized b;
  room = omega arith;
  wide = omega arith;
}

abbrev first_sent : Sent ℕ
first_sent = record {
  ip = "10.0.0.1";
  message = "first";
  client = client_model 3;
  network = network 3;
}

abbrev second_sent : Sent ℕ
second_sent = record {
  ip = "10.0.0.2";
  message = "second";
  client = client_model 5;
  network = network 5;
}

deliver-Round_example :
    Round natural_arith evaluation decode (second_sent ∷ first_sent ∷ []) (server 2)
deliver-Round_example =
    deliver-Round natural_arith evaluation decode 0 (first_sent ∷ []) second_sent (server 2) _ refl
      (omega arith) nodes-Distinct (network-IsAggregable 0)
      ((refl, refl, refl), ((refl, refl, refl), tt)) (refl, (refl, refl))

finish_interaction-Finished_example : Finished natural_arith evaluation 0 (server 2)
finish_interaction-Finished_example =
    finish_interaction-Finished natural_arith evaluation 0 (server 2) _ refl
      (network-IsAggregable 0)

register_all-addresses_example :
    addresses (register_all ("10.0.0.2" ∷ "10.0.0.7" ∷ "10.0.0.8" ∷ []) (control 3)).nodes
    ≡ "10.0.0.1" ∷ "10.0.0.2" ∷ "10.0.0.7" ∷ []
unfolding first_arrivals
register_all-addresses_example =
    register_all-addresses ("10.0.0.2" ∷ "10.0.0.7" ∷ "10.0.0.8" ∷ []) (control 3)
      (control-IsValid 3 (omega arith) (omega arith))

handle_get_noderegister-IsValid_example :
    IsValid (handle_get_noderegister "10.0.0.7" (server 3)).0.nodecontrol
handle_get_noderegister-IsValid_example =
    handle_get_noderegister-IsValid "10.0.0.7" (server 3)
      (control-IsValid 3 (omega arith) (omega arith))

handle_get_checkmodelstatus-one_example :
    (handle_get_checkmodelstatus "10.0.0.1" (server 2) ≡ some 1) ↔ Offered "10.0.0.1" (server 2)
handle_get_checkmodelstatus-one_example = handle_get_checkmodelstatus-one "10.0.0.1" (server 2)

handle_get_checkmodelstatus-fault_example :
    (handle_get_checkmodelstatus "10.0.0.9" (server 2) ≡ none) ↔ Faults "10.0.0.9" (server 2)
handle_get_checkmodelstatus-fault_example = handle_get_checkmodelstatus-fault "10.0.0.9" (server 2)

set_neural_network_zero_weight_value-IsCleared_example : IsCleared natural_arith 0 (network 3)
set_neural_network_zero_weight_value-IsCleared_example =
    set_neural_network_zero_weight_value-IsCleared natural_arith 0 (network 3)
      (network-IsAggregable 3).neurons

params-federated_averaging_example :
    params (federated_averaging natural_arith (network 3) 2)
    ≡ map (divide natural_arith 2) (params (network 3))
params-federated_averaging_example = params-federated_averaging natural_arith 2 (network 3)

abbrev receiver : Receiver
receiver = record { received_json = []; client_ip = [] }

-- `{}`
pub braces-IsObject : IsObject (b'{' ∷ b'}' ∷ [])
unfolding is_complete_json
braces-IsObject = record { complete = refl; no_sooner = no_sooner }
  where
    no_sooner : (p q : List ℕ) → p ++ q ≡ b'{' ∷ b'}' ∷ [] → q ≢ [] → is_complete_json p ≡ false
    no_sooner [] q e h = refl
    no_sooner (x ∷ []) q e h = let same : x ≡ b'{' = cc in rw same
    no_sooner (x ∷ y ∷ []) q e h = absurd (h cc)
    no_sooner (x ∷ y ∷ z ∷ p) q e h = absurd cc

receive_all-join_example : receive_all (b'1' ∷ []) ((b'{' ∷ []) ∷ (b'}' ∷ []) ∷ []) receiver ≡ (
  record { received_json = []; client_ip = get_client_ip (b'1' ∷ []) },
  message_of (b'{' ∷ b'}' ∷ []) (get_client_ip (b'1' ∷ [])) ∷ [],
)
receive_all-join_example =
    receive_all-join (b'1' ∷ []) ((b'}' ∷ []) ∷ []) (b'{' ∷ []) receiver ((λ e. cc), tt)
      braces-IsObject (omega arith)

callback_receive_bound_example :
    Bounded
      (b'1' ∷ [])
      (b'{' ∷ [])
      receiver
      (callback_receive (b'1' ∷ []) (b'{' ∷ []) receiver).0
      (callback_receive (b'1' ∷ []) (b'{' ∷ []) receiver).1
callback_receive_bound_example = callback_receive_bound (b'1' ∷ []) (b'{' ∷ []) receiver

receive_all_bound_example :
    IsShort (receive_all (b'1' ∷ []) ((b'{' ∷ []) ∷ (b'}' ∷ []) ∷ []) receiver).0
    × All IsSmall (receive_all (b'1' ∷ []) ((b'{' ∷ []) ∷ (b'}' ∷ []) ∷ []) receiver).1
receive_all_bound_example =
    receive_all_bound (b'1' ∷ []) ((b'{' ∷ []) ∷ (b'}' ∷ []) ∷ []) receiver
      (record { json = omega arith; ip = omega arith })
