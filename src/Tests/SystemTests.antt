-- ===== src/Tests/SystemTests.antt =====
-- The server and two devices, interleaved.
use esp32_fl.Base.{ℕ, String, ◌≡◌, refl, ◌≢◌, false, true, eq_iff, some, [], ◌∷◌, arith}
use esp32_fl.Server.Registry.{
  add_node, register_node, is_registered, find_node, handle_get_noderegister,
  handle_get_checkmodelstatus,
}
use esp32_fl.Server.Aggregation.Round.{Sent}
use esp32_fl.Server.Aggregation.Joined.{Joined, handle-Joined}
use esp32_fl.Server.System.{System, Reach, here, next, registers, told, sends, handles, patient}
use esp32_fl.Server.System.Sound.{IsSound}
use esp32_fl.Server.System.Reachable.{IsStart, Reach-IsSound}
use esp32_fl.Server.System.Twice.{CountedTwice, at_rest, handle_clint_model_message-CountedTwice}
use esp32_fl.Server.System.Finishes.{CanFinish, Reach-CanFinish}
use esp32_fl.Tests.ServerTests.{network-IsAggregable}
use esp32_fl.Tests.Samples.{natural_arith, evaluation, client_model, network, decode, server}

false-true : false ≢ true
false-true e = cc

addresses-differ : ◌≢◌ {A = String} "10.0.0.2" "10.0.0.1"
addresses-differ e = false-true ((eq_iff "10.0.0.2" "10.0.0.1").1 e)

abbrev first : Sent ℕ
first = record { ip = "10.0.0.1"; message = "first"; client = client_model 3; network = network 3 }

abbrev second : Sent ℕ
second = record first { message = "second"; client = client_model 5; network = network 5 }

told_first : handle_get_checkmodelstatus "10.0.0.1" (server 2) ≡ some 1
unfolding handle_get_checkmodelstatus find_node
told_first = refl

told_second : handle_get_checkmodelstatus "10.0.0.2" (server 2) ≡ some 1
unfolding handle_get_checkmodelstatus find_node
told_second = refl

joined : Joined natural_arith evaluation decode 0 "10.0.0.2" first (server 2)
unfolding find_node
joined =
    handle-Joined natural_arith evaluation decode 0 first "10.0.0.2" (server 2) _ _
      (refl, refl, refl) refl addresses-differ refl refl

-- The server of the samples before its first device.
abbrev fresh : System ℕ
fresh = at_rest natural_arith evaluation decode (record (server 2) {
  nodecontrol = record (server 2).nodecontrol { clientnodesregistered = 0; nodes = [] };
})

fresh-IsStart : IsStart natural_arith evaluation decode fresh
fresh-IsStart = record {
  nodes = refl;
  registered = refl;
  current = refl;
  places = omega arith;
  cycle = omega arith;
  training = refl;
  posted = refl;
}

one_counted :
    Reach natural_arith evaluation decode patient fresh
      (at_rest natural_arith evaluation decode joined.result)
unfolding handle_get_noderegister register_node add_node is_registered handle_get_checkmodelstatus
    find_node
one_counted =
    next
      (next
        (next (next (next here (registers "10.0.0.1")) (registers "10.0.0.2"))
          (told "10.0.0.1" refl refl))
        (sends "10.0.0.1" "first" refl))
      (handles _ _ joined.result refl joined.runs)

Reach-IsSound_example : IsSound (at_rest natural_arith evaluation decode joined.result)
Reach-IsSound_example = Reach-IsSound natural_arith evaluation decode one_counted fresh-IsStart

handle_clint_model_message-CountedTwice_example :
    CountedTwice natural_arith evaluation decode "10.0.0.1"
      (at_rest natural_arith evaluation decode (server 2))
handle_clint_model_message-CountedTwice_example =
    handle_clint_model_message-CountedTwice natural_arith evaluation decode 0 "10.0.0.1" "10.0.0.2"
      first second (server 2) addresses-differ (omega arith) (refl, refl, refl) (refl, refl, refl)
      told_first told_second

-- Both devices are registered, and one of them trains.
abbrev one_trains : System ℕ
one_trains = record { server = server 2; training = "10.0.0.1" ∷ []; posted = [] }

fresh-one_trains : Reach natural_arith evaluation decode patient fresh one_trains
unfolding handle_get_noderegister register_node add_node is_registered handle_get_checkmodelstatus
    find_node
fresh-one_trains =
    next (next (next here (registers "10.0.0.1")) (registers "10.0.0.2"))
      (told "10.0.0.1" refl refl)

Reach-CanFinish_example : CanFinish natural_arith evaluation decode one_trains
Reach-CanFinish_example =
    Reach-CanFinish natural_arith evaluation decode 0 first _ fresh-one_trains fresh-IsStart
      (omega arith) refl refl (omega arith) (λ e. omega (arith, e)) (network-IsAggregable 0)
      (refl, refl, refl)
