-- ===== src/Device/WebSocketClient.antt =====
-- components/websocket/websocketclient.c of the device: the calls that its functions make, in their
-- order. The websocket library, cJSON and the printer are what their calls return. The event
-- handler only logs.
pub mod Held
pub mod Protocol
use esp32_fl.Base.{
  ℕ, String, Bool, true, false, Option, none, some, List, [], ◌∷◌, ◌++◌, if◌then◌else◌, ◌>>=◌,
}

-- A client is named by a number, and `none` is the null pointer. `init`, `is_connected` and
-- `print_tree` carry what they return. `delete_tree` is `cJSON_Delete`, which the file never calls.
pub data Call : Type 0 where
  init : Option ℕ → Call
  register_events : Option ℕ → Call
  start : Option ℕ → Call
  is_connected : Option ℕ → Bool → Call
  send_text : Option ℕ → String → Call
  stop : Option ℕ → Call
  destroy : Option ℕ → Call
  make_tree : Call
  print_tree : Option String → Call
  free_text : Call
  delete_tree : Call

-- The client becomes the global one.
pub start_websocket : Option ℕ → List Call
start_websocket client = init client ∷ register_events client ∷ start client ∷ []

-- `strlen` of the text; `none` is the null dereference where it could not be printed.
pub send_if_connected : Option ℕ → Bool → Option String → Option (List Call)
send_if_connected client false printed = some []
send_if_connected client true none = none
send_if_connected client true (some text) = some (send_text client text ∷ [])

-- A client of its own, whatever the global one is.
pub websocket_send_local_model : Option ℕ → Bool → Option String → Option (List Call)
unfolding send_if_connected
websocket_send_local_model client connected printed = do
  sent ← send_if_connected client connected printed
  some (
      init client
      ∷ register_events client
      ∷ start client
      ∷ make_tree
      ∷ print_tree printed
      ∷ is_connected client connected
      ∷ (sent ++ (free_text ∷ stop client ∷ destroy client ∷ [])))

pub close_websocket : Option ℕ → List Call
close_websocket client = stop client ∷ destroy client ∷ []
