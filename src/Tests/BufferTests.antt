-- ===== src/Tests/BufferTests.antt =====
-- The message buffer at a concrete input.
use esp32_fl.Base.{ℕ, refl, inl, Option, some, List, [], ◌∷◌, ◌++◌, map, arith}
use esp32_fl.Network.Chain.{Chain, empty_chain}
use esp32_fl.Server.WebSocket.{ClientMessage}
use esp32_fl.Server.Buffer.{new_client_message}
use esp32_fl.Server.Service.{Fragment, Service, start_websocketserver}
use esp32_fl.Server.Service.Rounds.{Serves}
use esp32_fl.Server.Service.Texts.{Text, text_message, start_websocketserver-texts}
use esp32_fl.Tests.ServerTests.{braces-IsObject}
use esp32_fl.Server.Buffer.Order.{insert_all, handle_all, Drains, handle_message-insert_all}

abbrev message : List ℕ → ClientMessage
message text = record { message = text; length = 2; ip_id = b'1' ∷ [] }

-- The server's state is the list of the texts that were handled.
abbrev note : ClientMessage → List (List ℕ) → Option (List (List ℕ))
note m s = some (s ++ (m.message ∷ []))

abbrev texts : List ClientMessage
texts = message (b'{' ∷ b'}' ∷ []) ∷ message (b'{' ∷ 0 ∷ b'}' ∷ []) ∷ []

abbrev no_messages : Chain ClientMessage
no_messages = empty_chain

handle_message-insert_all_example :
    Drains note 3
      (insert_all texts no_messages)
      []
      (handle_all note (map new_client_message texts) [])
handle_message-insert_all_example =
    handle_message-insert_all note [] texts 3 no_messages [] (refl, refl) (omega arith)

-- Two peers, the first of which cuts its text.
abbrev peers : ℕ → List ℕ
peers n = n ∷ []

abbrev cut_text : Text
cut_text = record { session = 1; head = b'{' ∷ []; tail = (b'}' ∷ []) ∷ [] }

abbrev whole_text : Text
whole_text = record { session = 2; head = b'{' ∷ b'}' ∷ []; tail = [] }

abbrev idle_service : Service (List (List ℕ))
idle_service = record { received_json = []; client_ip = λ n. []; buffer = no_messages; server = [] }

abbrev reported : List (List Fragment)
reported =
    (record { session = 1; chunk = b'{' ∷ [] } ∷ [])
    ∷ (record { session = 1; chunk = b'}' ∷ [] }
        ∷ record { session = 2; chunk = b'{' ∷ b'}' ∷ [] }
        ∷ [])
    ∷ []

start_websocketserver-texts_example :
    Serves peers note
      (start_websocketserver peers note reported idle_service)
      []
      (handle_all note (map (text_message peers) (cut_text ∷ whole_text ∷ [])) [])
start_websocketserver-texts_example =
    start_websocketserver-texts peers note reported (cut_text ∷ whole_text ∷ []) [] idle_service
      refl
      (
        record { full = ((λ e. cc), tt); object = braces-IsObject; fits = omega arith },
        (record { full = tt; object = braces-IsObject; fits = omega arith }, tt),
      )
      (record { rest = refl; server = refl; known = λ n. inl refl; empty = (refl, refl) })
