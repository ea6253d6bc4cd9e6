-- ===== src/Device/WebSocketClient/Protocol.antt =====
-- `websocket_send_local_model` keeps to what the library asks for, and what it leaves behind.
use esp32_fl.Base.{
  ℕ, suc, ◌≡◌, refl, ◌⊎◌, inl, inr, String, str_eq, eq_iff, Bool, true, false, Option, none, some,
  List, [], ◌∷◌, ◌++◌, ◌==◌, arith,
}
use esp32_fl.Device.Interaction.{outcome_of, Outcome, trained_model, waited, no_model, stopped}
use esp32_fl.Device.WebSocketClient.{
  Call, send_text, send_if_connected, start_websocket, websocket_send_local_model, close_websocket,
}
use esp32_fl.Device.WebSocketClient.Held.{Held, Phase, step_call, run_calls}

-- The texts that are sent.
abbrev pub texts_sent : List Call → List String
texts_sent [] = []
texts_sent (send_text c text ∷ calls) = text ∷ texts_sent calls
texts_sent (_ ∷ calls) = texts_sent calls

-- The text that a round of the device's loop hands on.
abbrev pub outcome_text : Outcome → List String
outcome_text waited = []
outcome_text no_model = []
outcome_text stopped = []
outcome_text (trained_model none) = []
outcome_text (trained_model (some text)) = text ∷ []

-- Neither a client nor a text is held.
abbrev pub idle : ℕ → Held
idle n = record { phase = Phase.absent; trees = n; text = none }

same_client : (c : ℕ) → (c == c) ≡ true
same_client c = ground arith

same_text : (t : String) → str_eq t t ≡ true
same_text t = (eq_iff t t).1 refl

-- `start_websocket` leaves a client that runs, and `close_websocket` is allowed behind it.
pub open_close :
    (client : Option ℕ) (n : ℕ)
    → run_calls (start_websocket client ++ close_websocket client) (idle n) ≡ some (idle n)
unfolding start_websocket close_websocket run_calls step_call
open_close none n = refl
open_close (some c) n = simp (same_client c)

-- What sending the model does.
pub record Delivers (client : Option ℕ) (connected : Bool) (printed : Option String) : Type 0 where
  pub calls : List Call
  pub runs : websocket_send_local_model client connected printed ≡ some calls
  pub allowed : (n : ℕ) → run_calls calls (idle n) ≡ some (idle (suc n))
  pub sent : texts_sent calls ≡ outcome_text (outcome_of connected printed)

-- Where no client can be made, the library says that it is not connected. Then
-- `websocket_send_local_model` faults if it is connected and the model cannot be printed; in every
-- other case, also without a client, each call is allowed when it is made: the calls of the client
-- are in the order of its life, the text is sent and freed while it is held. At the end neither
-- client nor text is held, and one tree more than before is allocated. The texts that are sent are
-- those of the round of the device's loop: the model once if it is connected, and none otherwise.
pub websocket_send_local_model-Delivers :
    (client : Option ℕ) (connected : Bool) (printed : Option String)
    → (client ≡ none → connected ≡ false)
    → ((connected ≡ true)
        × (printed ≡ none)
        × (websocket_send_local_model client connected printed ≡ none))
      ⊎ Delivers client connected printed
unfolding websocket_send_local_model send_if_connected run_calls step_call
websocket_send_local_model-Delivers client true none h = inl (refl, refl, refl)
websocket_send_local_model-Delivers none true (some text) h = cc (h refl)
websocket_send_local_model-Delivers (some c) true (some text) h = inr (record {
  calls = _;
  runs = refl;
  allowed = λ n. simp (same_client c, same_text text);
  sent = refl;
})
websocket_send_local_model-Delivers none false none h =
    inr (record { calls = _; runs = refl; allowed = λ n. refl; sent = refl })
websocket_send_local_model-Delivers none false (some text) h =
    inr (record { calls = _; runs = refl; allowed = λ n. refl; sent = refl })
websocket_send_local_model-Delivers (some c) false none h =
    inr (record { calls = _; runs = refl; allowed = λ n. simp (same_client c); sent = refl })
websocket_send_local_model-Delivers (some c) false (some text) h =
    inr (record { calls = _; runs = refl; allowed = λ n. simp (same_client c); sent = refl })
