-- ===== src/Server/Service.antt =====
-- The thread of `start_websocketserver` in websocketserver.c: the library reports what arrived,
-- `callback_echo` takes it in, and `handle_message` empties the message buffer. The library is the
-- fragments that it reports in each call of `lws_service`, each with its session, and the address
-- of each session's peer.
pub mod Completed
pub mod Rounds
pub mod Texts
use esp32_fl.Base.{ℕ, Option, some, List, [], ◌∷◌, ◌==◌, if◌then◌else◌, length, ◌>>=◌}
use esp32_fl.Network.Chain.{Chain}
use esp32_fl.Server.WebSocket.{
  Receiver, ClientMessage, Reply, too_big, waiting, inserted, overrun, callback_receive,
}
use esp32_fl.Server.Buffer.{insert_buffer_client_message, handle_message}

pub record Fragment : Type 0 where
  pub session : ℕ
  pub chunk : List ℕ

-- `received_json` is one buffer for all sessions, `client_ip` is kept for each, and `server` is
-- what the handling of a message changes.
pub record Service (S : Type 0) : Type 0 where
  pub received_json : List ℕ
  pub client_ip : ℕ → List ℕ
  pub buffer : Chain ClientMessage
  pub server : S

abbrev pub update : (ℕ → List ℕ) → ℕ → List ℕ → ℕ → List ℕ
update f n v m = if m == n then v else f m

-- The call of `insert_buffer_client_message`, where the text is complete.
abbrev pub insert_reply : Reply → Chain ClientMessage → Chain ClientMessage
insert_reply too_big b = b
insert_reply waiting b = b
insert_reply (inserted m) b = insert_buffer_client_message m b
insert_reply (overrun m) b = insert_buffer_client_message m b

module _ (peer : ℕ → List ℕ) {S : Type 0} (handle : ClientMessage → S → Option S) where
  -- `LWS_CALLBACK_RECEIVE` for one fragment.
  pub receive_fragment : Fragment → Service S → Service S
  receive_fragment f st =
      let (r, reply) =
        callback_receive (peer f.session) f.chunk
          (record { received_json = st.received_json; client_ip = st.client_ip f.session }) in
      record st {
        received_json = r.received_json;
        client_ip = update st.client_ip f.session r.client_ip;
        buffer = insert_reply reply st.buffer;
      }

  abbrev pub receive_fragments : List Fragment → Service S → Service S
  receive_fragments [] st = st
  receive_fragments (f ∷ fs) st = receive_fragments fs (receive_fragment f st)

  -- A call of `lws_service`, and of `handle_message` behind it. A fragment completes at most one
  -- message, which is the fuel.
  pub service_round : List Fragment → Service S → Option (Service S)
  service_round fs st = do
    let received = receive_fragments fs st
    (b, s) ← handle_message handle (length fs) received.buffer received.server
    some (record received { buffer = b; server = s })

  -- The loop, for as many calls as the library answers.
  pub start_websocketserver : List (List Fragment) → Service S → Option (Service S)
  start_websocketserver [] st = some st
  start_websocketserver (fs ∷ rounds) st = do
    st' ← service_round fs st
    start_websocketserver rounds st'
