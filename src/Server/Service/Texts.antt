-- ===== src/Server/Service/Texts.antt =====
-- Texts that arrive one after the other, each in any fragments, in any sessions.
use mathlib.Core.List.{map-append}
use esp32_fl.Base.{
  ℕ, ◌≤◌, ◌≡◌, ◌≢◌, refl, sym, ap, ap₂, ◌∙◌, ◌⊎◌, inl, Option, List, [], ◌∷◌, ◌++◌, map, All,
  length, concat_map,
}
use esp32_fl.Server.WebSocket.{
  max_json_size, get_client_ip, Receiver, ClientMessage, Reply, too_big, waiting, inserted, overrun,
  callback_receive,
}
use esp32_fl.Server.WebSocket.Reassembly.{
  receive_all, join, gather, IsObject, message_of, receive_all-join, callback_receive-known,
}
use esp32_fl.Server.Buffer.{new_client_message}
use esp32_fl.Server.Buffer.Order.{handle_all}
use esp32_fl.Server.Service.{Fragment, Service, start_websocketserver}
use esp32_fl.Server.Service.Completed.{
  reply_messages, left_over, completed, left_over-append, completed-append,
}
use esp32_fl.Server.Service.Rounds.{Idle, Serves, start_websocketserver-Serves}

-- A text as a peer sends it: its first fragment, and the others.
pub record Text : Type 0 where
  pub session : ℕ
  pub head : List ℕ
  pub tail : List (List ℕ)

abbrev pub bytes : Text → List ℕ
bytes t = join (t.head ∷ t.tail)

abbrev pub fragments : Text → List Fragment
fragments t = map (λ d. record { session = t.session; chunk = d }) (t.head ∷ t.tail)

-- The text is an object, no larger than the buffer, and no fragment behind the first is empty.
pub record IsText (t : Text) : Type 0 where
  pub full : All (λ d. d ≢ []) t.tail
  pub object : IsObject (bytes t)
  pub fits : length (bytes t) ≤ max_json_size

gather-messages :
    (reply : Reply) (r : Receiver) (ms : List ClientMessage)
    → ((gather reply (r, ms)).0 ≡ r) × ((gather reply (r, ms)).1 ≡ reply_messages reply ++ ms)
gather-messages too_big r ms = (refl, refl)
gather-messages waiting r ms = (refl, refl)
gather-messages (inserted m) r ms = (refl, refl)
gather-messages (overrun m) r ms = (refl, refl)

module _ (peer : ℕ → List ℕ) where
  -- A session on its own.
  receive_all-completed :
      (n : ℕ) (ds : List (List ℕ)) (r : Receiver)
      → (r.client_ip ≡ []) ⊎ (r.client_ip ≡ get_client_ip (peer n))
      → let fs : List Fragment = map (λ d. record { session = n; chunk = d }) ds in
        (left_over peer fs r.received_json ≡ (receive_all (peer n) ds r).0.received_json)
        × (completed peer fs r.received_json ≡ (receive_all (peer n) ds r).1)
  unfolding receive_all
  receive_all-completed n [] r known = (refl, refl)
  receive_all-completed n (d ∷ ds) r known =
      let fs : List Fragment = map (λ e. record { session = n; chunk = e }) ds in
      let r' = (callback_receive (peer n) d r).0 in
      let later = receive_all (peer n) ds r' in
      let (json, reply, known') =
        callback_receive-known (peer n) d r.received_json r.client_ip known in
      let (rest, messages) = receive_all-completed n ds r' known' in
      let (kept, gathered) = gather-messages (callback_receive (peer n) d r).1 later.0 later.1 in
      (
        ap (left_over peer fs) (sym json) ∙ rest ∙ ap Receiver.received_json (sym kept),
        ap₂ ◌++◌ (ap reply_messages (sym reply)) (ap (completed peer fs) (sym json) ∙ messages)
            ∙ sym gathered,
      )

  -- The message that a text becomes.
  abbrev pub text_message : Text → ClientMessage
  text_message t = new_client_message (message_of (bytes t) (get_client_ip (peer t.session)))

  fragments-completed :
      (t : Text)
      → IsText t
      → (left_over peer (fragments t) [] ≡ [])
        × (map new_client_message (completed peer (fragments t) []) ≡ text_message t ∷ [])
  fragments-completed t h =
      let fresh : Receiver = record { received_json = []; client_ip = [] } in
      let (rest, messages) = receive_all-completed t.session (t.head ∷ t.tail) fresh (inl refl) in
      let joined = receive_all-join (peer t.session) t.tail t.head fresh h.full h.object h.fits in
      (
        rest ∙ ap (λ x. x.0.received_json) joined,
        ap (map new_client_message) (messages ∙ ap (λ x. x.1) joined),
      )

  texts-completed :
      (ts : List Text)
      → All IsText ts
      → (left_over peer (concat_map fragments ts) [] ≡ [])
        × (map new_client_message (completed peer (concat_map fragments ts) [])
            ≡ map text_message ts)
  texts-completed [] h = (refl, refl)
  texts-completed (t ∷ ts) (h, hs) =
      let gs = concat_map fragments ts in
      let (rest, message) = fragments-completed t h in
      let (rest', messages) = texts-completed ts hs in
      (
        left_over-append peer (fragments t) gs [] ∙ ap (left_over peer gs) rest ∙ rest',
        ap (map new_client_message) (completed-append peer (fragments t) gs [])
            ∙ map-append new_client_message (completed peer (fragments t) [])
                (completed peer gs (left_over peer (fragments t) []))
            ∙ ap₂ ◌++◌ message
                (ap (λ j. map new_client_message (completed peer gs j)) rest ∙ messages),
      )

  -- If at the start no message waits, the shared buffer is empty and each session's address is not
  -- known yet or that of its peer, and the fragments that the library reports are those of texts
  -- that arrive one after the other, in whatever sessions, each an object no larger than the
  -- buffer, cut in any way with no fragment behind the first empty: however the fragments are
  -- grouped into calls, the loop handles exactly these texts, each once, in their order, as a
  -- whole (up to a zero byte) and with the address of its session's peer, it leaves nothing
  -- behind in either buffer, and it faults exactly if the handling of one of the texts does. An
  -- address of 15 bytes, whose terminator goes past its array into the padding, is no exception.
  pub start_websocketserver-texts :
      {S : Type 0} (handle : ClientMessage → S → Option S) (rounds : List (List Fragment))
      (ts : List Text) (s : S) (st : Service S)
      → concat_map (λ fs. fs) rounds ≡ concat_map fragments ts
      → All IsText ts
      → Idle peer handle [] s st
      → Serves peer handle
          (start_websocketserver peer handle rounds st)
          []
          (handle_all handle (map text_message ts) s)
  start_websocketserver-texts handle rounds ts s st same h idle =
      let (rest, messages) = texts-completed ts h in
      let served = start_websocketserver-Serves peer handle rounds [] s st idle in
      rw (same, messages, rest) at served
