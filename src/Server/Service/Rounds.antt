-- ===== src/Server/Service/Rounds.antt =====
-- The loop handles the messages in the order in which they are complete, however the library
-- groups the fragments.
use mathlib.Core.List.{map-append}
use esp32_fl.Base.{
  ℕ, ◌≤◌, ◌≡◌, refl, sym, ap, ap₂, ◌∙◌, inl, inr, Option, none, some, List, [], ◌∷◌, ◌++◌, map,
  ◌==◌, ==_iff, arith, length, length-map, concat_map, append-nil, Bool-cases, Option-cases, ◌>>=◌,
}
use esp32_fl.Network.Chain.{Chain}
use esp32_fl.Server.WebSocket.{ClientMessage, Reply, too_big, waiting, inserted, overrun}
use esp32_fl.Server.WebSocket.Reassembly.{callback_receive-known}
use esp32_fl.Server.Buffer.{new_client_message, insert_buffer_client_message}
use esp32_fl.Server.Buffer.Queue.{Holds}
use esp32_fl.Server.Buffer.Order.{insert_all, handle_all, Drains, handle_message-insert_all}
use esp32_fl.Server.Service.{
  Fragment, Service, insert_reply, receive_fragment, receive_fragments, service_round,
  start_websocketserver,
}
use esp32_fl.Server.Service.Completed.{
  reply_messages, taken, left_over, completed, left_over-append, completed-append, completed-length,
  IsKnown,
}

module _ (peer : ℕ → List ℕ) {S : Type 0} (handle : ClientMessage → S → Option S) where
  -- The state behind fragments.
  record Received (fs : List Fragment) (st : Service S) (st' : Service S) : Type 0 where
    pub json : st'.received_json ≡ left_over peer fs st.received_json
    pub known : IsKnown peer st'.client_ip
    pub buffer : st'.buffer ≡ insert_all (completed peer fs st.received_json) st.buffer
    pub server : st'.server ≡ st.server

  insert_reply-all :
      (r : Reply) (b : Chain ClientMessage) → insert_reply r b ≡ insert_all (reply_messages r) b
  insert_reply-all too_big b = refl
  insert_reply-all waiting b = refl
  insert_reply-all (inserted m) b = refl
  insert_reply-all (overrun m) b = refl

  insert_all-append :
      (ms ns : List ClientMessage) (b : Chain ClientMessage)
      → insert_all (ms ++ ns) b ≡ insert_all ns (insert_all ms b)
  insert_all-append [] ns b = refl
  insert_all-append (m ∷ ms) ns b = insert_all-append ms ns (insert_buffer_client_message m b)

  receive_fragment-Received :
      (f : Fragment) (st : Service S)
      → IsKnown peer st.client_ip
      → Received (f ∷ []) st (receive_fragment peer handle f st)
  unfolding receive_fragment
  receive_fragment-Received f st known =
      let (json, reply, ip) =
        callback_receive-known (peer f.session) f.chunk st.received_json (st.client_ip f.session)
          (known f.session) in
      record {
        json = json;
        known = λ n. elim (Bool-cases (n == f.session)) [
          | inl same ↦ let e : n ≡ f.session = (==_iff n f.session).0 same in rw (same, e) ip
          | inr other ↦ rw other (known n)
        ];
        buffer =
            ap (λ r. insert_reply r st.buffer) reply
            ∙ insert_reply-all (taken peer f st.received_json).1 st.buffer
            ∙ ap (λ ms. insert_all ms st.buffer)
                (sym (append-nil (reply_messages (taken peer f st.received_json).1)));
        server = refl;
      }

  receive_fragments-Received :
      (fs : List Fragment) (st : Service S)
      → IsKnown peer st.client_ip
      → Received fs st (receive_fragments peer handle fs st)
  receive_fragments-Received [] st known = record {
    json = refl;
    known = known;
    buffer = refl;
    server = refl;
  }
  receive_fragments-Received (f ∷ fs) st known =
      let one = receive_fragment-Received f st known in
      let rest = receive_fragments-Received fs (receive_fragment peer handle f st) one.known in
      let head = reply_messages (taken peer f st.received_json).1 in
      let tail = completed peer fs (taken peer f st.received_json).0.received_json in
      let now : (receive_fragment peer handle f st).buffer ≡ insert_all head st.buffer =
        one.buffer ∙ ap (λ ms. insert_all ms st.buffer) (append-nil head) in
      record {
        json = rest.json ∙ ap (left_over peer fs) one.json;
        known = rest.known;
        buffer =
            rest.buffer
            ∙ ap₂ insert_all (ap (completed peer fs) one.json) now
            ∙ sym (insert_all-append head tail st.buffer);
        server = rest.server ∙ one.server;
      }

  -- Between two rounds: no message waits.
  pub record Idle (json : List ℕ) (s : S) (st : Service S) : Type 0 where
    pub rest : st.received_json ≡ json
    pub server : st.server ≡ s
    pub known : IsKnown peer st.client_ip
    pub empty : Holds st.buffer []

  -- `result` is that of the loop on the server's state.
  abbrev pub Serves : Option (Service S) → List ℕ → Option S → Type 0
  Serves done json none = done ≡ none
  Serves done json (some s) = (st : Service S) × (done ≡ some st) × Idle json s st

  Drained :
      (fs : List Fragment) (st : Service S) (result : Option S)
      → Received fs st (receive_fragments peer handle fs st)
      → Drains handle
          (length fs)
          (receive_fragments peer handle fs st).buffer
          (receive_fragments peer handle fs st).server
          result
      → Serves (service_round peer handle fs st) (left_over peer fs st.received_json) result
  unfolding service_round
  Drained fs st none r d = rw d refl
  Drained fs st (some s) r (b, runs, empty) = (
    record (receive_fragments peer handle fs st) { buffer = b; server = s },
    rw runs refl,
    record { rest = r.json; server = refl; known = r.known; empty = empty },
  )

  service_round-Serves :
      (fs : List Fragment) (json : List ℕ) (s : S) (st : Service S)
      → Idle json s st
      → Serves
          (service_round peer handle fs st)
          (left_over peer fs json)
          (handle_all handle (map new_client_message (completed peer fs json)) s)
  service_round-Serves fs json s st idle =
      let r = receive_fragments-Received fs st idle.known in
      let ms = completed peer fs st.received_json in
      let enough : length (map new_client_message ms) ≤ length fs =
        omega
          (arith, length-map ms new_client_message, completed-length peer fs st.received_json) in
      let drains =
        handle_message-insert_all handle [] ms (length fs) st.buffer st.server idle.empty enough in
      let drained = Drained fs st _ r (rw (r.buffer, r.server) drains) in
      rw (← idle.rest, ← idle.server) drained

  handle_all-append :
      (ms ns : List ClientMessage) (s : S)
      → handle_all handle (ms ++ ns) s ≡ (do s' ← handle_all handle ms s; handle_all handle ns s')
  handle_all-append [] ns s = refl
  handle_all-append (m ∷ ms) ns s = elim (Option-cases (handle m s)) [
    | inl fault ↦ rw fault refl
    | inr (s', ok) ↦ rw ok (handle_all-append ms ns s')
  ]

  -- If no message waits at the start and each session's address is not known yet or that of its
  -- peer: however the library groups the fragments into calls, the loop handles the messages that
  -- the fragments complete, each once and in the order in which they are complete, leaves what is
  -- incomplete in the shared buffer and no message waiting, and faults exactly if the handling of
  -- one of these messages does.
  pub start_websocketserver-Serves :
      (rounds : List (List Fragment)) (json : List ℕ) (s : S) (st : Service S)
      → Idle json s st
      → Serves
          (start_websocketserver peer handle rounds st)
          (left_over peer (concat_map (λ fs. fs) rounds) json)
          (handle_all handle
            (map new_client_message (completed peer (concat_map (λ fs. fs) rounds) json))
            s)
  unfolding start_websocketserver
  start_websocketserver-Serves [] json s st idle = (st, refl, idle)
  start_websocketserver-Serves (fs ∷ rounds) json s st idle =
      let rest = concat_map (λ gs. gs) rounds in
      let json' = left_over peer fs json in
      let first = map new_client_message (completed peer fs json) in
      let later = map new_client_message (completed peer rest json') in
      let one = service_round-Serves fs json s st idle in
      let both : map new_client_message (completed peer (fs ++ rest) json) ≡ first ++ later =
        ap (map new_client_message) (completed-append peer fs rest json)
        ∙ map-append new_client_message (completed peer fs json) (completed peer rest json') in
      rw (left_over-append peer fs rest json, both, handle_all-append first later s)
        (elim (Option-cases (handle_all handle first s)) [
          | inl fault ↦ let fault' = rw fault at one in rw (fault, fault') refl
          | inr (s', ok) ↦
              let (st', runs, idle') = rw ok at one in
              rw (ok, runs) (start_websocketserver-Serves rounds json' s' st' idle')
        ])
