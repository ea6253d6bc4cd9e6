-- ===== src/Server/Buffer/Order.antt =====
-- The messages are handled in the order of their arrival.
use esp32_fl.Base.{
  ℕ, zero, suc, ◌≡◌, refl, ◌∙◌, ◌≤◌, true, false, Option, none, some, List, [], ◌∷◌, ◌++◌, map,
  arith, get_elem?, length, append-nil, append_assoc, Option-cases, inl, inr, ◌>>=◌,
}
use esp32_fl.Network.Chain.{Cell, Chain, cell}
use esp32_fl.Network.Chain.Linked.{linked, get_elem?-append}
use esp32_fl.Server.WebSocket.{ClientMessage}
use esp32_fl.Server.Buffer.{
  new_client_message, is_buffer_client_message_empty, remove_first, insert_buffer_client_message,
  remove_buffer_client_message, handle_message,
}
use esp32_fl.Server.Buffer.Queue.{Front, Holds, append_tail-Holds, remove_first-Holds}

abbrev pub insert_all : List ClientMessage → Chain ClientMessage → Chain ClientMessage
insert_all [] b = b
insert_all (m ∷ ms) b = insert_all ms (insert_buffer_client_message m b)

insert_all-Holds :
    (ms xs : List ClientMessage) (b : Chain ClientMessage)
    → Holds b xs
    → Holds (insert_all ms b) (xs ++ map new_client_message ms)
unfolding insert_buffer_client_message
insert_all-Holds [] xs b h = rw (append-nil xs) h
insert_all-Holds (m ∷ ms) xs b h =
    let one = append_tail-Holds b xs (new_client_message m) h in
    rw (← append_assoc xs (new_client_message m ∷ []) (map new_client_message ms)) (
      insert_all-Holds ms (xs ++ (new_client_message m ∷ [])) (insert_buffer_client_message m b)
        one)

module _ {A : Type 0} where
  empty-true : (b : Chain A) → Holds b [] → is_buffer_client_message_empty b ≡ true
  unfolding is_buffer_client_message_empty
  empty-true b (f, l) = rw l

  value_at :
      (b : Chain A) (x : A) (xs : List A)
      → Front b x xs
      → (i : ℕ) × (c : Cell A) × (b.first ≡ some i) × (get_elem? b.cells i ≡ some c) × (c.value ≡ x)
  value_at b x [] h = (
    length h.old,
    cell x none none,
    h.first,
    rw h.nodes (get_elem?-append h.old (cell x none none) [] (length h.old) refl),
    refl,
  )
  value_at b x (y ∷ ys) h =
      let n = length h.old in
      let c : Cell A = cell x none (some (suc n)) in
      (
        n,
        c,
        h.first,
        rw h.nodes (get_elem?-append h.old c (linked (suc n) (some n) (y ∷ ys) none) n refl),
        refl,
      )

  empty-false :
      (b : Chain A) (x : A) (xs : List A) → Front b x xs → is_buffer_client_message_empty b ≡ false
  unfolding is_buffer_client_message_empty
  empty-false b x xs h = rw h.last

module _ {S : Type 0} (handle : ClientMessage → S → Option S) where
  -- The messages, one after the other.
  abbrev pub handle_all : List ClientMessage → S → Option S
  handle_all [] s = some s
  handle_all (m ∷ ms) s = do s' ← handle m s; handle_all ms s'

  -- `result` is that of the loop on the state, and the buffer is empty behind it.
  abbrev pub Drains : ℕ → Chain ClientMessage → S → Option S → Type 0
  Drains fuel b s none = handle_message handle fuel b s ≡ none
  Drains fuel b s (some s') =
      (b' : Chain ClientMessage) × (handle_message handle fuel b s ≡ some (b', s')) × Holds b' []

  Drains-congr :
      (fuel : ℕ) (b b' : Chain ClientMessage) (s s' : S) (result : Option S)
      → handle_message handle (suc fuel) b s ≡ handle_message handle fuel b' s'
      → Drains fuel b' s' result
      → Drains (suc fuel) b s result
  Drains-congr fuel b b' s s' none more d = more ∙ d
  Drains-congr fuel b b' s s' (some t) more (b'', runs, empty) = (b'', more ∙ runs, empty)

  first_handled :
      (b b' : Chain ClientMessage) (m : ClientMessage) (ms : List ClientMessage) (s : S)
      → Front b m ms
      → remove_first b ≡ some b'
      → remove_buffer_client_message handle b s ≡ (do s' ← handle m s; some (b', s'))
  unfolding remove_buffer_client_message
  first_handled b b' m ms s front removed =
      let (i, c, first, at, value) = value_at b m ms front in
      rw (empty-false b m ms front, removed, first, at, value)

  handle_message-nil :
      (fuel : ℕ) (b : Chain ClientMessage) (s : S)
      → Holds b []
      → handle_message handle fuel b s ≡ some (b, s)
  unfolding handle_message
  handle_message-nil zero b s h = rw (empty-true b h, handle_message)
  handle_message-nil (suc fuel) b s h = rw (empty-true b h, handle_message)

  handle_message-cons :
      (fuel : ℕ) (b b' : Chain ClientMessage) (m : ClientMessage) (ms : List ClientMessage) (s : S)
      → Front b m ms
      → remove_first b ≡ some b'
      → handle_message handle (suc fuel) b s
        ≡ (do s' ← handle m s; handle_message handle fuel b' s')
  unfolding handle_message
  handle_message-cons fuel b b' m ms s front removed = elim (Option-cases (handle m s)) [
    | inl fault ↦
        rw (fault, empty-false b m ms front, handle_message)
          (rw (first_handled b b' m ms s front removed, fault))
    | inr (s', ok) ↦
        rw (ok, empty-false b m ms front, handle_message)
          (rw (first_handled b b' m ms s front removed, ok))
  ]

  handle_message-Drains :
      (ms : List ClientMessage) (fuel : ℕ) (b : Chain ClientMessage) (s : S)
      → Holds b ms
      → length ms ≤ fuel
      → Drains fuel b s (handle_all ms s)
  handle_message-Drains [] fuel b s h e = (b, handle_message-nil fuel b s h, h)
  handle_message-Drains (m ∷ ms) zero b s h e = absurd (omega arith)
  handle_message-Drains (m ∷ ms) (suc fuel) b s h e =
      let (b', removed, rest) = remove_first-Holds b m ms h in
      let step = handle_message-cons fuel b b' m ms s h removed in
      elim (Option-cases (handle m s)) [
        | inl fault ↦ rw fault (step ∙ rw fault)
        | inr (s', ok) ↦
            let more : handle_message handle (suc fuel) b s ≡ handle_message handle fuel b' s' =
              step ∙ rw ok in
            rw ok (
              Drains-congr fuel b b' s s' (handle_all ms s') more
                (handle_message-Drains ms fuel b' s' rest (omega arith)))
      ]

  -- Messages that are inserted one after the other are handled in that order, behind those that
  -- the buffer held, and the buffer is empty afterwards; a fault in the handling of one of them is
  -- a fault of the loop. One round of the loop for each message is enough.
  pub handle_message-insert_all :
      (xs ms : List ClientMessage) (fuel : ℕ) (b : Chain ClientMessage) (s : S)
      → Holds b xs
      → length (xs ++ map new_client_message ms) ≤ fuel
      → Drains fuel (insert_all ms b) s (handle_all (xs ++ map new_client_message ms) s)
  handle_message-insert_all xs ms fuel b s h enough =
      handle_message-Drains (xs ++ map new_client_message ms) fuel (insert_all ms b) s
        (insert_all-Holds ms xs b h) enough
