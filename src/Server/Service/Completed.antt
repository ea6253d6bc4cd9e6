-- ===== src/Server/Service/Completed.antt =====
-- What fragments amount to: the messages that they complete, and what is left over.
use esp32_fl.Base.{
  ℕ, ◌≤◌, ◌≡◌, refl, sym, ap, ◌∙◌, ◌⊎◌, List, [], ◌∷◌, ◌++◌, length-append, arith, length,
  append_assoc,
}
use esp32_fl.Server.WebSocket.{
  get_client_ip, Receiver, ClientMessage, Reply, too_big, waiting, inserted, overrun,
  callback_receive,
}
use esp32_fl.Server.Service.{Fragment}

abbrev pub reply_messages : Reply → List ClientMessage
reply_messages too_big = []
reply_messages waiting = []
reply_messages (inserted m) = m ∷ []
reply_messages (overrun m) = m ∷ []

module _ (peer : ℕ → List ℕ) where
  -- A fragment in a session of which nothing is known yet.
  abbrev pub taken : Fragment → List ℕ → Receiver × Reply
  taken f json =
      callback_receive (peer f.session) f.chunk (record { received_json = json; client_ip = [] })

  -- What the shared buffer holds behind the fragments, and the messages that they complete.
  abbrev pub left_over : List Fragment → List ℕ → List ℕ
  left_over [] json = json
  left_over (f ∷ fs) json = left_over fs (taken f json).0.received_json

  abbrev pub completed : List Fragment → List ℕ → List ClientMessage
  completed [] json = []
  completed (f ∷ fs) json =
      reply_messages (taken f json).1 ++ completed fs (taken f json).0.received_json

  pub left_over-append :
      (fs gs : List Fragment) (json : List ℕ)
      → left_over (fs ++ gs) json ≡ left_over gs (left_over fs json)
  left_over-append [] gs json = refl
  left_over-append (f ∷ fs) gs json = left_over-append fs gs (taken f json).0.received_json

  pub completed-append :
      (fs gs : List Fragment) (json : List ℕ)
      → completed (fs ++ gs) json ≡ completed fs json ++ completed gs (left_over fs json)
  completed-append [] gs json = refl
  completed-append (f ∷ fs) gs json =
      ap (λ ms. reply_messages (taken f json).1 ++ ms)
        (completed-append fs gs (taken f json).0.received_json)
      ∙ sym (
          append_assoc (reply_messages (taken f json).1)
            (completed fs (taken f json).0.received_json) _)

  reply_messages-length : (r : Reply) → length (reply_messages r) ≤ 1
  reply_messages-length too_big = omega arith
  reply_messages-length waiting = omega arith
  reply_messages-length (inserted m) = omega arith
  reply_messages-length (overrun m) = omega arith

  pub completed-length :
      (fs : List Fragment) (json : List ℕ) → length (completed fs json) ≤ length fs
  completed-length [] json = omega arith
  completed-length (f ∷ fs) json = omega (
    arith,
    length-append (reply_messages (taken f json).1) (completed fs (taken f json).0.received_json),
    reply_messages-length (taken f json).1,
    completed-length fs (taken f json).0.received_json,
  )

  -- The address of a session is not known yet, or that of its peer.
  abbrev pub IsKnown : (ℕ → List ℕ) → Type 0
  IsKnown ips = (n : ℕ) → (ips n ≡ []) ⊎ (ips n ≡ get_client_ip (peer n))
