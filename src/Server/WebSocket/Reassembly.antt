-- ===== src/Server/WebSocket/Reassembly.antt =====
-- A text is put together from its fragments, however it was cut.
use esp32_fl.Base.{
  ℕ, ◌+◌, ◌≤◌, ◌<◌, ◌≡◌, ◌≢◌, refl, sym, ◌∙◌, ap, Bool-cases, ◌⊎◌, inl, inr, true, false, List, [],
  ◌∷◌, ◌++◌, arith, ltb, if◌then◌else◌, length, length-append, concat_map, All, append-nil,
  append_assoc,
}
use esp32_fl.Server.WebSocket.{
  max_json_size, is_complete_json, get_client_ip, Receiver, ClientMessage, Reply, too_big, waiting,
  inserted, overrun, reply_of, callback_receive, is_empty,
}

abbrev pub gather : Reply → Receiver × List ClientMessage → Receiver × List ClientMessage
gather too_big x = x
gather waiting x = x
gather (inserted m) (r, ms) = (r, m ∷ ms)
gather (overrun m) (r, ms) = (r, m ∷ ms)

-- The fragments of one session in turn, and the messages that they complete.
unfoldable pub receive_all : List ℕ → List (List ℕ) → Receiver → Receiver × List ClientMessage
receive_all peer [] r = (r, [])
receive_all peer (c ∷ cs) r =
    gather (callback_receive peer c r).1 (receive_all peer cs (callback_receive peer c r).0)

abbrev pub join : List (List ℕ) → List ℕ
join cs = concat_map (λ c. c) cs

-- The text is complete, and no shorter beginning of it is.
pub record IsObject (text : List ℕ) : Type 0 where
  pub complete : is_complete_json text ≡ true
  pub no_sooner : (p q : List ℕ) → p ++ q ≡ text → q ≢ [] → is_complete_json p ≡ false

-- The address that goes with the messages of the session.
abbrev pub session_ip : List ℕ → Receiver → List ℕ
session_ip peer r = if is_empty r.client_ip then get_client_ip peer else r.client_ip

abbrev pub message_of : List ℕ → List ℕ → ClientMessage
message_of text ip = record { message = text; length = length text; ip_id = ip }

-- A text is put together and inserted, and the buffer is empty.
abbrev pub Inserted : List ℕ → List ℕ → Receiver → Receiver → ClientMessage → Type 0
Inserted peer chunk r r' m =
    (r'.received_json ≡ [])
    × (r'.client_ip ≡ m.ip_id)
    × (m ≡ message_of (r.received_json ++ chunk) (session_ip peer r))
    × (length m.message ≤ max_json_size)
    × (is_complete_json m.message ≡ true)

-- What becomes of a fragment: it is refused and nothing changes, it is kept behind what was there,
-- or it completes a text, which is inserted. What is copied to the buffer fits `MAX_JSON_SIZE`
-- bytes, and with its terminator the array; the address fits its array of 15 exactly where the
-- insertion is no overrun.
unfoldable pub Bounded : List ℕ → List ℕ → Receiver → Receiver → Reply → Type 0
Bounded peer chunk r r' too_big = (r' ≡ r) × (max_json_size < length r.received_json + length chunk)
Bounded peer chunk r r' waiting =
    (r' ≡ record r { received_json = r.received_json ++ chunk })
    × (length r'.received_json ≤ max_json_size)
    × (is_complete_json r'.received_json ≡ false)
Bounded peer chunk r r' (inserted m) = Inserted peer chunk r r' m × (length m.ip_id < 15)
Bounded peer chunk r r' (overrun m) = Inserted peer chunk r r' m × (15 ≤ length m.ip_id)

Bounded-reply_of :
    (peer chunk : List ℕ) (r r' : Receiver) (m : ClientMessage)
    → Inserted peer chunk r r' m
    → Bounded peer chunk r r' (reply_of m)
unfolding Bounded
Bounded-reply_of peer chunk r r' m done = elim (Bool-cases (ltb (length m.ip_id) 15)) [
  | inl short ↦ rw short (done, ground arith)
  | inr long ↦ rw long (done, ground arith)
]

-- A fragment is refused, and changes nothing, exactly where it and the bytes that are kept are
-- more than `MAX_JSON_SIZE`. Otherwise they are put together, no more than `MAX_JSON_SIZE` bytes,
-- and kept if the text is not complete, and inserted as a whole with its length and the session's
-- address, the buffer being emptied, if it is; the reply tells exactly whether the address is
-- copied past its array of 15 bytes.
pub callback_receive_bound :
    (peer chunk : List ℕ) (r : Receiver)
    → Bounded peer chunk r (callback_receive peer chunk r).0 (callback_receive peer chunk r).1
unfolding callback_receive Bounded
callback_receive_bound peer chunk r =
    let total = length-append r.received_json chunk in
    elim (Bool-cases (ltb max_json_size (length r.received_json + length chunk))) [
      | inl big ↦ rw big (refl, ground arith)
      | inr small ↦ elim (Bool-cases (is_complete_json (r.received_json ++ chunk))) [
        | inl whole ↦
            rw (small, whole)
              (Bounded-reply_of peer chunk r _ _ (refl, refl, refl, ground (arith, total), whole))
        | inr part ↦ rw (small, part) (refl, ground (arith, total), part)
      ]
    ]

module _ (peer chunk : List ℕ) (r : Receiver)
    (fits : length (r.received_json ++ chunk) ≤ max_json_size) where
  receive-waiting :
      is_complete_json (r.received_json ++ chunk) ≡ false
      → callback_receive peer chunk r
        ≡ (record r { received_json = r.received_json ++ chunk }, waiting)
  unfolding callback_receive
  receive-waiting e = ground (arith, length-append r.received_json chunk)

  receive-inserted :
      is_complete_json (r.received_json ++ chunk) ≡ true
      → callback_receive peer chunk r ≡ (
        record { received_json = []; client_ip = session_ip peer r },
        reply_of (message_of (r.received_json ++ chunk) (session_ip peer r)),
      )
  unfolding callback_receive
  receive-inserted e =
      let small : ltb max_json_size (length r.received_json + length chunk) ≡ false =
        ground (arith, length-append r.received_json chunk) in
      rw (small, e)

gather-reply_of :
    (m : ClientMessage) (r : Receiver) (ms : List ClientMessage)
    → gather (reply_of m) (r, ms) ≡ (r, m ∷ ms)
gather-reply_of m r ms = elim (Bool-cases (ltb (length m.ip_id) 15)) [
  | inl short ↦ rw short refl
  | inr long ↦ rw long refl
]

module _ (peer c : List ℕ) (r : Receiver) {r' : Receiver} where
  receive_all-waiting :
      (cs : List (List ℕ))
      → callback_receive peer c r ≡ (r', waiting)
      → receive_all peer (c ∷ cs) r ≡ receive_all peer cs r'
  unfolding receive_all
  receive_all-waiting cs e = rw e

  receive_all-last :
      {m : ClientMessage}
      → callback_receive peer c r ≡ (r', reply_of m)
      → receive_all peer (c ∷ []) r ≡ (r', m ∷ [])
  unfolding receive_all
  receive_all-last {m} e = rw e (gather-reply_of m r' [])

append-ne-nil : (c rest : List ℕ) → c ≢ [] → c ++ rest ≢ []
append-ne-nil [] rest h e = h refl
append-ne-nil (x ∷ c) rest h e = cc

-- Where what the buffer holds and the fragments together are a text that fits the buffer, that is
-- complete and of which no shorter beginning is complete, and no fragment behind the first is
-- empty: the text is inserted once and as a whole, whatever the fragments are, with the address of
-- the session, and the buffer is empty afterwards.
pub receive_all-join :
    (peer : List ℕ) (cs : List (List ℕ)) (c : List ℕ) (r : Receiver)
    → All (λ d. d ≢ []) cs
    → IsObject (r.received_json ++ join (c ∷ cs))
    → length (r.received_json ++ join (c ∷ cs)) ≤ max_json_size
    → receive_all peer (c ∷ cs) r ≡ (
      record { received_json = []; client_ip = session_ip peer r },
      message_of (r.received_json ++ join (c ∷ cs)) (session_ip peer r) ∷ [],
    )
receive_all-join peer [] c r h o fits =
    let whole : r.received_json ++ (c ++ []) ≡ r.received_json ++ c = rw (append-nil c) in
    rw whole (
      receive_all-last peer c r
        (receive-inserted peer c r (rw (← whole) fits) (rw (← whole) o.complete)))
receive_all-join peer (d ∷ cs) c r (h, hs) o fits =
    let sofar = r.received_json ++ c in
    let rest = join (d ∷ cs) in
    let whole : r.received_json ++ (c ++ rest) ≡ sofar ++ rest =
      sym (append_assoc r.received_json c rest) in
    let small : length sofar ≤ max_json_size = omega (
      arith,
      length-append r.received_json (c ++ rest),
      length-append c rest,
      length-append r.received_json c,
    ) in
    let next =
      receive_all-join peer cs d (record r { received_json = sofar }) hs (rw (← whole) o)
        (rw (← whole) fits) in
    let waits =
      receive-waiting peer c r small
        (o.no_sooner sofar rest (sym whole) (append-ne-nil d (join cs) h)) in
    rw whole (receive_all-waiting peer c r (d ∷ cs) waits ∙ next)

known_ip :
    (peer ip : List ℕ)
    → (ip ≡ []) ⊎ (ip ≡ get_client_ip peer)
    → (if is_empty ip then get_client_ip peer else ip) ≡ get_client_ip peer
known_ip peer ip (inl e) = rw e refl
known_ip peer ip (inr e) = elim (Bool-cases (is_empty ip)) [
  | inl none_yet ↦ rw none_yet refl
  | inr some_ip ↦ rw some_ip e
]

-- A session whose address is known takes a fragment as it does before.
pub callback_receive-known :
    (peer chunk json ip : List ℕ)
    → (ip ≡ []) ⊎ (ip ≡ get_client_ip peer)
    → let new = callback_receive peer chunk (record { received_json = json; client_ip = [] }) in
      let known = callback_receive peer chunk (record { received_json = json; client_ip = ip }) in
      (known.0.received_json ≡ new.0.received_json)
      × (known.1 ≡ new.1)
      × ((known.0.client_ip ≡ []) ⊎ (known.0.client_ip ≡ get_client_ip peer))
unfolding callback_receive
callback_receive-known peer chunk json ip h =
    elim (Bool-cases (ltb max_json_size (length json + length chunk))) [
      | inl big ↦ rw big (refl, refl, h)
      | inr small ↦ elim (Bool-cases (is_complete_json (json ++ chunk))) [
        | inl whole ↦
            rw (small, whole)
              (
                refl,
                ap (λ i. reply_of (message_of (json ++ chunk) i)) (known_ip peer ip h),
                inr (known_ip peer ip h),
              )
        | inr part ↦ rw (small, part) (refl, refl, h)
      ]
    ]
