-- ===== src/Server/WebSocket/Bounds.antt =====
-- What a session puts into the message buffer is bounded, whatever its fragments are.
use esp32_fl.Base.{
  ℕ, zero, suc, ◌≤◌, ◌≡◌, refl, List, [], ◌∷◌, All, Bool-cases, Option-cases, inl, inr, arith, ltb,
  length,
}
use esp32_fl.Server.WebSocket.{
  max_json_size, ipv4_max_len, take, after_last_colon, get_client_ip, Receiver, ClientMessage,
  Reply, too_big, waiting, inserted, overrun, callback_receive, is_empty,
}
use esp32_fl.Server.WebSocket.Reassembly.{
  gather, receive_all, session_ip, Inserted, Bounded, callback_receive_bound,
}

length-take : (n : ℕ) (cs : List ℕ) → length (take n cs) ≤ n
length-take zero cs = omega arith
length-take (suc n) [] = omega arith
length-take (suc n) (c ∷ cs) = omega (arith, length-take n cs)

length-get_client_ip : (full_ip : List ℕ) → length (get_client_ip full_ip) ≤ 15
unfolding get_client_ip
length-get_client_ip full_ip = elim (Option-cases (after_last_colon full_ip)) [
  | inl e ↦
      let same : get_client_ip full_ip ≡ take 15 full_ip = rw (e, get_client_ip) refl in
      rw same (length-take 15 full_ip)
  | inr (part, e) ↦ elim (Bool-cases (ltb (length part) ipv4_max_len)) [
    | inl short ↦
        let same : get_client_ip full_ip ≡ take 15 part = rw (e, get_client_ip, short) refl in
        rw same (length-take 15 part)
    | inr long ↦
        let same : get_client_ip full_ip ≡ take 15 full_ip = rw (e, get_client_ip, long) refl in
        rw same (length-take 15 full_ip)
  ]
]

length-session_ip :
    (peer : List ℕ) (r : Receiver) → length r.client_ip ≤ 15 → length (session_ip peer r) ≤ 15
length-session_ip peer r h = elim (Bool-cases (is_empty r.client_ip)) [
  | inl new ↦ rw new (length-get_client_ip peer)
  | inr known ↦ rw known h
]

-- What is kept of a session.
pub record IsShort (r : Receiver) : Type 0 where
  pub json : length r.received_json ≤ max_json_size
  pub ip : length r.client_ip ≤ 15

-- What is inserted.
pub record IsSmall (m : ClientMessage) : Type 0 where
  pub text : length m.message ≤ max_json_size
  pub whole : m.length ≡ length m.message
  pub address : length m.ip_id ≤ 15

Inserted-IsSmall :
    (peer chunk : List ℕ) (r r' : Receiver) (m : ClientMessage)
    → IsShort r
    → Inserted peer chunk r r' m
    → IsShort r' × IsSmall m
Inserted-IsSmall peer chunk r r' m h (empty, ip, same, fits, whole) =
    let bound = length-session_ip peer r h.ip in
    let address : length m.ip_id ≤ 15 = rw same bound in
    (
      record { json = rw empty (omega arith); ip = rw ip address },
      record { text = fits; whole = rw same refl; address = address },
    )

-- A reply and what comes behind it.
gather-bound :
    (peer chunk : List ℕ) (r r' : Receiver) (reply : Reply) (r'' : Receiver)
    (ms : List ClientMessage)
    → IsShort r
    → Bounded peer chunk r r' reply
    → (IsShort r' → IsShort r'' × All IsSmall ms)
    → IsShort (gather reply (r'', ms)).0 × All IsSmall (gather reply (r'', ms)).1
unfolding Bounded
gather-bound peer chunk r r' too_big r'' ms h (same, big) rest = rest (rw same h)
gather-bound peer chunk r r' waiting r'' ms h (same, fits, part) rest =
    rest (record { json = fits; ip = rw same h.ip })
gather-bound peer chunk r r' (inserted m) r'' ms h (done, short) rest =
    let (short', small) = Inserted-IsSmall peer chunk r r' m h done in
    let (last, later) = rest short' in (last, (small, later))
gather-bound peer chunk r r' (overrun m) r'' ms h (done, long) rest =
    let (short', small) = Inserted-IsSmall peer chunk r r' m h done in
    let (last, later) = rest short' in (last, (small, later))

-- If a session's address has no more than 15 bytes and the buffer no more than `MAX_JSON_SIZE`, it
-- stays so whatever fragments arrive, and every message that is inserted has a text of no more than
-- `MAX_JSON_SIZE` bytes, the length of its text, and an address of no more than 15 bytes, so that
-- only the terminator of an address is ever written past `ip_id`.
pub receive_all_bound :
    (peer : List ℕ) (cs : List (List ℕ)) (r : Receiver)
    → IsShort r
    → IsShort (receive_all peer cs r).0 × All IsSmall (receive_all peer cs r).1
unfolding receive_all
receive_all_bound peer [] r h = (h, tt)
receive_all_bound peer (c ∷ cs) r h =
    let next = callback_receive peer c r in
    let rest = receive_all peer cs next.0 in
    gather-bound peer c r next.0 next.1 rest.0 rest.1 h (callback_receive_bound peer c r)
      (receive_all_bound peer cs next.0)
