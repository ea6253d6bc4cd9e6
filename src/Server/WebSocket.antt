-- ===== src/Server/WebSocket.antt =====
-- Receiving a model in websocketserver.c: `is_complete_json`, `get_client_ip` and `callback_echo`.
-- A text is the list of its bytes.
pub mod Reassembly
pub mod Bounds
use esp32_fl.Base.{
  ℕ, zero, suc, ◌+◌, Bool, true, false, ◌&&◌, not, Option, none, some, List, [], ◌∷◌, ◌++◌, ◌==◌,
  ltb, if◌then◌else◌, length,
}

abbrev pub max_json_size : ℕ
max_json_size = 16384

abbrev pub ipv4_max_len : ℕ
ipv4_max_len = 16

-- The loop over the bytes, with its two counters.
count_braces : List ℕ → ℕ → ℕ → ℕ × ℕ
count_braces [] opened closed = (opened, closed)
count_braces (c ∷ cs) opened closed =
    count_braces cs (if c == b'{' then suc opened else opened)
      (if c == b'{' then closed else if c == b'}' then suc closed else closed)

unfoldable pub is_complete_json : List ℕ → Bool
unfolding count_braces
is_complete_json cs =
    let (opened, closed) = count_braces cs 0 0 in (opened == closed) && ltb 0 opened

-- `strrchr(s, ':') + 1`
pub after_last_colon : List ℕ → Option (List ℕ)
after_last_colon [] = none
after_last_colon (c ∷ cs) = elim (after_last_colon cs) [
  | some rest ↦ some rest
  | none ↦ if c == b':' then some cs else none
]

abbrev pub take : ℕ → List ℕ → List ℕ
take zero cs = []
take (suc n) [] = []
take (suc n) (c ∷ cs) = c ∷ take n cs

-- The peer's address is the library's, up to its terminator.
pub get_client_ip : List ℕ → List ℕ
unfolding after_last_colon
get_client_ip full_ip =
    let short = take 15 full_ip in
    elim (after_last_colon full_ip) [
      | none ↦ short
      | some part ↦ if ltb (length part) ipv4_max_len then take 15 part else short
    ]

-- `received_json[0 … received_json_len)`, which all connections share, and `client_ip` of the
-- session.
pub record Receiver : Type 0 where
  pub received_json : List ℕ
  pub client_ip : List ℕ

-- What is put into the message buffer: text, length and address, whose array has 15 bytes.
pub record ClientMessage : Type 0 where
  pub message : List ℕ
  pub length : ℕ
  pub ip_id : List ℕ

-- `overrun` is an insertion whose `strcpy` writes past `ip_id[15]`: `get_client_ip` gives 15 bytes
-- at most, and the terminator behind so many goes into the struct's padding.
pub data Reply : Type 0 where
  too_big : Reply
  waiting : Reply
  inserted : ClientMessage → Reply
  overrun : ClientMessage → Reply

-- The address and its terminator are to fit `ip_id[15]`.
abbrev pub reply_of : ClientMessage → Reply
reply_of m = if ltb (length m.ip_id) 15 then inserted m else overrun m

abbrev pub is_empty : List ℕ → Bool
is_empty [] = true
is_empty (c ∷ cs) = false

-- `LWS_CALLBACK_RECEIVE`. A text that is too big gives -1, and everything stays as it is.
pub callback_receive : List ℕ → List ℕ → Receiver → Receiver × Reply
callback_receive peer chunk r =
    let json = r.received_json ++ chunk in
    let ip = if is_empty r.client_ip then get_client_ip peer else r.client_ip in
    if ltb max_json_size (length r.received_json + length chunk)
    then (r, too_big)
    else if is_complete_json json
    then (
      record { received_json = []; client_ip = ip },
      reply_of (record { message = json; length = length json; ip_id = ip }),
    )
    else (record r { received_json = json }, waiting)
