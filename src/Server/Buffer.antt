-- ===== src/Server/Buffer.antt =====
-- The message buffer of the server's websocketserver.c, between the reception of a model and its
-- handling, which happen on the same thread.
pub mod Queue
pub mod Order
use esp32_fl.Base.{
  ℕ, zero, suc, Bool, true, false, Option, none, some, List, [], ◌∷◌, ◌==◌, if◌then◌else◌,
  get_elem?, set, ◌>>=◌,
}
use esp32_fl.Network.Chain.{Ptr, Cell, Chain, append_tail}
use esp32_fl.Server.WebSocket.{ClientMessage}

-- `strdup`: up to the first zero byte.
c_string : List ℕ → List ℕ
c_string [] = []
c_string (c ∷ cs) = let rest = c_string cs in if c == 0 then [] else c ∷ rest

-- The message that a call of `insert_buffer_client_message` puts into the buffer.
pub new_client_message : ClientMessage → ClientMessage
new_client_message m = record m { message = c_string m.message }

abbrev pub same_ptr : Ptr → Ptr → Bool
same_ptr none none = true
same_ptr none (some j) = false
same_ptr (some i) none = false
same_ptr (some i) (some j) = i == j

module _ {A : Type 0} where
  pub is_buffer_client_message_empty : Chain A → Bool
  is_buffer_client_message_empty b = elim b.last [ none ↦ true | some _ ↦ false ]

  -- `p->previous = q`; `none` is the null dereference.
  pub set_previous : Ptr → Ptr → List (Cell A) → Option (List (Cell A))
  set_previous none q cs = none
  set_previous (some i) q cs = do c ← get_elem? cs i; some (set cs i (record c { previous = q }))

  -- The two pointers behind the removal of the first node.
  pub remove_first : Chain A → Option (Chain A)
  remove_first b =
      if same_ptr b.first b.last then some (record b { first = none; last = none }) else (do
        i ← b.first
        c ← get_elem? b.cells i
        cs ← set_previous c.next none b.cells
        some (record b { cells = cs; first = c.next }))

pub insert_buffer_client_message : ClientMessage → Chain ClientMessage → Chain ClientMessage
insert_buffer_client_message m b = append_tail b (new_client_message m)

-- `handle` is `handle_clint_model_message` on the server's state.
module _ {S : Type 0} (handle : ClientMessage → S → Option S) where
  pub remove_buffer_client_message : Chain ClientMessage → S → Option (Chain ClientMessage × S)
  remove_buffer_client_message b s = if is_buffer_client_message_empty b then some (b, s) else (do
    i ← b.first
    c ← get_elem? b.cells i
    s' ← handle c.value s
    b' ← remove_first b
    some (b', s'))

  -- The loop, with fuel for each message.
  pub handle_message : ℕ → Chain ClientMessage → S → Option (Chain ClientMessage × S)
  handle_message zero b s = if is_buffer_client_message_empty b then some (b, s) else none
  handle_message (suc fuel) b s = elim (is_buffer_client_message_empty b) [
    | true ↦ some (b, s)
    | false ↦ do (b', s') ← remove_buffer_client_message b s; handle_message fuel b' s'
  ]
