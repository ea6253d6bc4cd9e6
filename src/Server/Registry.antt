-- ===== src/Server/Registry.antt =====
-- `handle_get_noderegister` and `handle_get_checkmodelstatus` of the server's httphandlers.c.
pub mod Valid
pub mod Arrivals
pub mod Status
pub mod Requests
pub mod Steady
pub mod Overrun
use esp32_fl.Base.{
  ℕ, String, Bool, true, false, ◌&&◌, not, Option, none, some, List, [], ◌∷◌, ◌++◌, ◌==◌, str_eq,
  if◌then◌else◌, add_int, ◌>>=◌, ltb, len,
}
use esp32_fl.Server.{ClientNode, NodeControl, FederatedLearning}

-- What the registration answers with, `{"status":…}`. `overrun` is an addition whose `strcpy`
-- writes past `ip_id[15]`; an address of 15 characters puts its terminator into the struct's
-- padding, and the answer is that of `added`.
pub data Registration : Type 0 where
  limit_reached : Registration
  registred : Registration
  added : Registration
  overrun : Registration

-- The address and its terminator fit `ip_id[15]`.
abbrev pub fits_ip_id : String → Bool
fits_ip_id ip = ltb (len ip) 15

-- The loop that clears `ctrl` at each node with this address.
unfoldable pub is_registered : String → List ClientNode → Bool
is_registered ip [] = false
is_registered ip (n ∷ ns) = if str_eq n.ip_id ip then true else is_registered ip ns

-- The loop that stops at the first node with this address; `none` is the null pointer behind the
-- last node.
unfoldable pub find_node : String → List ClientNode → Option ClientNode
find_node ip [] = none
find_node ip (n ∷ ns) = if str_eq n.ip_id ip then some n else find_node ip ns

abbrev pub new_node : String → ClientNode
new_node ip = record { ip_id = ip; interaction = 0 }

module _ {F : Type 0} where
  -- A new node goes behind the last one, and is counted.
  unfoldable pub add_node : String → NodeControl F → NodeControl F
  add_node ip c = record c {
    nodes = c.nodes ++ (new_node ip ∷ []);
    clientnodesregistered = add_int c.clientnodesregistered 1;
  }

  unfoldable pub register_node : String → NodeControl F → NodeControl F × Registration
  unfolding is_registered add_node
  register_node ip c =
      if c.clientnodesregistered == c.clientnodes
      then (c, limit_reached)
      else if is_registered ip c.nodes
      then (c, registred)
      else (add_node ip c, if fits_ip_id ip then added else overrun)

  -- `globalmodelstatus` is raised whenever all places are taken at the end.
  unfoldable pub handle_get_noderegister :
      String → FederatedLearning F → FederatedLearning F × Registration
  unfolding register_node
  handle_get_noderegister ip fl =
      let (c, answer) = register_node ip fl.nodecontrol in
      let full = c.clientnodesregistered == c.clientnodes in
      (
        record fl { globalmodelstatus = if full then 1 else fl.globalmodelstatus; nodecontrol = c },
        answer,
      )

  -- The number that the status request answers with. `none` is the null dereference at a client
  -- that is not registered.
  unfoldable pub handle_get_checkmodelstatus : String → FederatedLearning F → Option ℕ
  unfolding find_node
  handle_get_checkmodelstatus ip fl =
      let c = fl.nodecontrol in
      let status = λ (n : ClientNode). some (
        if (n.interaction == c.currentinteraction) && not (fl.globalmodelstatus == 0)
        then 1
        else 0) in
      if c.currentinteraction == c.interactioncycle
      then some 0
      else if c.clientnodesregistered == c.clientnodes
      then (find_node ip c.nodes >>= status)
      else some 0
