-- ===== src/Server/Registry/Overrun.antt =====
-- The addresses that do not fit the array of a node.
use esp32_fl.Base.{String, ◌≡◌, ◌≢◌, ◌≤◌, ◌↔◌, false, arith, len}
use esp32_fl.Server.{FederatedLearning}
use esp32_fl.Server.Registry.{overrun, is_registered, register_node, handle_get_noderegister}

module _ {F : Type 0} (ip : String) (fl : FederatedLearning F) where
  -- There is room, the client is new, and its address has 15 characters or more.
  pub record Overruns : Type 0 where
    pub room : fl.nodecontrol.clientnodesregistered ≢ fl.nodecontrol.clientnodes
    pub unknown : is_registered ip fl.nodecontrol.nodes ≡ false
    pub long : 15 ≤ len ip

  -- A registration writes past `ip_id` exactly there.
  pub handle_get_noderegister-overrun : ((handle_get_noderegister ip fl).1 ≡ overrun) ↔ Overruns
  unfolding handle_get_noderegister register_node
  handle_get_noderegister-overrun = (
    λ e. record { room = ground (arith, e); unknown = ground (arith, e); long = ground (arith, e) },
    λ o. ground (arith, o.room, o.unknown, o.long),
  )
