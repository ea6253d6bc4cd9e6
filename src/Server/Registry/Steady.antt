-- ===== src/Server/Registry/Steady.antt =====
-- The node control over an interaction and over registrations.
use esp32_fl.Base.{
  String, ◌≡◌, sym, ◌≢◌, ◌≤◌, ◌<◌, inl, inr, true, false, [], ◌∷◌, All, All-append, arith, ◌==◌,
  Bool-cases, int_mod,
}
use esp32_fl.Server.{NodeControl, FederatedLearning}
use esp32_fl.Server.Registry.{
  is_registered, register_node, add_node, new_node, handle_get_noderegister,
}
use esp32_fl.Server.Registry.Valid.{IsValid, add_node-IsValid}
use esp32_fl.Server.Aggregation.Pending.{pending, mem}
use esp32_fl.Server.Aggregation.Level.{IsLevel}

-- The node control: no node is more than one message ahead, and before all places are taken there
-- was no interaction.
pub record IsSteady {F : Type 0} (c : NodeControl F) : Type 0 where
  pub valid : IsValid c
  pub small : c.interactioncycle < int_mod
  pub within : c.currentinteraction ≤ c.interactioncycle
  pub levels : All (IsLevel c.currentinteraction) c.nodes
  pub early : c.clientnodesregistered ≢ c.clientnodes → c.currentinteraction ≡ 0

-- The server still awaits a model of this device.
pub record IsAwaited {F : Type 0} (ip : String) (c : NodeControl F) : Type 0 where
  pub awaited : mem ip (pending c.currentinteraction c.nodes) ≡ true
  pub unfinished : c.currentinteraction ≢ c.interactioncycle
  pub full : c.clientnodesregistered ≡ c.clientnodes

module _ {F : Type 0} where
  add_node-IsSteady :
      (ip : String) (c : NodeControl F)
      → IsSteady c
      → c.clientnodesregistered ≢ c.clientnodes
      → is_registered ip c.nodes ≡ false
      → IsSteady (add_node ip c)
  unfolding add_node
  add_node-IsSteady ip c h room new =
      let zero_yet : c.currentinteraction ≡ 0 = h.early room in
      record {
        valid = add_node-IsValid ip c h.valid room new;
        small = h.small;
        within = h.within;
        levels =
            All-append (IsLevel c.currentinteraction) c.nodes (new_node ip ∷ []) h.levels
              (inl (sym zero_yet), tt);
        early = λ _. zero_yet;
      }

  -- A registration keeps the node control steady, and the models that are awaited.
  register_node-IsSteady :
      (ip : String) (c : NodeControl F)
      → IsSteady c
      → IsSteady (register_node ip c).0
        × ((x : String) → IsAwaited x c → IsAwaited x (register_node ip c).0)
  unfolding register_node
  register_node-IsSteady ip c h = elim (Bool-cases (c.clientnodesregistered == c.clientnodes)) [
    | inl full ↦ rw full (h, λ x a. a)
    | inr room ↦ elim (Bool-cases (is_registered ip c.nodes)) [
      | inl old ↦ rw (room, old) (h, λ x a. a)
      | inr new ↦
          rw (room, new)
            (add_node-IsSteady ip c h (ground arith) new, λ x a. absurd (ground (arith, a.full)))
    ]
  ]

  pub handle_get_noderegister-IsSteady :
      (ip : String) (fl : FederatedLearning F)
      → IsSteady fl.nodecontrol
      → IsSteady (handle_get_noderegister ip fl).0.nodecontrol
        × ((x : String)
            → IsAwaited x fl.nodecontrol
            → IsAwaited x (handle_get_noderegister ip fl).0.nodecontrol)
  unfolding handle_get_noderegister
  handle_get_noderegister-IsSteady ip fl h = register_node-IsSteady ip fl.nodecontrol h
