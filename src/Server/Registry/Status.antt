-- ===== src/Server/Registry/Status.antt =====
-- The status request: its answer on every branch.
use esp32_fl.Base.{
  String, ◌≡◌, refl, ◌≢◌, inl, inr, ◌↔◌, true, false, none, some, List, [], ◌∷◌, arith, str_eq,
  eq_iff, Bool-cases, Option-cases,
}
use esp32_fl.Server.{ClientNode, FederatedLearning}
use esp32_fl.Server.Registry.{is_registered, find_node, handle_get_checkmodelstatus}

find_node-not :
    (ip : String) (ns : List ClientNode) → is_registered ip ns ≡ false → find_node ip ns ≡ none
unfolding is_registered find_node
find_node-not ip [] h = refl
find_node-not ip (n ∷ ns) h = ground (arith, find_node-not ip ns)

find_node-found :
    (ip : String) (ns : List ClientNode)
    → is_registered ip ns ≡ true
    → (n : ClientNode) × (find_node ip ns ≡ some n) × (n.ip_id ≡ ip)
unfolding is_registered find_node
find_node-found ip [] h = cc
find_node-found ip (n ∷ ns) h = elim (Bool-cases (str_eq n.ip_id ip)) [
  | inl e ↦ (n, rw e, (eq_iff n.ip_id ip).0 e)
  | inr e ↦ let (m, p, q) = find_node-found ip ns (rw e at h) in (m, rw e p, q)
]

module _ {F : Type 0} (ip : String) (fl : FederatedLearning F) where
  -- What has to hold for a client to be told that a model is there for it.
  pub record Offered : Type 0 where
    pub client : ClientNode
    pub found : find_node ip fl.nodecontrol.nodes ≡ some client
    pub pending : client.interaction ≡ fl.nodecontrol.currentinteraction
    pub unfinished : fl.nodecontrol.currentinteraction ≢ fl.nodecontrol.interactioncycle
    pub full : fl.nodecontrol.clientnodesregistered ≡ fl.nodecontrol.clientnodes
    pub ready : fl.globalmodelstatus ≢ 0

  -- The request faults exactly where all of this holds.
  pub record Faults : Type 0 where
    pub unfinished : fl.nodecontrol.currentinteraction ≢ fl.nodecontrol.interactioncycle
    pub full : fl.nodecontrol.clientnodesregistered ≡ fl.nodecontrol.clientnodes
    pub unknown : is_registered ip fl.nodecontrol.nodes ≡ false

  -- A client is told 1 exactly when the cycle is unfinished, all places are taken, the model is
  -- ready, and the client is registered and has not yet interacted in the current interaction.
  pub handle_get_checkmodelstatus-one : (handle_get_checkmodelstatus ip fl ≡ some 1) ↔ Offered
  unfolding handle_get_checkmodelstatus
  handle_get_checkmodelstatus-one = (
    λ one. elim (Option-cases (find_node ip fl.nodecontrol.nodes)) [
      | inl absent ↦ absurd (ground arith)
      | inr (n, e) ↦ record {
        client = n;
        found = e;
        pending = ground arith;
        unfinished = ground arith;
        full = ground arith;
        ready = ground arith;
      }
    ],
    λ o. ground (arith, o.found, o.pending, o.unfinished, o.full, o.ready),
  )

  -- The request dereferences a null pointer exactly when the cycle is unfinished, all places are
  -- taken and the client is not registered.
  pub handle_get_checkmodelstatus-fault : (handle_get_checkmodelstatus ip fl ≡ none) ↔ Faults
  unfolding handle_get_checkmodelstatus
  handle_get_checkmodelstatus-fault = (
    λ fault. elim (Bool-cases (is_registered ip fl.nodecontrol.nodes)) [
      | inl old ↦
          let (n, e, same) = find_node-found ip fl.nodecontrol.nodes old in absurd (ground arith)
      | inr new ↦ record { unfinished = ground arith; full = ground arith; unknown = new }
    ],
    λ f. ground (arith, find_node-not ip fl.nodecontrol.nodes f.unknown, f.unfinished, f.full),
  )
