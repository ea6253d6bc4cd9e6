-- ===== src/Server/Registry/Requests.antt =====
-- Requests for registration, one after the other: what they leave as it is.
use mathlib.Core.List.{map-append}
use esp32_fl.Base.{
  ℕ, String, ◌≡◌, refl, ◌∙◌, List, [], ◌∷◌, ◌++◌, arith, ◌==◌, Bool-cases, inl, inr,
}
use esp32_fl.Server.{ClientNode, NodeControl, FederatedLearning}
use esp32_fl.Server.Registry.{
  is_registered, new_node, add_node, register_node, handle_get_noderegister,
}
use esp32_fl.Server.Registry.Valid.{IsValid, register_node-IsValid}
use esp32_fl.Server.Registry.Arrivals.{addresses, register_all}
use esp32_fl.Server.Aggregation.Pending.{pending}

pub pending-append :
    (cur : ℕ) (ns ms : List ClientNode) → pending cur (ns ++ ms) ≡ pending cur ns ++ pending cur ms
pending-append cur [] ms = refl
pending-append cur (n ∷ ns) ms = ground (arith, pending-append cur ns ms)

module _ {F : Type 0} where
  -- What a registration leaves as it is, and that a new node is awaited.
  pub record Keeps (c c' : NodeControl F) : Type 0 where
    pub sums : c'.neuralnetwork ≡ c.neuralnetwork
    pub current : c'.currentinteraction ≡ c.currentinteraction
    pub fresh : pending 0 c.nodes ≡ addresses c.nodes → pending 0 c'.nodes ≡ addresses c'.nodes

  Keeps-refl : (c : NodeControl F) → Keeps c c
  Keeps-refl c = record { sums = refl; current = refl; fresh = λ e. e }

  add_node-Keeps : (ip : String) (c : NodeControl F) → Keeps c (add_node ip c)
  unfolding add_node
  add_node-Keeps ip c = record {
    sums = refl;
    current = refl;
    fresh = λ e. rw (
      pending-append 0 c.nodes (new_node ip ∷ []),
      e,
      map-append ClientNode.ip_id c.nodes (new_node ip ∷ []),
    );
  }

  register_node-Keeps : (ip : String) (c : NodeControl F) → Keeps c (register_node ip c).0
  unfolding register_node
  register_node-Keeps ip c = elim (Bool-cases (c.clientnodesregistered == c.clientnodes)) [
    | inl full ↦ rw full (Keeps-refl c)
    | inr room ↦ elim (Bool-cases (is_registered ip c.nodes)) [
      | inl old ↦ rw (room, old) (Keeps-refl c)
      | inr new ↦ rw (room, new) (add_node-Keeps ip c)
    ]
  ]

  -- The networks, the counter and the place in the cycle are the same.
  abbrev pub SameModel : FederatedLearning F → FederatedLearning F → Type 0
  SameModel a b =
      (a.neuralnetwork ≡ b.neuralnetwork)
      × (a.trainingscounter ≡ b.trainingscounter)
      × (a.nodecontrol.neuralnetwork ≡ b.nodecontrol.neuralnetwork)
      × (a.nodecontrol.currentinteraction ≡ b.nodecontrol.currentinteraction)
      × (a.nodecontrol.interactioncycle ≡ b.nodecontrol.interactioncycle)

  register_node-cycle :
      (ip : String) (c : NodeControl F)
      → (register_node ip c).0.interactioncycle ≡ c.interactioncycle
  unfolding register_node add_node
  register_node-cycle ip c = elim (Bool-cases (c.clientnodesregistered == c.clientnodes)) [
    | inl full ↦ rw full
    | inr room ↦ elim (Bool-cases (is_registered ip c.nodes)) [
      | inl old ↦ rw (room, old)
      | inr new ↦ rw (room, new)
    ]
  ]

  pub handle_get_noderegister-SameModel :
      (ip : String) (s : FederatedLearning F) → SameModel (handle_get_noderegister ip s).0 s
  unfolding handle_get_noderegister
  handle_get_noderegister-SameModel ip s =
      let keeps = register_node-Keeps ip s.nodecontrol in
      (refl, refl, keeps.sums, keeps.current, register_node-cycle ip s.nodecontrol)

  -- One request for registration after the other.
  pub arrive : List String → FederatedLearning F → FederatedLearning F
  arrive [] s = s
  arrive (ip ∷ ips) s = arrive ips (handle_get_noderegister ip s).0

  pub arrive-register_all :
      (ips : List String) (s : FederatedLearning F)
      → (arrive ips s).nodecontrol ≡ register_all ips s.nodecontrol
  unfolding arrive register_all handle_get_noderegister
  arrive-register_all [] s = refl
  arrive-register_all (ip ∷ ips) s = arrive-register_all ips (handle_get_noderegister ip s).0

  pub record Arrived (s s' : FederatedLearning F) : Type 0 where
    pub keeps : Keeps s.nodecontrol s'.nodecontrol
    pub counter : s'.trainingscounter ≡ s.trainingscounter
    pub valid : IsValid s.nodecontrol → IsValid s'.nodecontrol

  pub arrive-Arrived : (ips : List String) (s : FederatedLearning F) → Arrived s (arrive ips s)
  unfolding arrive handle_get_noderegister
  arrive-Arrived [] s = record { keeps = Keeps-refl s.nodecontrol; counter = refl; valid = λ v. v }
  arrive-Arrived (ip ∷ ips) s =
      let one = register_node-Keeps ip s.nodecontrol in
      let rest = arrive-Arrived ips (handle_get_noderegister ip s).0 in
      record {
        keeps = record {
          sums = rest.keeps.sums ∙ one.sums;
          current = rest.keeps.current ∙ one.current;
          fresh = λ e. rest.keeps.fresh (one.fresh e);
        };
        counter = rest.counter;
        valid = λ v. rest.valid (register_node-IsValid ip s.nodecontrol v);
      }
