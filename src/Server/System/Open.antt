-- ===== src/Server/System/Open.antt =====
-- An interaction that has begun: a model is ready for a device whose own is awaited.
use esp32_fl.Base.{
  String, ◌≡◌, sym, ◌≢◌, ◌⊎◌, inl, inr, true, Option, some, [], arith, ◌==◌, Bool-cases, any,
}
use esp32_fl.Float.{FloatArith}
use esp32_fl.Network.Metrics.{Evaluation}
use esp32_fl.Server.{NodeControl, FederatedLearning, ClientModel}
use esp32_fl.Server.Registry.{
  is_registered, new_node, add_node, register_node, handle_get_noderegister,
}
use esp32_fl.Server.Registry.Steady.{IsSteady, IsAwaited}
use esp32_fl.Server.Aggregation.{is_pending, handle_clint_model_message}
use esp32_fl.Server.Aggregation.Effect.{
  handle_clint_model_message-Counts, handle_clint_model_message-ready,
}
use esp32_fl.Server.Aggregation.Level.{any-pending_last}
use esp32_fl.Server.System.{
  Posted, System, patient, Step, registers, told, sends, keeps_back, loses, handles, Reach, here,
  next,
}
use esp32_fl.Server.System.Counted.{Counts-awaits}
use esp32_fl.Server.System.Sound.{IsSound, Step-IsSound, first_awaited}

-- Someone is awaited, if there is a node.
abbrev pub Awaits : {F : Type 0} → NodeControl F → Type 0
Awaits c = (any (is_pending c.currentinteraction) c.nodes ≡ true) ⊎ (c.nodes ≡ [])

pub record IsOpen {F : Type 0} (s : FederatedLearning F) : Type 0 where
  pub ready :
      s.nodecontrol.clientnodesregistered ≡ s.nodecontrol.clientnodes → s.globalmodelstatus ≢ 0
  pub awaits : Awaits s.nodecontrol

module _ {F : Type 0} where
  register_node-Awaits :
      (ip : String) (c : NodeControl F) → IsSteady c → Awaits c → Awaits (register_node ip c).0
  unfolding register_node add_node is_registered
  register_node-Awaits ip c h a = elim (Bool-cases (c.clientnodesregistered == c.clientnodes)) [
    | inl full ↦ rw full a
    | inr room ↦ elim (Bool-cases (is_registered ip c.nodes)) [
      | inl old ↦ rw (room, old) a
      | inr new ↦
          let start : 0 ≡ c.currentinteraction = sym (h.early (ground arith)) in
          rw (room, new) (inl (any-pending_last c.currentinteraction c.nodes (new_node ip) start))
    ]
  ]

  handle_get_noderegister-IsOpen :
      (ip : String) (s : FederatedLearning F)
      → IsSteady s.nodecontrol
      → IsOpen s
      → IsOpen (handle_get_noderegister ip s).0
  unfolding handle_get_noderegister
  handle_get_noderegister-IsOpen ip s h o = record {
    ready = λ full. ground (arith, full);
    awaits = register_node-Awaits ip s.nodecontrol h o.awaits;
  }

module _ (fl : FloatArith) (env : Evaluation (FloatArith.F fl))
    (decode : String → Option (ClientModel (FloatArith.F fl))) where
  open fl use {F}

  handles-IsOpen :
      (p : Posted) (s s' : FederatedLearning F)
      → handle_clint_model_message fl env decode p.message p.sender s ≡ some s'
      → IsSteady s.nodecontrol
      → IsAwaited p.sender s.nodecontrol
      → IsOpen s
      → IsOpen s'
  handles-IsOpen p s s' done h a o =
      elim (handle_clint_model_message-ready fl env decode p.message p.sender s done) [
        | inl same ↦ rw same o
        | inr one ↦ record {
          ready = λ full. ground (arith, one);
          awaits =
              elim (handle_clint_model_message-Counts fl env decode p.message p.sender s done) [
                | inl same ↦ rw same o.awaits
                | inr k ↦ Counts-awaits p.sender s.nodecontrol s'.nodecontrol k h a
              ];
        }
      ]

  Step-IsOpen :
      {s t : System F}
      → Step fl env decode patient s t
      → IsSound s
      → IsOpen s.server
      → IsOpen t.server
  Step-IsOpen {s} (registers ip) h o = handle_get_noderegister-IsOpen ip s.server h.steady o
  Step-IsOpen (told ip free one) h o = o
  Step-IsOpen (sends ip message m) h o = o
  Step-IsOpen (keeps_back ip m) h o = o
  Step-IsOpen (loses p ps e) h o = o
  Step-IsOpen {s} (handles p ps server' e done) h o =
      handles-IsOpen p s.server server' done h.steady (first_awaited p ps s e h) o

  pub Reach-IsOpen :
      {s t : System F}
      → Reach fl env decode patient s t
      → IsSound s
      → IsOpen s.server
      → IsSound t × IsOpen t.server
  Reach-IsOpen here h o = (h, o)
  Reach-IsOpen (next r st) h o =
      let (h', o') = Reach-IsOpen r h o in (Step-IsSound fl env decode st h', Step-IsOpen st h' o')
