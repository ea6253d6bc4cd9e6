-- ===== src/Server/Registry/Valid.antt =====
-- What the registration keeps, and what each of its branches does.
use esp32_fl.Base.{
  String, ◌≡◌, refl, ◌≢◌, ◌≤◌, ◌<◌, inl, inr, true, false, List, [], ◌∷◌, ◌++◌, arith, ◌==◌, str_eq,
  eq_iff, if◌then◌else◌, length, length-append, Bool-cases, int_mod,
}
use esp32_fl.Server.{ClientNode, NodeControl, FederatedLearning}
use esp32_fl.Server.Registry.{
  is_registered, new_node, add_node, register_node, handle_get_noderegister,
}

-- No address is registered twice.
abbrev pub Distinct : List ClientNode → Type 0
Distinct [] = Unit {0}
Distinct (n ∷ ns) = (is_registered n.ip_id ns ≡ false) × Distinct ns

-- The count is that of the chain, and stays within the places there are.
pub record IsValid {F : Type 0} (c : NodeControl F) : Type 0 where
  pub distinct : Distinct c.nodes
  pub counted : c.clientnodesregistered ≡ length c.nodes
  pub within : length c.nodes ≤ c.clientnodes
  pub fits : c.clientnodes < int_mod

is_registered-append :
    (ip : String) (ns : List ClientNode) (m : ClientNode)
    → is_registered ip (ns ++ (m ∷ [])) ≡ (if is_registered ip ns then true else str_eq m.ip_id ip)
unfolding is_registered
is_registered-append ip [] m = ground arith
is_registered-append ip (n ∷ ns) m = ground (arith, is_registered-append ip ns m)

Distinct-append :
    (ns : List ClientNode) (ip : String)
    → Distinct ns
    → is_registered ip ns ≡ false
    → Distinct (ns ++ (new_node ip ∷ []))
unfolding is_registered
Distinct-append [] ip d h = (refl, tt)
Distinct-append (n ∷ ns) ip (d, ds) h = (
  ground
      (arith, is_registered-append n.ip_id ns (new_node ip), eq_iff n.ip_id ip, eq_iff ip n.ip_id),
  Distinct-append ns ip ds (ground arith),
)

module _ {F : Type 0} where
  pub add_node-IsValid :
      (ip : String) (c : NodeControl F)
      → IsValid c
      → c.clientnodesregistered ≢ c.clientnodes
      → is_registered ip c.nodes ≡ false
      → IsValid (add_node ip c)
  unfolding add_node
  add_node-IsValid ip c v room new = record {
    distinct = Distinct-append c.nodes ip v.distinct new;
    counted = omega (arith, v.counted, v.within, v.fits, length-append c.nodes (new_node ip ∷ []));
    within = omega (arith, v.counted, v.within, length-append c.nodes (new_node ip ∷ []));
    fits = v.fits;
  }

  pub register_node-IsValid :
      (ip : String) (c : NodeControl F) → IsValid c → IsValid (register_node ip c).0
  unfolding register_node
  register_node-IsValid ip c v = elim (Bool-cases (c.clientnodesregistered == c.clientnodes)) [
    | inl full ↦ rw full v
    | inr room ↦ elim (Bool-cases (is_registered ip c.nodes)) [
      | inl old ↦ rw (room, old) v
      | inr new ↦ rw (room, new) (add_node-IsValid ip c v (ground arith) new)
    ]
  ]

  -- A registration, whatever it answers, keeps a well-formed registry well formed: no address
  -- twice, the count that of the chain, and no more nodes than places.
  pub handle_get_noderegister-IsValid :
      (ip : String) (fl : FederatedLearning F)
      → IsValid fl.nodecontrol
      → IsValid (handle_get_noderegister ip fl).0.nodecontrol
  unfolding handle_get_noderegister
  handle_get_noderegister-IsValid ip fl v = register_node-IsValid ip fl.nodecontrol v
