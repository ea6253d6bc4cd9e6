-- ===== src/Server/Registry/Arrivals.antt =====
-- The registry against its purpose: the first different addresses, as many as there are places.
use esp32_fl.Base.{
  ℕ, zero, suc, ◌-◌, String, ◌≡◌, refl, ◌≢◌, ap, true, false, List, [], ◌∷◌, ◌++◌, map, arith, ◌==◌,
  str_eq, if◌then◌else◌, inl, inr, Bool-cases, ==_iff, length, length-append, any, append-nil,
  append_assoc,
}
use mathlib.Core.List.{map-append}
use esp32_fl.Server.{ClientNode, NodeControl}
use esp32_fl.Server.Registry.{is_registered, new_node, add_node, register_node}
use esp32_fl.Server.Registry.Valid.{IsValid, add_node-IsValid}

-- The arrivals that are not in `seen` and did not arrive before.
unfoldable pub first_arrivals : List String → List String → List String
first_arrivals seen [] = []
first_arrivals seen (ip ∷ ips) =
    if any (λ s. str_eq s ip) seen
    then first_arrivals seen ips
    else ip ∷ first_arrivals (seen ++ (ip ∷ [])) ips

abbrev pub take : ℕ → List String → List String
take zero xs = []
take (suc n) [] = []
take (suc n) (x ∷ xs) = x ∷ take n xs

abbrev pub addresses : List ClientNode → List String
addresses = map ClientNode.ip_id

-- The chain as the registration sees it.
is_registered-addresses :
    (ip : String) (ns : List ClientNode)
    → is_registered ip ns ≡ any (λ s. str_eq s ip) (addresses ns)
unfolding is_registered
is_registered-addresses ip [] = refl
is_registered-addresses ip (n ∷ ns) = rw (is_registered-addresses ip ns) (ground arith)

take-zero : (n : ℕ) (xs : List String) → n ≡ 0 → take n xs ≡ []
take-zero zero xs e = refl
take-zero (suc n) xs e = absurd (omega arith)

take-suc : (n m : ℕ) (x : String) (xs : List String) → n ≡ suc m → take n (x ∷ xs) ≡ x ∷ take m xs
take-suc zero m x xs e = absurd (omega arith)
take-suc (suc n) m x xs e = ap (λ k. take k (x ∷ xs)) e

take-nil : (n : ℕ) → take n [] ≡ []
take-nil zero = refl
take-nil (suc n) = refl

module _ (ip : String) (ips : List String) (ns : List ClientNode) where
  first_arrivals-old :
      is_registered ip ns ≡ true
      → first_arrivals (addresses ns) (ip ∷ ips) ≡ first_arrivals (addresses ns) ips
  unfolding first_arrivals
  first_arrivals-old old = rw (← is_registered-addresses ip ns, old)

  first_arrivals-new :
      is_registered ip ns ≡ false
      → first_arrivals (addresses ns) (ip ∷ ips)
        ≡ ip ∷ first_arrivals (addresses ns ++ (ip ∷ [])) ips
  unfolding first_arrivals
  first_arrivals-new new = rw (← is_registered-addresses ip ns, new)

module _ {F : Type 0} where
  -- One registration after the other.
  unfoldable pub register_all : List String → NodeControl F → NodeControl F
  register_all [] c = c
  register_all (ip ∷ ips) c = register_all ips (register_node ip c).0

  register_all-full :
      (ips : List String) (c : NodeControl F)
      → c.clientnodesregistered ≡ c.clientnodes
      → register_all ips c ≡ c
  unfolding register_all register_node
  register_all-full [] c full = refl
  register_all-full (ip ∷ ips) c full =
      rw ((==_iff c.clientnodesregistered c.clientnodes).1 full) (register_all-full ips c full)

  register_all-nil : (c : NodeControl F) → register_all [] c ≡ c
  unfolding register_all
  register_all-nil c = refl

  register_all-old :
      (ip : String) (ips : List String) (c : NodeControl F)
      → (c.clientnodesregistered == c.clientnodes) ≡ false
      → is_registered ip c.nodes ≡ true
      → register_all (ip ∷ ips) c ≡ register_all ips c
  unfolding register_all register_node
  register_all-old ip ips c room old = rw (room, old)

  register_all-new :
      (ip : String) (ips : List String) (c : NodeControl F)
      → (c.clientnodesregistered == c.clientnodes) ≡ false
      → is_registered ip c.nodes ≡ false
      → register_all (ip ∷ ips) c ≡ register_all ips (add_node ip c)
  unfolding register_all register_node
  register_all-new ip ips c room new = rw (room, new)

  add_node-addresses :
      (ip : String) (c : NodeControl F)
      → addresses (add_node ip c).nodes ≡ addresses c.nodes ++ (ip ∷ [])
  unfolding add_node
  add_node-addresses ip c = map-append ClientNode.ip_id c.nodes (new_node ip ∷ [])

  add_node-room :
      (ip : String) (c : NodeControl F)
      → IsValid c
      → c.clientnodesregistered ≢ c.clientnodes
      → c.clientnodes - length c.nodes
        ≡ suc ((add_node ip c).clientnodes - length (add_node ip c).nodes)
  unfolding add_node
  add_node-room ip c v room =
      omega (arith, v.counted, v.within, length-append c.nodes (new_node ip ∷ []))

  register_all-addresses_full :
      (ips : List String) (c : NodeControl F)
      → IsValid c
      → c.clientnodesregistered ≡ c.clientnodes
      → addresses (register_all ips c).nodes
        ≡ addresses c.nodes
          ++ take (c.clientnodes - length c.nodes) (first_arrivals (addresses c.nodes) ips)
  register_all-addresses_full ips c v full = rw (
    register_all-full ips c full,
    take-zero (c.clientnodes - length c.nodes) (first_arrivals (addresses c.nodes) ips)
        (omega (arith, v.counted)),
    append-nil (addresses c.nodes),
  )

  -- For a well-formed registry, whoever asks, in whatever order and however often: the registry
  -- then holds the first different addresses in the order of their arrival, behind those that it
  -- held, as many as there is room for.
  pub register_all-addresses :
      (ips : List String) (c : NodeControl F)
      → IsValid c
      → addresses (register_all ips c).nodes
        ≡ addresses c.nodes
          ++ take (c.clientnodes - length c.nodes) (first_arrivals (addresses c.nodes) ips)
  unfolding first_arrivals
  register_all-addresses [] c v = rw (
    register_all-nil c,
    take-nil (c.clientnodes - length c.nodes),
    append-nil (addresses c.nodes),
  )
  register_all-addresses (ip ∷ ips) c v =
      elim (Bool-cases (c.clientnodesregistered == c.clientnodes)) [
        | inl full ↦
            register_all-addresses_full (ip ∷ ips) c v
              ((==_iff c.clientnodesregistered c.clientnodes).0 full)
        | inr room ↦ elim (Bool-cases (is_registered ip c.nodes)) [
          | inl old ↦
              rw (register_all-old ip ips c room old, first_arrivals-old ip ips c.nodes old)
                (register_all-addresses ips c v)
          | inr new ↦
              let vacant : c.clientnodesregistered ≢ c.clientnodes = ground arith in
              rw (
                register_all-new ip ips c room new,
                first_arrivals-new ip ips c.nodes new,
                take-suc (c.clientnodes - length c.nodes)
                    ((add_node ip c).clientnodes - length (add_node ip c).nodes) ip
                    (first_arrivals (addresses c.nodes ++ (ip ∷ [])) ips)
                    (add_node-room ip c v vacant),
                register_all-addresses ips (add_node ip c) (add_node-IsValid ip c v vacant new),
                add_node-addresses ip c,
                append_assoc (addresses c.nodes) (ip ∷ []),
              )
        ]
      ]
