-- ===== src/Server/Aggregation/Level.antt =====
-- How far the nodes are: in an interaction each has none or one of its messages counted.
use esp32_fl.Base.{
  ℕ, ◌+◌, String, ◌≡◌, ◌≢◌, refl, ◌<◌, ◌⊎◌, inl, inr, true, false, some, List, [], ◌∷◌, ◌++◌, All,
  arith, str_eq, eq_iff, add_int, int_mod, any, Bool-cases, >>=-eq-some, ap,
}
use esp32_fl.Server.{ClientNode}
use esp32_fl.Server.Registry.{is_registered, find_node}
use esp32_fl.Server.Registry.Valid.{Distinct}
use esp32_fl.Server.Aggregation.{is_pending, count_interaction}
use esp32_fl.Server.Aggregation.Pending.{pending, mem, mem-registered}

-- The node is awaited in this interaction, or its message is counted, once.
abbrev pub IsLevel : ℕ → ClientNode → Type 0
IsLevel current n = (n.interaction ≡ current) ⊎ (n.interaction ≡ current + 1)

pub find_node-pending :
    (current : ℕ) (ip : String) (ns : List ClientNode) (n : ClientNode)
    → find_node ip ns ≡ some n
    → n.interaction ≡ current
    → mem ip (pending current ns) ≡ true
unfolding find_node
find_node-pending current ip [] n e h = cc
find_node-pending current ip (m ∷ ns) n e h = elim (Bool-cases (str_eq m.ip_id ip)) [
  | inl same ↦
      let here : some m ≡ some n = rw same at e in
      let now : m.interaction ≡ current = cc in ground arith
  | inr other ↦
      let rest = find_node-pending current ip ns n (rw other at e) h in
      elim (Bool-cases (is_pending current m)) [
        | inl p ↦ rw p (rw (other, rest))
        | inr q ↦ rw q rest
      ]
]

pub count_interaction-IsLevel :
    (current : ℕ) (ip : String) (ns : List ClientNode) {ns' : List ClientNode}
    → current + 1 < int_mod
    → Distinct ns
    → mem ip (pending current ns) ≡ true
    → All (IsLevel current) ns
    → count_interaction ip ns ≡ some ns'
    → All (IsLevel current) ns'
unfolding count_interaction is_registered
count_interaction-IsLevel current ip [] small d m h e = cc
count_interaction-IsLevel current ip (n ∷ ns) {ns'} small (d, ds) m (h, hs) e =
    elim (Bool-cases (str_eq n.ip_id ip)) [
      | inl same ↦
          let now : some (record n { interaction = add_int n.interaction 1 } ∷ ns) ≡ some ns' =
            rw same at e in
          let result : ns' ≡ record n { interaction = add_int n.interaction 1 } ∷ ns = cc in
          let others : mem ip (pending current ns) ≡ false =
            ground (arith, mem-registered current ip ns, eq_iff n.ip_id ip) in
          let here : n.interaction ≡ current = ground arith in
          rw result (inr (omega (arith, here, small)), hs)
      | inr other ↦
          let (rest, counted, now) = >>=-eq-some (count_interaction ip ns) _ (rw other at e) in
          let result : ns' ≡ n ∷ rest = cc in
          let awaited : mem ip (pending current ns) ≡ true = ground arith in
          rw result (h, count_interaction-IsLevel current ip ns small ds awaited hs counted)
    ]

abbrev pub counted_node : ClientNode → ClientNode
counted_node n = record n { interaction = add_int n.interaction 1 }

-- The counted node is one message further.
pub count_interaction-found :
    (ip : String) (ns : List ClientNode) {ns' : List ClientNode} (n : ClientNode)
    → find_node ip ns ≡ some n
    → count_interaction ip ns ≡ some ns'
    → find_node ip ns' ≡ some (counted_node n)
unfolding find_node count_interaction
count_interaction-found ip [] n f e = cc
count_interaction-found ip (m ∷ ns) {ns'} n f e = elim (Bool-cases (str_eq m.ip_id ip)) [
  | inl same ↦
      let found : some m ≡ some n = rw same at f in
      let now : some (record m { interaction = add_int m.interaction 1 } ∷ ns) ≡ some ns' =
        rw same at e in
      let result : ns' ≡ record m { interaction = add_int m.interaction 1 } ∷ ns = cc in
      let here : m ≡ n = cc in rw (result, same) (ap (λ k. some (counted_node k)) here)
  | inr other ↦
      let (rest, counted, now) = >>=-eq-some (count_interaction ip ns) _ (rw other at e) in
      let result : ns' ≡ m ∷ rest = cc in
      rw (result, other) (count_interaction-found ip ns n (rw other at f) counted)
]

pub count_interaction-runs :
    (ip : String) (ns : List ClientNode) (n : ClientNode)
    → find_node ip ns ≡ some n
    → (ns' : List ClientNode) × (count_interaction ip ns ≡ some ns')
unfolding find_node count_interaction
count_interaction-runs ip [] n f = cc
count_interaction-runs ip (m ∷ ns) n f = elim (Bool-cases (str_eq m.ip_id ip)) [
  | inl same ↦ (counted_node m ∷ ns, rw same refl)
  | inr other ↦
      let (rest, counted) = count_interaction-runs ip ns n (rw other at f) in
      (m ∷ rest, rw (other, counted) refl)
]

-- All other nodes stay as they are.
pub count_interaction-other :
    (ip x : String) (ns : List ClientNode) {ns' : List ClientNode}
    → x ≢ ip
    → count_interaction ip ns ≡ some ns'
    → find_node x ns' ≡ find_node x ns
unfolding find_node count_interaction
count_interaction-other ip x [] ne e = cc
count_interaction-other ip x (m ∷ ns) {ns'} ne e = elim (Bool-cases (str_eq m.ip_id ip)) [
  | inl same ↦
      let now : some (counted_node m ∷ ns) ≡ some ns' = rw same at e in
      let result : ns' ≡ counted_node m ∷ ns = cc in
      let not_here : str_eq m.ip_id x ≡ false =
        ground (arith, eq_iff m.ip_id ip, eq_iff m.ip_id x) in
      rw (result, not_here) refl
  | inr other ↦
      let (rest, counted, now) = >>=-eq-some (count_interaction ip ns) _ (rw other at e) in
      let result : ns' ≡ m ∷ rest = cc in
      rw (result, count_interaction-other ip x ns ne counted) refl
]

-- Where none is awaited any more, all are one interaction further.
pub IsLevel-next :
    (current : ℕ) (ns : List ClientNode)
    → any (is_pending current) ns ≡ false
    → All (IsLevel current) ns
    → All (IsLevel (current + 1)) ns
IsLevel-next current [] none h = tt
IsLevel-next current (n ∷ ns) none (h, hs) = (
  elim h [ inl e ↦ absurd (ground arith) | inr e ↦ inl e ],
  IsLevel-next current ns (ground arith) hs,
)

-- Someone is awaited, then, in the next interaction.
pub IsLevel-last :
    (current : ℕ) (ns : List ClientNode)
    → any (is_pending current) ns ≡ false
    → All (IsLevel current) ns
    → (any (is_pending (current + 1)) ns ≡ true) ⊎ (ns ≡ [])
IsLevel-last current [] none h = inr refl
IsLevel-last current (n ∷ ns) none (h, hs) = elim h [
  | inl e ↦ absurd (ground arith)
  | inr e ↦ inl (ground (arith, e))
]

pub any-pending_last :
    (current : ℕ) (ns : List ClientNode) (n : ClientNode)
    → n.interaction ≡ current
    → any (is_pending current) (ns ++ (n ∷ [])) ≡ true
any-pending_last current [] n e = ground (arith, e)
any-pending_last current (m ∷ ns) n e = ground (arith, any-pending_last current ns n e)
