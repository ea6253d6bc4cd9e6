-- ===== src/Server/Aggregation/Pending.antt =====
-- The nodes whose models are awaited.
use esp32_fl.Base.{
  ℕ, String, ◌≡◌, refl, ap, ◌<◌, Bool, true, false, ◌||◌, some, List, [], ◌∷◌, arith, str_eq,
  eq_iff, if◌then◌else◌, add_int, int_mod, any, inl, inr, Bool-cases,
}
use esp32_fl.Server.{ClientNode}
use esp32_fl.Server.Registry.{is_registered}
use esp32_fl.Server.Registry.Valid.{Distinct}
use esp32_fl.Server.Registry.Arrivals.{addresses}
use esp32_fl.Server.Aggregation.{is_pending, count_interaction}

-- The addresses of the nodes that have not interacted yet.
abbrev pub pending : ℕ → List ClientNode → List String
pending current [] = []
pending current (n ∷ ns) =
    if is_pending current n then n.ip_id ∷ pending current ns else pending current ns

abbrev pub mem : String → List String → Bool
mem ip [] = false
mem ip (s ∷ ss) = str_eq s ip || mem ip ss

abbrev pub remove : String → List String → List String
remove ip [] = []
remove ip (s ∷ ss) = if str_eq s ip then ss else s ∷ remove ip ss

-- `ips` are the addresses `awaited`, each once, in some order.
abbrev pub IsOrder : List String → List String → Type 0
IsOrder [] awaited = awaited ≡ []
IsOrder (ip ∷ ips) awaited = (mem ip awaited ≡ true) × IsOrder ips (remove ip awaited)

pub any-pending :
    (current : ℕ) (ns : List ClientNode)
    → pending current ns ≡ []
    → any (is_pending current) ns ≡ false
any-pending current [] e = refl
any-pending current (n ∷ ns) e = ground (arith, any-pending current ns)

pub pending-any :
    (current : ℕ) (ip : String) (ns : List ClientNode)
    → mem ip (pending current ns) ≡ true
    → any (is_pending current) ns ≡ true
pending-any current ip [] e = cc
pending-any current ip (n ∷ ns) e = ground (arith, pending-any current ip ns)

pub mem-registered :
    (current : ℕ) (ip : String) (ns : List ClientNode)
    → mem ip (pending current ns) ≡ true
    → is_registered ip ns ≡ true
unfolding is_registered
mem-registered current ip [] e = e
mem-registered current ip (n ∷ ns) e = ground (arith, mem-registered current ip ns)

-- The message of a node that is awaited is counted for that node, which is awaited no longer.
pub record Counted (current : ℕ) (ip : String) (ns : List ClientNode) : Type 0 where
  pub result : List ClientNode
  pub runs : count_interaction ip ns ≡ some result
  pub awaited : pending current result ≡ remove ip (pending current ns)
  pub same : addresses result ≡ addresses ns
  pub distinct : Distinct result

is_registered-same :
    (ip : String) (ns ms : List ClientNode)
    → addresses ns ≡ addresses ms
    → is_registered ip ns ≡ is_registered ip ms
unfolding is_registered
is_registered-same ip [] [] e = refl
is_registered-same ip [] (m ∷ ms) e = absurd (cc)
is_registered-same ip (n ∷ ns) [] e = absurd (cc)
is_registered-same ip (n ∷ ns) (m ∷ ms) e =
    let head : n.ip_id ≡ m.ip_id = cc in
    let tail : addresses ns ≡ addresses ms = cc in rw (head, is_registered-same ip ns ms tail)

pub count_interaction-Counted :
    (current : ℕ) (ip : String) (ns : List ClientNode)
    → current < int_mod
    → Distinct ns
    → mem ip (pending current ns) ≡ true
    → Counted current ip ns
unfolding count_interaction is_registered
count_interaction-Counted current ip [] small d m = absurd (cc)
count_interaction-Counted current ip (n ∷ ns) small (d, ds) m =
    elim (Bool-cases (str_eq n.ip_id ip)) [
      | inl e ↦
          let same : n.ip_id ≡ ip = (eq_iff n.ip_id ip).0 e in
          let others : mem ip (pending current ns) ≡ false =
            ground (arith, mem-registered current ip ns) in
          let now : is_pending current n ≡ true = ground arith in
          record {
            result = record n { interaction = add_int n.interaction 1 } ∷ ns;
            runs = rw e;
            awaited = ground arith;
            same = refl;
            distinct = (d, ds);
          }
      | inr e ↦
          let rest = count_interaction-Counted current ip ns small ds (ground arith) in
          record {
            result = n ∷ rest.result;
            runs = rw (e, rest.runs);
            awaited = ground (arith, rest.awaited);
            same = ap (◌∷◌ n.ip_id) rest.same;
            distinct = (rw (is_registered-same n.ip_id rest.result ns rest.same) d, rest.distinct);
          }
    ]
