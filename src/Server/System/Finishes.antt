-- ===== src/Server/System/Finishes.antt =====
-- No state is a dead end: from each one the interaction can still be finished.
use esp32_fl.Base.{
  ℕ, ◌+◌, String, ◌≡◌, refl, ap, ◌∙◌, ◌≢◌, ◌<◌, inl, inr, true, Option, some, List, [], ◌∷◌, arith,
  str_eq, eq_iff, length, int_mod, Bool-cases,
}
use esp32_fl.Float.{FloatArith}
use esp32_fl.Network.Metrics.{Evaluation}
use esp32_fl.Server.{ClientNode, FederatedLearning, ClientModel}
use esp32_fl.Server.Registry.{is_registered, find_node, handle_get_checkmodelstatus}
use esp32_fl.Server.Registry.Valid.{Distinct}
use esp32_fl.Server.Registry.Status.{handle_get_checkmodelstatus-one}
use esp32_fl.Server.Aggregation.{is_pending}
use esp32_fl.Server.Aggregation.Pending.{pending, mem, IsOrder, any-pending, mem-registered}
use esp32_fl.Server.Aggregation.Finish.{IsAggregable}
use esp32_fl.Server.Aggregation.Round.{Sent, Fits, deliver-Round}
use esp32_fl.Server.System.{System, patient, Reach}
use esp32_fl.Server.System.Busy.{Once}
use esp32_fl.Server.System.Sound.{IsSound}
use esp32_fl.Server.System.Schedule.{
  str_eq_refl, Leads-trans, clear_training, clear_posted, from_each, fetch_all, handle_each,
  All-from_each, ips-from_each,
}
use esp32_fl.Server.System.Open.{IsOpen, Reach-IsOpen}
use esp32_fl.Server.System.Reachable.{IsStart, IsStart-IsSound}

IsOrder-refl : (xs : List String) → IsOrder xs xs
IsOrder-refl [] = refl
IsOrder-refl (x ∷ xs) = rw (str_eq_refl x) (refl, IsOrder-refl xs)

pending-found :
    (current : ℕ) (ip : String) (ns : List ClientNode)
    → Distinct ns
    → mem ip (pending current ns) ≡ true
    → (n : ClientNode) × (find_node ip ns ≡ some n) × (n.interaction ≡ current)
unfolding find_node is_registered
pending-found current ip [] d m = cc
pending-found current ip (n ∷ ns) (d, ds) m = elim (Bool-cases (str_eq n.ip_id ip)) [
  | inl same ↦ (n, rw same refl, ground (arith, mem-registered current ip ns, eq_iff n.ip_id ip))
  | inr other ↦
      let (k, found, now) = pending-found current ip ns ds (ground arith) in
      (k, rw (other, found) refl, now)
]

pending-Once : (current : ℕ) (ns : List ClientNode) → Distinct ns → Once (pending current ns)
unfolding is_registered
pending-Once current [] d = tt
pending-Once current (n ∷ ns) (d, ds) = elim (Bool-cases (is_pending current n)) [
  | inl now ↦ rw now (
    ground
        (arith, mem-registered current n.ip_id ns, Bool-cases (mem n.ip_id (pending current ns))),
    pending-Once current ns ds,
  )
  | inr past ↦ rw past (pending-Once current ns ds)
]

module _ (fl : FloatArith) (env : Evaluation (FloatArith.F fl))
    (decode : String → Option (ClientModel (FloatArith.F fl))) where
  open fl use {F}

  -- A schedule that ends the interaction.
  pub record CanFinish (t : System F) : Type 0 where
    pub result : FederatedLearning F
    pub leads :
        Reach fl env decode patient t (record { server = result; training = []; posted = [] })
    pub current :
        result.nodecontrol.currentinteraction ≡ t.server.nodecontrol.currentinteraction + 1

  -- The devices that are awaited are told that a model is there.
  told_one :
      (ip : String) (s : System F)
      → IsSound s
      → IsOpen s.server
      → s.server.nodecontrol.clientnodesregistered ≡ s.server.nodecontrol.clientnodes
      → s.server.nodecontrol.currentinteraction ≢ s.server.nodecontrol.interactioncycle
      → mem ip (pending s.server.nodecontrol.currentinteraction s.server.nodecontrol.nodes) ≡ true
      → handle_get_checkmodelstatus ip s.server ≡ some 1
  told_one ip s h o full unfinished m =
      let c = s.server.nodecontrol in
      let (n, found, now) =
        pending-found c.currentinteraction ip c.nodes h.steady.valid.distinct m in
      (handle_get_checkmodelstatus-one ip s.server).1 (record {
        client = n;
        found = found;
        pending = now;
        unfinished = unfinished;
        full = full;
        ready = o.ready full;
      })

  module _ (x : F) (m : Sent F) (rows : List (List F)) (opened : env.rows ≡ some rows)
      (t : System F) (h : IsSound t) (o : IsOpen t.server)
      (full : t.server.nodecontrol.clientnodesregistered ≡ t.server.nodecontrol.clientnodes)
      (unfinished : t.server.nodecontrol.currentinteraction ≢ t.server.nodecontrol.interactioncycle)
      (aggregable : IsAggregable t.server.nodecontrol.neuralnetwork)
      (fits : Fits fl env decode t.server.nodecontrol.neuralnetwork m) where
    number_fits : t.server.nodecontrol.currentinteraction + 1 < int_mod
    number_fits = omega (arith, h.steady.small, h.steady.within, unfinished)

    -- The awaited devices send the text, one after the other, and the server handles it.
    finish_with :
        (ip : String) (ips : List String)
        → pending t.server.nodecontrol.currentinteraction t.server.nodecontrol.nodes ≡ ip ∷ ips
        → CanFinish t
    finish_with ip ips e =
        let s = t.server in
        let cur = s.nodecontrol.currentinteraction in
        let sums = s.nodecontrol.neuralnetwork in
        let order : IsOrder (ip ∷ ips) (pending cur s.nodecontrol.nodes) =
          rw e (IsOrder-refl (ip ∷ ips)) in
        let round =
          deliver-Round fl env decode x (from_each fl env decode m ips) (record m { ip = ip }) s
            rows opened (omega (arith, number_fits)) h.steady.valid.distinct aggregable
            (fits, All-from_each fl env decode sums m ips fits)
            (rw (ips-from_each fl env decode m ips) order) in
        let once : Once (ip ∷ ips) =
          rw e at (pending-Once cur s.nodecontrol.nodes h.steady.valid.distinct) in
        let fetched =
          fetch_all fl env decode s m (ip ∷ ips) [] once
            (λ y a. told_one y t h o full unfinished (ap (mem y) e ∙ a)) (λ y a. refl) in
        record {
          result = round.result;
          leads = Leads-trans fl env decode (clear_training fl env decode s t.training t.posted) (
              Leads-trans fl env decode (clear_posted fl env decode s t.posted) (
                Leads-trans fl env decode fetched
                  (handle_each fl env decode _ s round.result round.runs)));
          current = omega (arith, round.current, number_fits);
        }

    finish_from :
        (ips : List String)
        → pending t.server.nodecontrol.currentinteraction t.server.nodecontrol.nodes ≡ ips
        → 0 < t.server.nodecontrol.clientnodesregistered
        → CanFinish t
    finish_from [] e some_node = absurd (elim o.awaits [
      | inl more ↦ ground (
        arith,
        any-pending t.server.nodecontrol.currentinteraction t.server.nodecontrol.nodes e,
        more,
      )
      | inr nobody ↦ omega (arith, some_node, h.steady.valid.counted, ap length nobody)
    ])
    finish_from (ip ∷ ips) e some_node = finish_with ip ips e

  -- Where the devices are patient and the server starts without a node, in interaction 0 and with a
  -- place for a device, no device busy, its places and its cycle an `int`: in every state that is
  -- reached, if all places are taken, at least one device is registered, the cycle is not finished, the sums are
  -- aggregable, the data set can be opened and some text holds a network of the shape of the sums,
  -- there is a sequence of steps, without a fault, that ends the interaction and leaves no device
  -- busy: whatever was sent or lost before, no state is a dead end.
  pub Reach-CanFinish :
      {s t : System F} (x : F) (m : Sent F) (rows : List (List F))
      → Reach fl env decode patient s t
      → IsStart fl env decode s
      → 0 < s.server.nodecontrol.clientnodes
      → env.rows ≡ some rows
      → t.server.nodecontrol.clientnodesregistered ≡ t.server.nodecontrol.clientnodes
      → 0 < t.server.nodecontrol.clientnodesregistered
      → t.server.nodecontrol.currentinteraction ≢ t.server.nodecontrol.interactioncycle
      → IsAggregable t.server.nodecontrol.neuralnetwork
      → Fits fl env decode t.server.nodecontrol.neuralnetwork m
      → CanFinish t
  Reach-CanFinish {s} {t} x m rows r start places opened full some_node unfinished aggregable fits =
      let open_start : IsOpen s.server = record {
        ready = λ e. absurd (omega (arith, e, start.registered, places));
        awaits = inr start.nodes;
      } in
      let (h, o) =
        Reach-IsOpen fl env decode r (IsStart-IsSound fl env decode s start) open_start in
      finish_from x m rows opened t h o full unfinished aggregable fits _ refl some_node
