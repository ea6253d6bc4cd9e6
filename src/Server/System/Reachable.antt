-- ===== src/Server/System/Reachable.antt =====
-- From the start of the server on, in any order.
use esp32_fl.Base.{String, ◌≡◌, refl, sym, ap, ◌∙◌, length, ◌<◌, Option, [], arith, int_mod}
use esp32_fl.Float.{FloatArith}
use esp32_fl.Network.Metrics.{Evaluation}
use esp32_fl.Server.{ClientModel}
use esp32_fl.Server.Aggregation.Pending.{mem}
use esp32_fl.Server.System.{System, senders, patient, Reach, here, next}
use esp32_fl.Server.System.Sound.{IsSound, Step-IsSound}

module _ (fl : FloatArith) (env : Evaluation (FloatArith.F fl))
    (decode : String → Option (ClientModel (FloatArith.F fl))) where
  open fl use {F}

  Reach-kept : {s t : System F} → Reach fl env decode patient s t → IsSound s → IsSound t
  Reach-kept here h = h
  Reach-kept (next r st) h = Step-IsSound fl env decode st (Reach-kept r h)

  -- The server after its start, before the first device.
  pub record IsStart (s : System F) : Type 0 where
    pub nodes : s.server.nodecontrol.nodes ≡ []
    pub registered : s.server.nodecontrol.clientnodesregistered ≡ 0
    pub current : s.server.nodecontrol.currentinteraction ≡ 0
    pub places : s.server.nodecontrol.clientnodes < int_mod
    pub cycle : s.server.nodecontrol.interactioncycle < int_mod
    pub training : s.training ≡ []
    pub posted : s.posted ≡ []

  pub IsStart-IsSound : (s : System F) → IsStart s → IsSound s
  IsStart-IsSound s h = record {
    steady = record {
      valid = record {
        distinct = rw h.nodes tt;
        counted = h.registered ∙ ap length (sym h.nodes);
        within = rw h.nodes (omega arith);
        fits = h.places;
      };
      small = h.cycle;
      within = omega (arith, h.current);
      levels = rw h.nodes tt;
      early = λ _. h.current;
    };
    once_training = rw h.training tt;
    once_posted = rw h.posted tt;
    apart = λ x m. rw h.posted refl;
    trains = λ x m. absurd (ground (arith, ap (mem x) h.training));
    sent = λ x m. absurd (ground (arith, ap (λ ps. mem x (senders ps)) h.posted));
  }

  -- Where the devices are patient (none asks for the status while it trains or its message waits),
  -- the server starts without a node and in interaction 0, its places and its cycle are an `int`,
  -- and no device is busy at the start: in whatever order registrations, status requests,
  -- messages, whether models or not, their loss and their handling without a fault meet, no device
  -- is ever busy with two models, every model on its way comes from a device whose model the server
  -- still awaits, no address is registered twice, every node has none or exactly one message of the
  -- current interaction counted, the interaction stays within the cycle, and there is none before
  -- all places are taken.
  pub Reach-IsSound : {s t : System F} → Reach fl env decode patient s t → IsStart s → IsSound t
  Reach-IsSound {s} r h = Reach-kept r (IsStart-IsSound s h)
