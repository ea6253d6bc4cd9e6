-- ===== src/Server/System/Sound.antt =====
-- What holds however the devices and the server meet, if the devices are patient.
use mathlib.Core.List.{map-append}
use esp32_fl.Base.{
  String, ◌≡◌, sym, ap, ◌∙◌, ◌≢◌, inl, inr, true, false, Option, some, List, [], ◌∷◌, ◌++◌, arith,
  eq_iff, Bool-cases,
}
use esp32_fl.Float.{FloatArith}
use esp32_fl.Network.Metrics.{Evaluation}
use esp32_fl.Server.{FederatedLearning, ClientModel}
use esp32_fl.Server.Registry.{handle_get_noderegister, handle_get_checkmodelstatus}
use esp32_fl.Server.Registry.Steady.{IsSteady, IsAwaited, handle_get_noderegister-IsSteady}
use esp32_fl.Server.Registry.Status.{handle_get_checkmodelstatus-one}
use esp32_fl.Server.Aggregation.{handle_clint_model_message}
use esp32_fl.Server.Aggregation.Pending.{mem, remove}
use esp32_fl.Server.Aggregation.Effect.{handle_clint_model_message-Counts}
use esp32_fl.Server.Aggregation.Level.{find_node-pending}
use esp32_fl.Server.System.{
  Posted, System, senders, patient, Step, registers, told, sends, keeps_back, loses, handles,
}
use esp32_fl.Server.System.Counted.{Counts-IsSteady, Counts-IsAwaited}
use esp32_fl.Server.System.Busy.{
  Once, Once-remove, Once-append, mem-removed, mem-snoc, mem-head, mem-cons,
}

-- No device is busy with two models, and each model that is on its way is awaited.
pub record IsSound {F : Type 0} (s : System F) : Type 0 where
  pub steady : IsSteady s.server.nodecontrol
  pub once_training : Once s.training
  pub once_posted : Once (senders s.posted)
  pub apart : (ip : String) → mem ip s.training ≡ true → mem ip (senders s.posted) ≡ false
  pub trains : (ip : String) → mem ip s.training ≡ true → IsAwaited ip s.server.nodecontrol
  pub sent : (ip : String) → mem ip (senders s.posted) ≡ true → IsAwaited ip s.server.nodecontrol

-- The first message that waits is that of a device that is awaited.
pub first_awaited :
    {F : Type 0} (p : Posted) (ps : List Posted) (s : System F)
    → s.posted ≡ p ∷ ps
    → IsSound s
    → IsAwaited p.sender s.server.nodecontrol
first_awaited p ps s e h =
    h.sent p.sender
      (ap (λ q. mem p.sender (senders q)) e ∙ ground (arith, eq_iff p.sender p.sender))

module _ (fl : FloatArith) (env : Evaluation (FloatArith.F fl))
    (decode : String → Option (ClientModel (FloatArith.F fl))) where
  open fl use {F}

  registers-IsSound :
      (ip : String) (s : System F)
      → IsSound s
      → IsSound (record s { server = (handle_get_noderegister ip s.server).0 })
  registers-IsSound ip s h =
      let (steady, awaited) = handle_get_noderegister-IsSteady ip s.server h.steady in
      record {
        steady = steady;
        once_training = h.once_training;
        once_posted = h.once_posted;
        apart = h.apart;
        trains = λ x m. awaited x (h.trains x m);
        sent = λ x m. awaited x (h.sent x m);
      }

  told-IsSound :
      (ip : String) (s : System F)
      → patient ip s ≡ true
      → handle_get_checkmodelstatus ip s.server ≡ some 1
      → IsSound s
      → IsSound (record s { training = ip ∷ s.training })
  told-IsSound ip s free one h =
      let o = (handle_get_checkmodelstatus-one ip s.server).0 one in
      let c = s.server.nodecontrol in
      let awaited : IsAwaited ip c = record {
        awaited = find_node-pending c.currentinteraction ip c.nodes o.client o.found o.pending;
        unfinished = o.unfinished;
        full = o.full;
      } in
      record {
        steady = h.steady;
        once_training = (ground arith, h.once_training);
        once_posted = h.once_posted;
        apart = λ x m. elim (mem-head x ip s.training m) [
          | inl e ↦ ground (arith, e)
          | inr old ↦ h.apart x old
        ];
        trains = λ x m. elim (mem-head x ip s.training m) [
          | inl e ↦ rw (← e) awaited
          | inr old ↦ h.trains x old
        ];
        sent = h.sent;
      }

  sends-IsSound :
      (ip message : String) (s : System F)
      → mem ip s.training ≡ true
      → IsSound s
      → IsSound (record s {
        training = remove ip s.training;
        posted = s.posted ++ (record { sender = ip; message = message } ∷ []);
      })
  sends-IsSound ip message s m h =
      let posted : senders (s.posted ++ (record { sender = ip; message = message } ∷ []))
          ≡ senders s.posted ++ (ip ∷ []) =
        map-append Posted.sender s.posted _ in
      record {
        steady = h.steady;
        once_training = Once-remove ip s.training h.once_training;
        once_posted = rw posted (Once-append (senders s.posted) ip h.once_posted (h.apart ip m));
        apart = λ x m'.
            let (other, trained) = mem-removed x ip s.training h.once_training m' in
            elim (Bool-cases (mem x (senders s.posted ++ (ip ∷ [])))) [
              | inl new ↦ elim (mem-snoc x ip (senders s.posted) new) [
                | inl old ↦ absurd (ground (arith, h.apart x trained))
                | inr same ↦ absurd (other (sym same))
              ]
              | inr free ↦ ap (mem x) posted ∙ free
            ];
        trains = λ x m'. h.trains x (mem-removed x ip s.training h.once_training m').1;
        sent = λ x m'. elim (mem-snoc x ip (senders s.posted) (ap (mem x) (sym posted) ∙ m')) [
          | inl old ↦ h.sent x old
          | inr same ↦ rw (← same) (h.trains ip m)
        ];
      }

  keeps_back-IsSound :
      (ip : String) (s : System F)
      → IsSound s
      → IsSound (record s { training = remove ip s.training })
  keeps_back-IsSound ip s h =
      let before : (x : String) → mem x (remove ip s.training) ≡ true → mem x s.training ≡ true =
        λ x m. (mem-removed x ip s.training h.once_training m).1 in
      record {
        steady = h.steady;
        once_training = Once-remove ip s.training h.once_training;
        once_posted = h.once_posted;
        apart = λ x m. h.apart x (before x m);
        trains = λ x m. h.trains x (before x m);
        sent = h.sent;
      }

  -- A message of a device that is awaited, whether or not its text is a model.
  handled-IsSteady :
      (p : Posted) (s s' : FederatedLearning F)
      → handle_clint_model_message fl env decode p.message p.sender s ≡ some s'
      → IsSteady s.nodecontrol
      → IsAwaited p.sender s.nodecontrol
      → IsSteady s'.nodecontrol
        × ((x : String) → x ≢ p.sender → IsAwaited x s.nodecontrol → IsAwaited x s'.nodecontrol)
  handled-IsSteady p s s' done h a =
      elim (handle_clint_model_message-Counts fl env decode p.message p.sender s done) [
        | inl same ↦ rw same (h, λ x other b. b)
        | inr k ↦ (
          Counts-IsSteady p.sender s.nodecontrol s'.nodecontrol k h a,
          Counts-IsAwaited p.sender s.nodecontrol s'.nodecontrol k h a,
        )
      ]

  loses-IsSound :
      (p : Posted) (ps : List Posted) (s : System F)
      → s.posted ≡ p ∷ ps
      → IsSound s
      → IsSound (record s { posted = ps })
  loses-IsSound p ps s e h =
      let queue : senders s.posted ≡ p.sender ∷ senders ps = ap senders e in
      let once : Once (p.sender ∷ senders ps) = rw queue at h.once_posted in
      record {
        steady = h.steady;
        once_training = h.once_training;
        once_posted = once.1;
        apart = λ x m. (mem-cons x p.sender (senders ps) (sym (ap (mem x) queue) ∙ h.apart x m)).1;
        trains = h.trains;
        sent = λ x m. h.sent x (ap (mem x) queue ∙ ground (arith, m));
      }

  handles-IsSound :
      (p : Posted) (ps : List Posted) (s : System F) (server' : FederatedLearning F)
      → s.posted ≡ p ∷ ps
      → handle_clint_model_message fl env decode p.message p.sender s.server ≡ some server'
      → IsSound s
      → IsSound (record s { server = server'; posted = ps })
  handles-IsSound p ps s server' e done h =
      let queue : senders s.posted ≡ p.sender ∷ senders ps = ap senders e in
      let once : Once (p.sender ∷ senders ps) = rw queue at h.once_posted in
      let first : IsAwaited p.sender s.server.nodecontrol = first_awaited p ps s e h in
      let behind : (x : String) → mem x (senders ps) ≡ true → mem x (senders s.posted) ≡ true =
        λ x m. ap (mem x) queue ∙ ground (arith, m) in
      let ahead : (x : String)
          → mem x (senders s.posted) ≡ false
          → (x ≢ p.sender) × (mem x (senders ps) ≡ false) =
        λ x m. mem-cons x p.sender (senders ps) (sym (ap (mem x) queue) ∙ m) in
      let (steady, still) = handled-IsSteady p s.server server' done h.steady first in
      record {
        steady = steady;
        once_training = h.once_training;
        once_posted = once.1;
        apart = λ x m. (ahead x (h.apart x m)).1;
        trains = λ x m. still x (ahead x (h.apart x m)).0 (h.trains x m);
        sent = λ x m.
            still x (λ e'. absurd (ground (arith, once.0, ap (λ y. mem y (senders ps)) e')))
              (h.sent x (behind x m));
      }

  pub Step-IsSound : {s t : System F} → Step fl env decode patient s t → IsSound s → IsSound t
  Step-IsSound (registers ip) h = registers-IsSound ip _ h
  Step-IsSound (told ip free one) h = told-IsSound ip _ free one h
  Step-IsSound (sends ip message m) h = sends-IsSound ip message _ m h
  Step-IsSound (keeps_back ip m) h = keeps_back-IsSound ip _ h
  Step-IsSound (loses p ps e) h = loses-IsSound p ps _ e h
  Step-IsSound (handles p ps server' e done) h = handles-IsSound p ps _ server' e done h
