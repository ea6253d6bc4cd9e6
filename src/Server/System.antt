-- ===== src/Server/System.antt =====
-- The server and its devices at the same time: the HTTP handlers of httphandlers.c, which run in
-- threads of their own, the messages that `handle_message` of websocketserver.c takes up one by
-- one, and the loop of each device's main.c. They meet in any order.
pub mod Busy
pub mod Counted
pub mod Sound
pub mod Reachable
pub mod Twice
pub mod Open
pub mod Schedule
pub mod Finishes
use esp32_fl.Base.{ℕ, String, Bool, true, not, ◌&&◌, ◌≡◌, Option, some, List, [], ◌∷◌, ◌++◌, map}
use esp32_fl.Float.{FloatArith}
use esp32_fl.Network.Metrics.{Evaluation}
use esp32_fl.Server.{FederatedLearning, ClientModel}
use esp32_fl.Server.Registry.{handle_get_noderegister, handle_get_checkmodelstatus}
use esp32_fl.Server.Aggregation.{handle_clint_model_message}
use esp32_fl.Server.Aggregation.Pending.{mem, remove}

-- A message that was sent, and waits in the network or in the buffer.
pub record Posted : Type 0 where
  pub sender : String
  pub message : String

-- `training` are the devices between the status 1 and the message they send.
pub record System (F : Type 0) : Type 0 where
  pub server : FederatedLearning F
  pub training : List String
  pub posted : List Posted

abbrev pub senders : List Posted → List String
senders = map Posted.sender

-- When a device asks for the status.
abbrev pub Asking : Type 0 → Type 0
Asking F = String → System F → Bool

-- The loop of main.c: a device that trains does not ask. It asks again half a second behind the
-- message, whether or not the server has taken the message up.
abbrev pub in_turn : {F : Type 0} → Asking F
in_turn ip s = not (mem ip s.training)

-- A device that also waits for its message to be taken up.
abbrev pub patient : {F : Type 0} → Asking F
patient ip s = not (mem ip s.training) && not (mem ip (senders s.posted))

module _ (fl : FloatArith) (env : Evaluation (FloatArith.F fl))
    (decode : String → Option (ClientModel (FloatArith.F fl)))
    (asks : Asking (FloatArith.F fl)) where
  open fl use {F}

  pub data Step (s : System F) : System F → Type 0 where
    registers :
        (ip : String) → Step s (record s { server = (handle_get_noderegister ip s.server).0 })
    -- The device is told that a model is there, and takes it.
    told :
        (ip : String)
        → asks ip s ≡ true
        → handle_get_checkmodelstatus ip s.server ≡ some 1
        → Step s (record s { training = ip ∷ s.training })
    sends :
        (ip message : String)
        → mem ip s.training ≡ true
        → Step s (record s {
          training = remove ip s.training;
          posted = s.posted ++ (record { sender = ip; message = message } ∷ []);
        })
    -- The websocket is not connected, or the model cannot be printed.
    keeps_back :
        (ip : String)
        → mem ip s.training ≡ true
        → Step s (record s { training = remove ip s.training })
    -- The connection breaks, or the server refuses the text as too big.
    loses : (p : Posted) (ps : List Posted) → s.posted ≡ p ∷ ps → Step s (record s { posted = ps })
    handles :
        (p : Posted) (ps : List Posted) (server' : FederatedLearning F)
        → s.posted ≡ p ∷ ps
        → handle_clint_model_message fl env decode p.message p.sender s.server ≡ some server'
        → Step s (record s { server = server'; posted = ps })

  pub data Reach (s : System F) : System F → Type 0 where
    here : Reach s s
    next : {t u : System F} → Reach s t → Step t u → Reach s u
