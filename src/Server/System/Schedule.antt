-- ===== src/Server/System/Schedule.antt =====
-- Schedules of the steps: what is on its way is given up, or devices fetch and send one after the
-- other.
use mathlib.Core.List.{map-append}
use esp32_fl.Base.{
  String, ◌≡◌, refl, ap, ◌∙◌, true, false, Option, some, List, [], ◌∷◌, ◌++◌, map, All, arith,
  str_eq, eq_iff, append_assoc, append-nil, >>=-eq-some,
}
use esp32_fl.Float.{FloatArith}
use esp32_fl.Network.{NeuralNetwork}
use esp32_fl.Network.Metrics.{Evaluation}
use esp32_fl.Server.{FederatedLearning, ClientModel}
use esp32_fl.Server.Registry.{handle_get_checkmodelstatus}
use esp32_fl.Server.Aggregation.{handle_clint_model_message}
use esp32_fl.Server.Aggregation.Pending.{mem, remove}
use esp32_fl.Server.Aggregation.Round.{Sent, Fits, deliver}
use esp32_fl.Server.System.{
  Posted, System, senders, patient, Step, told, sends, keeps_back, loses, handles, Reach, here,
  next,
}
use esp32_fl.Server.System.Busy.{Once, mem-append}

pub str_eq_refl : (ip : String) → str_eq ip ip ≡ true
str_eq_refl ip = (eq_iff ip ip).1 refl

module _ (fl : FloatArith) (env : Evaluation (FloatArith.F fl))
    (decode : String → Option (ClientModel (FloatArith.F fl))) where
  open fl use {F}

  abbrev pub Leads : System F → System F → Type 0
  Leads = Reach fl env decode patient

  pub Leads-trans : {s t u : System F} → Leads s t → Leads t u → Leads s u
  Leads-trans r here = r
  Leads-trans r (next q st) = next (Leads-trans r q) st

  abbrev pub state : FederatedLearning F → List String → List Posted → System F
  state s ts ps = record { server = s; training = ts; posted = ps }

  -- What is on its way may come to nothing.
  pub clear_training :
      (s : FederatedLearning F) (ts : List String) (ps : List Posted)
      → Leads (state s ts ps) (state s [] ps)
  clear_training s [] ps = here
  clear_training s (x ∷ ts) ps =
      let step : Step fl env decode patient (state s (x ∷ ts) ps) (state s (remove x (x ∷ ts)) ps) =
        keeps_back x (rw (str_eq_refl x) refl) in
      Leads-trans (next here (rw (str_eq_refl x) at step)) (clear_training s ts ps)

  pub clear_posted :
      (s : FederatedLearning F) (ps : List Posted) → Leads (state s [] ps) (state s [] [])
  clear_posted s [] = here
  clear_posted s (p ∷ ps) = Leads-trans (next here (loses p ps refl)) (clear_posted s ps)

  -- A text, from each of the devices.
  abbrev pub from_each : Sent F → List String → List (Sent F)
  from_each m ips = map (λ ip. record m { ip = ip }) ips

  abbrev pub post : Sent F → Posted
  post m = record { sender = m.ip; message = m.message }

  fetch_one :
      (s : FederatedLearning F) (m : Sent F) (ip : String) (ps : List Posted)
      → handle_get_checkmodelstatus ip s ≡ some 1
      → mem ip (senders ps) ≡ false
      → Leads (state s [] ps) (state s [] (ps ++ (post (record m { ip = ip }) ∷ [])))
  fetch_one s m ip ps one free =
      let step : Step fl env decode patient (state s (ip ∷ []) ps)
          (state s (remove ip (ip ∷ [])) (ps ++ (post (record m { ip = ip }) ∷ []))) =
        sends ip m.message (rw (str_eq_refl ip) refl) in
      next (next here (told ip (ground arith) one)) (rw (str_eq_refl ip) at step)

  pub fetch_all :
      (s : FederatedLearning F) (m : Sent F) (ips : List String) (ps : List Posted)
      → Once ips
      → ((ip : String) → mem ip ips ≡ true → handle_get_checkmodelstatus ip s ≡ some 1)
      → ((ip : String) → mem ip ips ≡ true → mem ip (senders ps) ≡ false)
      → Leads (state s [] ps) (state s [] (ps ++ map post (from_each m ips)))
  fetch_all s m [] ps o one free = rw (append-nil ps) here
  fetch_all s m (ip ∷ ips) ps (o, os) one free =
      let new : List Posted = post (record m { ip = ip }) ∷ [] in
      let first =
        fetch_one s m ip ps (one ip (ground (arith, str_eq_refl ip)))
          (free ip (ground (arith, str_eq_refl ip))) in
      let later : (x : String) → mem x ips ≡ true → mem x (senders (ps ++ new)) ≡ false = λ x e.
        ap (mem x) (map-append Posted.sender ps new)
        ∙ ground (
          arith,
          mem-append x (senders ps) (ip ∷ []),
          eq_iff ip x,
          ap (λ y. mem y ips),
          free x (ground (arith, e)),
        ) in
      let rest = fetch_all s m ips (ps ++ new) os (λ x e. one x (ground (arith, e))) later in
      Leads-trans first (rw (append_assoc ps new (map post (from_each m ips))) at rest)

  pub handle_each :
      (ms : List (Sent F)) (s r : FederatedLearning F)
      → deliver fl env decode ms s ≡ some r
      → Leads (state s [] (map post ms)) (state r [] [])
  unfolding deliver
  handle_each [] s r done = let same : s ≡ r = cc in rw same here
  handle_each (m ∷ ms) s r done =
      let (s', ran, rest) =
        >>=-eq-some (handle_clint_model_message fl env decode m.message m.ip s) _ done in
      Leads-trans (next here (handles (post m) (map post ms) s' refl ran))
        (handle_each ms s' r rest)

  pub All-from_each :
      (sums : NeuralNetwork F) (m : Sent F) (ips : List String)
      → Fits fl env decode sums m
      → All (Fits fl env decode sums) (from_each m ips)
  All-from_each sums m [] h = tt
  All-from_each sums m (ip ∷ ips) h = (h, All-from_each sums m ips h)

  pub ips-from_each : (m : Sent F) (ips : List String) → map Sent.ip (from_each m ips) ≡ ips
  ips-from_each m [] = refl
  ips-from_each m (ip ∷ ips) = ap (◌∷◌ ip) (ips-from_each m ips)
