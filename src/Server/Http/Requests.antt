-- ===== src/Server/Http/Requests.antt =====
-- What a request does to the state, and what is written for the requests of a device.
use esp32_fl.Base.{
  ℕ, String, Bool, true, false, ◌≡◌, ◌≢◌, refl, ◌⊎◌, inl, inr, Option, none, some, List, [], ◌∷◌,
  if◌then◌else◌, ◌>>=◌, Option-cases, Bool-cases,
}
use esp32_fl.Float.{FloatArith}
use esp32_fl.Server.{FederatedLearning}
use esp32_fl.Server.Registry.{Registration, handle_get_noderegister, handle_get_checkmodelstatus}
use esp32_fl.Server.Registry.Overrun.{Overruns, handle_get_noderegister-overrun}
use esp32_fl.Server.Registry.Valid.{IsValid, handle_get_noderegister-IsValid}
use esp32_fl.Server.Registry.Status.{Faults, handle_get_checkmodelstatus-fault}
use esp32_fl.Json.{Cjson}
use esp32_fl.Server.Registry.Requests.{SameModel, handle_get_noderegister-SameModel}
use esp32_fl.Server.Http.{status_response, register_result, handle_get_globalmodel, handle_request}

module _ (fl : FloatArith) (json : Cjson (FloatArith.D fl)) (print : Cjson.Json json → String)
    (strstr : String → String → Bool) where
  open fl use {F}

  -- The requests that fault: for the status, where a client that is not known is looked for, and
  -- for the registration, where the address does not fit the array.
  pub RequestFaults : String → String → FederatedLearning F → Type 0
  RequestFaults buffer ip s =
      ((strstr buffer "GET /api/checkglobalmodel HTTP/1.1" ≡ true) × Faults ip s)
      ⊎ ((strstr buffer "GET /api/checkglobalmodel HTTP/1.1" ≡ false)
          × (strstr buffer "GET /api/noderegister HTTP/1.1" ≡ true)
          × Overruns ip s)

  -- The outcome of a request: it faults, where it may, or something is written, the registry stays
  -- well formed, and the model stays as it is.
  abbrev pub Answers :
      String → String → FederatedLearning F → Option (FederatedLearning F × List String) → Type 0
  Answers buffer ip s none = RequestFaults buffer ip s
  Answers buffer ip s (some (s', [])) = ⊥
  Answers buffer ip s (some (s', text ∷ texts)) =
      (¬ (RequestFaults buffer ip s)) × IsValid s'.nodecontrol × SameModel s' s

  Answers-if :
      (buffer ip : String) (s : FederatedLearning F) (b : Bool)
      (x y : Option (FederatedLearning F × List String))
      → Answers buffer ip s x
      → Answers buffer ip s y
      → Answers buffer ip s (if b then x else y)
  Answers-if buffer ip s true x y p q = p
  Answers-if buffer ip s false x y p q = q

  module _ (buffer ip : String) (s : FederatedLearning F) (v : IsValid s.nodecontrol) where
    Answers-status :
        strstr buffer "GET /api/checkglobalmodel HTTP/1.1" ≡ true
        → Answers buffer ip s (do
          n ← handle_get_checkmodelstatus ip s
          some (s, status_response fl json print strstr n))
    unfolding RequestFaults
    Answers-status asks = elim (Option-cases (handle_get_checkmodelstatus ip s)) [
      | inl e ↦ rw e (inl (asks, (handle_get_checkmodelstatus-fault ip s).0 e))
      | inr (n, e) ↦
          let fine : ¬ (RequestFaults buffer ip s) = λ f. elim f [
            | inl (_, faults) ↦
                let gone = (handle_get_checkmodelstatus-fault ip s).1 faults in absurd cc
            | inr (other, _, _) ↦ absurd cc
          ] in
          rw e (fine, v, (refl, refl, refl, refl, refl))
    ]

    -- A registration that keeps to the array answers.
    Answers-result :
        (r : FederatedLearning F × Registration)
        → (r.1 ≡ Registration.overrun → RequestFaults buffer ip s)
        → (r.1 ≢ Registration.overrun → ¬ (RequestFaults buffer ip s))
        → IsValid r.0.nodecontrol × SameModel r.0 s
        → Answers buffer ip s (register_result r)
    Answers-result (s', Registration.limit_reached) f g kept = (g (λ e. cc), kept.0, kept.1)
    Answers-result (s', Registration.registred) f g kept = (g (λ e. cc), kept.0, kept.1)
    Answers-result (s', Registration.added) f g kept = (g (λ e. cc), kept.0, kept.1)
    Answers-result (s', Registration.overrun) f g kept = f refl

    Answers-register :
        strstr buffer "GET /api/checkglobalmodel HTTP/1.1" ≡ false
        → strstr buffer "GET /api/noderegister HTTP/1.1" ≡ true
        → Answers buffer ip s (register_result (handle_get_noderegister ip s))
    unfolding RequestFaults
    Answers-register other asks =
        Answers-result (handle_get_noderegister ip s)
          (λ e. inr (other, asks, (handle_get_noderegister-overrun ip s).0 e))
          (λ ne f. elim f [
            | inl (status, _) ↦ absurd cc
            | inr (_, _, over) ↦ absurd (ne ((handle_get_noderegister-overrun ip s).1 over))
          ])
          (handle_get_noderegister-IsValid ip s v, handle_get_noderegister-SameModel ip s)

    Answers-other :
        strstr buffer "GET /api/checkglobalmodel HTTP/1.1" ≡ false
        → strstr buffer "GET /api/noderegister HTTP/1.1" ≡ false
        → ¬ (RequestFaults buffer ip s)
    unfolding RequestFaults
    Answers-other a b f = elim f [ inl (status, _) ↦ absurd cc | inr (_, asks, _) ↦ absurd cc ]

  -- A request faults exactly where it is for the status, of an unknown client while the cycle is
  -- unfinished and all places are taken, or for the registration, of a new client while there is
  -- room, and the address has 15 characters or more, so that it is written past `ip_id`. In every
  -- other case, whatever a client asks for, a server with a well-formed registry writes an answer,
  -- keeps the registry well formed and the model, the sums, the counter and the cycle as they are.
  pub handle_request-Answers :
      (buffer client_ip : String) (s : FederatedLearning F)
      → IsValid s.nodecontrol
      → Answers buffer client_ip s (handle_request fl json print strstr buffer client_ip s)
  unfolding handle_request
  handle_request-Answers buffer client_ip s v =
      let asks = Answers-if buffer client_ip s in
      elim (Bool-cases (strstr buffer "GET /api/checkglobalmodel HTTP/1.1")) [
        | inl status ↦ rw status (Answers-status buffer client_ip s v status)
        | inr a ↦ elim (Bool-cases (strstr buffer "GET /api/noderegister HTTP/1.1")) [
          | inl register ↦ rw (a, register) (Answers-register buffer client_ip s v a register)
          | inr b ↦
              let same : (¬ (RequestFaults buffer client_ip s))
                  × IsValid s.nodecontrol
                  × SameModel s s =
                (Answers-other buffer client_ip s v a b, v, (refl, refl, refl, refl, refl)) in
              rw (a, b)
                (asks (strstr buffer "GET /api/getglobalmodel HTTP/1.1") _ _ same (
                  asks (strstr buffer "POST /api/postglobalmodel HTTP/1.1") _ _ same (
                    asks (strstr buffer "POST /api/testpost") _ _ same (
                      asks (strstr buffer "GET /api/testget HTTP/1.1") _ _ same
                        (asks (strstr buffer "GET / HTTP/1.1") _ _ same same)))))
        ]
      ]

  -- What is written for the two requests of a device that change nothing.
  pub status-written :
      (buffer client_ip : String) (s : FederatedLearning F) (n : ℕ)
      → strstr buffer "GET /api/checkglobalmodel HTTP/1.1" ≡ true
      → handle_get_checkmodelstatus client_ip s ≡ some n
      → handle_request fl json print strstr buffer client_ip s
        ≡ some (s, status_response fl json print strstr n)
  unfolding handle_request
  status-written buffer client_ip s n asks told = rw (asks, told)

  pub model-written :
      (buffer client_ip : String) (s : FederatedLearning F)
      → strstr buffer "GET /api/checkglobalmodel HTTP/1.1" ≡ false
      → strstr buffer "GET /api/noderegister HTTP/1.1" ≡ false
      → strstr buffer "GET /api/getglobalmodel HTTP/1.1" ≡ true
      → handle_request fl json print strstr buffer client_ip s
        ≡ some (s, handle_get_globalmodel fl json print strstr s)
  unfolding handle_request
  model-written buffer client_ip s a b asks = rw (a, b, asks)
