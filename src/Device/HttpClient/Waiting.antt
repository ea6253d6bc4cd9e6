-- ===== src/Device/HttpClient/Waiting.antt =====
-- Waiting for the server.
use mathlib.Core.Path.{subst}
use esp32_fl.Base.{
  ℕ, zero, suc, String, true, false, ◌+◌, ◌<◌, ◌≡◌, refl, sym, ap, ◌∙◌, Option, none, some, List,
  arith,
}
use esp32_fl.Float.{FloatArith}
use esp32_fl.Json.{Cjson}
use esp32_fl.Json.Reader.{NewMemory}
use esp32_fl.Device.HttpClient.{Req, Event, isserverworking, wait_for_server}
use esp32_fl.Device.HttpClient.Requests.{answer, answered, perform_get_request_lem}

shift0 : (a : ℕ) → a + 0 ≡ a
shift0 a = omega arith

shift : (a i : ℕ) → a + suc i ≡ suc a + i
shift a i = omega arith

module _ (fl : FloatArith) (json : Cjson (FloatArith.D fl))
    (parse : String → Option (Cjson.Json json)) (memory : NewMemory (FloatArith.F fl)) where
  open json use {Json}

  -- The server is not there yet: nothing arrives, or no JSON.
  abbrev pub NoJson : Option (Option Json) → Type 0
  NoJson none = Unit
  NoJson (some none) = Unit
  NoJson (some (some j)) = ⊥

  still_null :
      (a : Option (Option Json))
      → NoJson a
      → answered fl json parse memory a Req.null_req ≡ Req.null_req
  still_null none h = refl
  still_null (some none) h = refl
  still_null (some (some j)) h = absurd h

  isserverworking-null :
      (es : List Event)
      → NoJson (answer fl json parse memory es)
      → isserverworking fl json parse memory es Req.null_req ≡ some (false, Req.null_req)
  unfolding isserverworking
  isserverworking-null es h = rw (
    perform_get_request_lem fl json parse memory es Req.null_req,
    still_null (answer fl json parse memory es) h,
  )

  isserverworking-live :
      (es : List Event) (j : Json) (r : Req Json)
      → answer fl json parse memory es ≡ some (some j)
      → isserverworking fl json parse memory es r ≡ some (true, Req.deleted_req)
  unfolding isserverworking
  isserverworking-live es j r e = rw (perform_get_request_lem fl json parse memory es r, e)

  -- From the start, where `req` is null, the device waits without a fault until the first attempt
  -- that is answered with JSON, however many attempts before it fail or bring something else, and
  -- then goes on: every number of rounds above that of the attempts is enough.
  pub wait_for_server-ends :
      (n fuel attempt : ℕ) (events : ℕ → List Event) (j : Json)
      → n < fuel
      → ((i : ℕ) → i < n → NoJson (answer fl json parse memory (events (attempt + i))))
      → answer fl json parse memory (events (attempt + n)) ≡ some (some j)
      → wait_for_server fl json parse memory fuel attempt events Req.null_req
        ≡ some (some (suc (attempt + n)), Req.deleted_req)
  unfolding wait_for_server
  wait_for_server-ends n zero attempt events j h silent found = absurd (omega arith)
  wait_for_server-ends zero (suc fuel) attempt events j h silent found =
      let here : attempt + 0 ≡ attempt = omega arith in
      let now : answer fl json parse memory (events attempt) ≡ some (some j) =
        ap (λ k. answer fl json parse memory (events k)) (sym here) ∙ found in
      rw (isserverworking-live (events attempt) j Req.null_req now, wait_for_server) (rw here)
  wait_for_server-ends (suc n) (suc fuel) attempt events j h silent found =
      let first : NoJson (answer fl json parse memory (events attempt)) =
        subst (λ k. NoJson (answer fl json parse memory (events k))) (shift0 attempt)
          (silent 0 (omega arith)) in
      let later = λ (i : ℕ) (p : i < n).
        subst (λ k. NoJson (answer fl json parse memory (events k))) (shift attempt i)
          (silent (suc i) (omega arith)) in
      let now : answer fl json parse memory (events (suc attempt + n)) ≡ some (some j) =
        ap (λ k. answer fl json parse memory (events k)) (sym (shift attempt n)) ∙ found in
      rw (isserverworking-null (events attempt) first, wait_for_server)
        (wait_for_server-ends n fuel (suc attempt) events j (omega arith) later now
          ∙ ap (λ k. some (some (suc k), Req.deleted_req)) (sym (shift attempt n)))
