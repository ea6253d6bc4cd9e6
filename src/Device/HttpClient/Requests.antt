-- ===== src/Device/HttpClient/Requests.antt =====
-- When the requests of the device touch a deleted tree.
use esp32_fl.Base.{
  String, ◌≡◌, refl, ap, ◌∙◌, ◌≢◌, ◌↔◌, inl, inr, Option, none, some, List, [], ◌∷◌, All, ◌>>=◌,
  Option-cases,
}
use esp32_fl.Float.{FloatArith}
use esp32_fl.Json.{Cjson, or_else}
use esp32_fl.Json.Reader.{NewMemory}
use esp32_fl.Device.HttpClient.{
  Req, Event, delete_req, set_req, client_event_get_handler, perform_get_request, getglobalmodel,
  getglobalmodelstatus, registernode, isserverworking,
}

pub data Call : Type 0 where
  get_model : Call
  get_status : Call
  register : Call
  test_server : Call

module _ (fl : FloatArith) (json : Cjson (FloatArith.D fl))
    (parse : String → Option (Cjson.Json json)) (memory : NewMemory (FloatArith.F fl)) where
  open json use {Json}

  -- The last text that arrives in a request, parsed.
  abbrev pub answer : List Event → Option (Option Json)
  answer [] = none
  answer (Event.http_event_error ∷ es) = answer es
  answer (Event.http_event_on_data text ∷ es) = or_else (answer es) (some (parse text))
  answer (Event.http_event_disconnected ∷ es) = answer es
  answer (Event.other_event ∷ es) = answer es

  abbrev pub answered : Option (Option Json) → Req Json → Req Json
  answered none r = r
  answered (some item) r = set_req item

  handled :
      (text : String) (r : Req Json)
      → (client_event_get_handler fl json parse memory (Event.http_event_on_data text) r).1
        ≡ set_req (parse text)
  unfolding client_event_get_handler
  handled text r = elim (Option-cases (parse text)) [
    | inl e ↦ rw (e, client_event_get_handler)
    | inr (j, e) ↦ rw (e, client_event_get_handler)
  ]

  last_text :
      (a : Option (Option Json)) (item : Option Json) (r : Req Json)
      → answered a (set_req item) ≡ answered (or_else a (some item)) r
  last_text none item r = refl
  last_text (some other) item r = refl

  pub perform_get_request_lem :
      (es : List Event) (r : Req Json)
      → perform_get_request fl json parse memory es r ≡ answered (answer es) r
  unfolding perform_get_request client_event_get_handler
  perform_get_request_lem [] r = refl
  perform_get_request_lem (Event.http_event_error ∷ es) r = perform_get_request_lem es r
  perform_get_request_lem (Event.http_event_on_data text ∷ es) r =
      ap (perform_get_request fl json parse memory es) (handled text r)
      ∙ perform_get_request_lem es (set_req (parse text))
      ∙ last_text (answer es) (parse text) r
  perform_get_request_lem (Event.http_event_disconnected ∷ es) r = perform_get_request_lem es r
  perform_get_request_lem (Event.other_event ∷ es) r = perform_get_request_lem es r

  -- What is left of `req`.
  abbrev pub run_call : Call → List Event → Req Json → Option (Req Json)
  run_call get_model es r = do (_, r') ← getglobalmodel fl json parse memory es r; some r'
  run_call get_status es r = do (_, r') ← getglobalmodelstatus fl json parse memory es r; some r'
  run_call register es r = registernode fl json parse memory es r
  run_call test_server es r = do (_, r') ← isserverworking fl json parse memory es r; some r'

  abbrev pub run_calls : List (Call × List Event) → Req Json → Option (Req Json)
  run_calls [] r = some r
  run_calls ((c, es) ∷ calls) r = do r' ← run_call c es r; run_calls calls r'

  -- Every request ends with a read and a deletion of `req`.
  ends :
      (c : Call) (es : List Event) (r q : Req Json)
      → perform_get_request fl json parse memory es r ≡ q
      → run_call c es r ≡ delete_req q
  unfolding getglobalmodel getglobalmodelstatus registernode isserverworking
  ends get_model es r Req.null_req e = rw (e, getglobalmodel)
  ends get_model es r (Req.live_req j) e = rw (e, getglobalmodel)
  ends get_model es r Req.deleted_req e = rw (e, getglobalmodel)
  ends get_status es r Req.null_req e = rw (e, getglobalmodelstatus)
  ends get_status es r (Req.live_req j) e = rw (e, getglobalmodelstatus)
  ends get_status es r Req.deleted_req e = rw (e, getglobalmodelstatus)
  ends register es r q e = rw (e, registernode)
  ends test_server es r Req.null_req e = rw (e, isserverworking)
  ends test_server es r (Req.live_req j) e = rw (e, isserverworking)
  ends test_server es r Req.deleted_req e = rw (e, isserverworking)

  pub run_call_lem :
      (c : Call) (es : List Event) (r : Req Json)
      → run_call c es r ≡ delete_req (answered (answer es) r)
  run_call_lem c es r = ends c es r (answered (answer es) r) (perform_get_request_lem es r)

  delete-none :
      (a : Option (Option Json)) (r : Req Json)
      → (delete_req (answered a r) ≡ none) ↔ ((a ≡ none) × (r ≡ Req.deleted_req))
  delete-none none Req.null_req = (λ e. cc, λ (_, e). cc)
  delete-none none (Req.live_req j) = (λ e. cc, λ (_, e). cc)
  delete-none none Req.deleted_req = (λ e. (refl, refl), λ _. refl)
  delete-none (some none) r = (λ e. cc, λ (e, _). cc)
  delete-none (some (some j)) r = (λ e. cc, λ (e, _). cc)

  -- A request touches a deleted tree exactly if no text arrives in it and the tree of the request
  -- before it was deleted; this holds for each of the four kinds of requests.
  pub run_call-faults :
      (c : Call) (es : List Event) (r : Req Json)
      → (run_call c es r ≡ none) ↔ ((answer es ≡ none) × (r ≡ Req.deleted_req))
  run_call-faults c es r = rw (run_call_lem c es r) (delete-none (answer es) r)

  -- If some text arrives in every request, be it JSON or not, no sequence of requests touches a
  -- deleted tree, whatever `req` is at first.
  pub run_calls-answered :
      (calls : List (Call × List Event)) (r : Req Json)
      → All (λ c. answer (c.1) ≢ none) calls
      → (r' : Req Json) × (run_calls calls r ≡ some r')
  run_calls-answered [] r h = (r, refl)
  run_calls-answered ((c, es) ∷ calls) r (h, hs) = elim (Option-cases (run_call c es r)) [
    | inl e ↦ absurd (h ((run_call-faults c es r).0 e).0)
    | inr (r', e) ↦ let (r'', rest) = run_calls-answered calls r' hs in (r'', rw e rest)
  ]
