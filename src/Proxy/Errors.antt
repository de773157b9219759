-- ===== src/Proxy/Errors.antt =====
-- What the HTTP surface answers when it does not answer with a text.
use vibe_alfa_gen.Prelude.{
  ℕ, ◌≤◌, ◌<◌, ◌≡◌, ◌⊎◌, refl, ◌||◌, String, Option, none, some, leb, arith, ◌==◌, nat_eq, inl, inr,
  Bool-cases, Option-cases, not, ◌&&◌, string_eq, text_eq, length,
}
use vibe_alfa_gen.Domain.{
  Error, Result, ok, err, conflict, context_gone, demask_denied, invalid_policy, store_unavailable,
  detection_unavailable, invalid_request, invalid_model, canceled, deadline_exceeded, invalid_json,
  missing_field, extra_field, body_too_large, other,
}
use vibe_alfa_gen.Text.{Text}
use vibe_alfa_gen.Registry.{Registry}
use vibe_alfa_gen.Store.Interface.{StoreOps}
use vibe_alfa_gen.Engine.{Machine}
use vibe_alfa_gen.Engine.Processor.{process}
use vibe_alfa_gen.Proxy.{Consumer, Response, failed, write_error, write_pii_error, HttpRequest}
use vibe_alfa_gen.Proxy.Decode.{Decoder, decode_request}
use vibe_alfa_gen.Proxy.Handlers.{
  Server, Guard, refuse, pass, consumer, authenticate, scope_of, handle_process, requested_id,
  method_not_allowed, answer_process, process_request, Guard-cases,
}

-- An answer that reports a failure: a status of the client or of the server, and a code, with nothing
-- of the request. It may be tried again where the server is at fault or is busy.
pub record IsFailure (answer : Response) : Type 0 where
  pub code : String
  pub from : 400 ≤ answer.status
  pub below : answer.status < 600
  pub body : answer.body ≡ failed code (answer.status == 429 || leb 500 answer.status)

write_error-IsFailure :
    (status : ℕ) (code : String) → 400 ≤ status → status < 600 → IsFailure (write_error status code)
unfolding write_error
write_error-IsFailure status code from below = record {
  code = code;
  from = from;
  below = below;
  body = refl;
}

pub write_pii_error-IsFailure : (e : Error) → IsFailure (write_pii_error e)
unfolding write_pii_error
write_pii_error-IsFailure conflict =
    write_error-IsFailure 409 "context_conflict" (omega arith) (omega arith)
write_pii_error-IsFailure context_gone =
    write_error-IsFailure 410 "context_gone" (omega arith) (omega arith)
write_pii_error-IsFailure demask_denied =
    write_error-IsFailure 403 "demask_denied" (omega arith) (omega arith)
write_pii_error-IsFailure invalid_policy =
    write_error-IsFailure 503 "pii_unavailable" (omega arith) (omega arith)
write_pii_error-IsFailure store_unavailable =
    write_error-IsFailure 503 "pii_unavailable" (omega arith) (omega arith)
write_pii_error-IsFailure detection_unavailable =
    write_error-IsFailure 503 "pii_unavailable" (omega arith) (omega arith)
write_pii_error-IsFailure invalid_request =
    write_error-IsFailure 400 "invalid_request" (omega arith) (omega arith)
write_pii_error-IsFailure invalid_model =
    write_error-IsFailure 500 "internal_error" (omega arith) (omega arith)
write_pii_error-IsFailure canceled =
    write_error-IsFailure 504 "request_timeout" (omega arith) (omega arith)
write_pii_error-IsFailure deadline_exceeded =
    write_error-IsFailure 504 "request_timeout" (omega arith) (omega arith)
write_pii_error-IsFailure invalid_json =
    write_error-IsFailure 400 "invalid_request" (omega arith) (omega arith)
write_pii_error-IsFailure missing_field =
    write_error-IsFailure 400 "invalid_request" (omega arith) (omega arith)
write_pii_error-IsFailure extra_field =
    write_error-IsFailure 400 "invalid_request" (omega arith) (omega arith)
write_pii_error-IsFailure body_too_large =
    write_error-IsFailure 413 "body_too_large" (omega arith) (omega arith)
write_pii_error-IsFailure other =
    write_error-IsFailure 500 "internal_error" (omega arith) (omega arith)

-- What a guard that answers by itself answers.
abbrev RefusesWith : {A : Type 0} → Guard A → Type 0
RefusesWith (refuse answer) = IsFailure answer
RefusesWith (pass _) = Unit

authenticate-RefusesWith :
    (req : HttpRequest) (found : Option Consumer) → RefusesWith (authenticate req found)
authenticate-RefusesWith req none =
    write_error-IsFailure 403 "system_unavailable" (omega arith) (omega arith)
authenticate-RefusesWith req (some c) = elim (Bool-cases (not c.enabled)) [
  | inl e ↦ rw e (write_error-IsFailure 403 "system_unavailable" (omega arith) (omega arith))
  | inr e ↦ elim (Bool-cases (not (length c.api_key == 0) && not (req.api_key == c.api_key))) [
    | inl e' ↦
        rw (e, e') (write_error-IsFailure 401 "authentication_failed" (omega arith) (omega arith))
    | inr e' ↦ rw (e, e') tt
  ]
]

unavailable-IsFailure : (code : String) → IsFailure (write_error 503 code)
unavailable-IsFailure code = write_error-IsFailure 503 code (omega arith) (omega arith)

not_allowed-IsFailure : IsFailure method_not_allowed
unfolding write_error
not_allowed-IsFailure = record {
  code = "method_not_allowed";
  from = omega arith;
  below = omega arith;
  body = refl;
}

consumer-RefusesWith : (s : Server) (req : HttpRequest) → RefusesWith (consumer s req)
unfolding consumer
consumer-RefusesWith s req = elim (Bool-cases s.draining) [
  | inl e ↦ rw e (unavailable-IsFailure "draining")
  | inr e ↦ elim (Bool-cases (not (req.method == "POST"))) [
    | inl e1 ↦ rw (e, e1) not_allowed-IsFailure
    | inr e1 ↦ elim (Bool-cases (not s.has_processor)) [
      | inl e2 ↦ rw (e, e1, e2) (unavailable-IsFailure "not_configured")
      | inr e2 ↦ elim (Option-cases s.systems) [
        | inl e3 ↦ rw (e, e1, e2, e3) (unavailable-IsFailure "not_configured")
        | inr (resolve, e3) ↦
            rw (e, e1, e2, e3) (authenticate-RefusesWith req (resolve (requested_id s req)))
      ]
    ]
  ]
]

module _ {D : Type 0} (dec : Decoder D) (m : Machine) (r : Registry) {S : Type 0} (ops : StoreOps S)
    (s : Server) (req : HttpRequest) (st : S) where
  -- The Processor was called, and its result stands in the answer.
  pub record IsServed (answer : Response) (st' : S) : Type 0 where
    pub client : Consumer
    pub payload : Text
    pub id : Text
    pub outcome : Result Text
    pub admitted : consumer s req ≡ pass client
    pub decoded : decode_request dec req s.config.max_body_bytes ≡ ok (payload, id)
    pub called : process m r ops req.call st (scope_of s client id) payload ≡ (outcome, st')
    pub shown : answer ≡ answer_process outcome

  -- The request did not come to the Processor: the answer is a failure, and the store is untouched.
  pub record IsTurnedAway (answer : Response) (st' : S) : Type 0 where
    pub failure : IsFailure answer
    pub untouched : st' ≡ st

  process_request-outcome :
      (c : Consumer) (fields : Result (Text × Text))
      → consumer s req ≡ pass c
      → decode_request dec req s.config.max_body_bytes ≡ fields
      → let (answer, st') = process_request dec m r ops s req c fields st in
        IsTurnedAway answer st' ⊎ IsServed answer st'
  process_request-outcome c (err e) admitted decoded =
      inl (record { failure = write_pii_error-IsFailure e; untouched = refl })
  process_request-outcome c (ok (payload, id)) admitted decoded = inr (record {
    client = c;
    payload = payload;
    id = id;
    outcome = (process m r ops req.call st (scope_of s c id) payload).0;
    admitted = admitted;
    decoded = decoded;
    called = refl;
    shown = refl;
  })

  pub handle_process-outcome :
      let (answer, st') = handle_process dec m r ops s req st in
      IsTurnedAway answer st' ⊎ IsServed answer st'
  unfolding handle_process
  handle_process-outcome = elim (Guard-cases (consumer s req)) [
    | inl (answer, e) ↦
        let failure : IsFailure answer = rw e at (consumer-RefusesWith s req) in
        rw (handle_process, e) (inl (record { failure = failure; untouched = refl }))
    | inr (c, e) ↦
        rw (handle_process, e)
          (process_request-outcome c (decode_request dec req s.config.max_body_bytes) e refl)
  ]
