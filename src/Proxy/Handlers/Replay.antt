-- ===== src/Proxy/Handlers/Replay.antt =====
-- Two requests of /process for the same context.
use vibe_alfa_gen.Prelude.{
  ◌+◌, ◌≤◌, ◌<◌, ◌≡◌, refl, sym, ap, ◌∙◌, none, arith, not, if◌then◌else◌, ◌==◌, text_eq, inl, inr,
  Bool-cases,
}
use vibe_alfa_gen.Domain.{Result, ok, err, conflict, demask_denied}
use vibe_alfa_gen.Text.{Text}
use vibe_alfa_gen.Registry.{Registry}
use vibe_alfa_gen.Store.Interface.{StoreOps, IsStore}
use vibe_alfa_gen.Engine.{Machine, key}
use vibe_alfa_gen.Engine.Processor.{process}
use vibe_alfa_gen.Engine.Steps.{IsQuiet}
use vibe_alfa_gen.Engine.Replay.{process-process}
use vibe_alfa_gen.Proxy.{
  Consumer, Response, result, write_json, write_error, write_pii_error, HttpRequest,
}
use vibe_alfa_gen.Proxy.Decode.{Decoder, decode_request}
use vibe_alfa_gen.Proxy.Handlers.{Server, pass, consumer, scope_of, handle_process, answer_process}
use vibe_alfa_gen.Proxy.Errors.{write_pii_error-IsFailure}

result-injective : {x y : Text} → result x ≡ result y → x ≡ y
result-injective p = cc p

-- An answer with a text comes from a Processor that returned it.
answered :
    (outcome : Result Text) (text : Text)
    → answer_process outcome ≡ write_json 200 (result text)
    → outcome ≡ ok text
answered (ok text') text h = ap ok (result-injective (ap (λ a. a.body) h))
answered (err e) text h =
    let from = (write_pii_error-IsFailure e).from in
    let is_200 : (write_pii_error e).status ≡ 200 = ap (λ a. a.status) h in absurd (omega arith)

-- What a Processor whose context holds a text and its mask answers to a text.
known : Consumer → Text → Text → Text → Response
known c text masked t =
    if text == t
    then write_json 200 (result masked)
    else if masked == t
    then (if not c.policy.allow_demask
        then write_error 403 "demask_denied"
        else write_json 200 (result text))
    else write_error 409 "context_conflict"

answer_process-known :
    (c : Consumer) (text masked t : Text)
    → answer_process (
        if text == t
        then ok masked
        else if masked == t
        then (if not c.policy.allow_demask then err demask_denied else ok text)
        else err conflict)
      ≡ known c text masked t
unfolding known write_pii_error
answer_process-known c text masked t = elim (Bool-cases (text == t)) [
  | inl e ↦ rw e refl
  | inr e ↦ elim (Bool-cases (masked == t)) [
    | inr e1 ↦ rw (e, e1) refl
    | inl e1 ↦ elim (Bool-cases c.policy.allow_demask) [
      | inl e2 ↦ rw (e, e1, e2) refl
      | inr e2 ↦ rw (e, e1, e2) refl
    ]
  ]
]

module _ {D : Type 0} (dec : Decoder D) (m : Machine) (r : Registry) {S : Type 0} (ops : StoreOps S)
    (st : IsStore ops) (s : Server) where
  -- What an admitted request with a payload and its ID asks the Processor.
  pub record Asks (req : HttpRequest) (c : Consumer) (text id : Text) : Type 0 where
    pub admitted : consumer s req ≡ pass c
    pub decoded : decode_request dec req s.config.max_body_bytes ≡ ok (text, id)

  pub handle_process-asked :
      (req : HttpRequest) (c : Consumer) (text id : Text) (state : S)
      → Asks req c text id
      → let (outcome, state') = process m r ops req.call state (scope_of s c id) text in
        handle_process dec m r ops s req state ≡ (answer_process outcome, state')
  unfolding handle_process
  handle_process-asked req c text id state asks =
      rw (handle_process, asks.admitted, asks.decoded) refl

  -- Two requests of the same client with the same payload ID. When the first one, on a free ID, was
  -- answered with a mask, and while its context lasts, the second is answered with the same mask for
  -- the same text; for the mask with the text, or 403 where the policy does not allow it; and 409 for
  -- any other text.
  pub handle_process-handle_process :
      (first second : HttpRequest) (c : Consumer) (text masked t id : Text) (state state' : S)
      → Asks first c text id
      → Asks second c t id
      → st.view state first.call.now (key m (scope_of s c id) "process") ≡ none
      → handle_process dec m r ops s first state ≡ (write_json 200 (result masked), state')
      → IsQuiet second.call
      → first.call.now ≤ second.call.now
      → second.call.now < first.call.now + c.policy.ttl
      → (handle_process dec m r ops s second state').0 ≡ (
          if text == t
          then write_json 200 (result masked)
          else if masked == t
          then (if not c.policy.allow_demask
              then write_error 403 "demask_denied"
              else write_json 200 (result text))
          else write_error 409 "context_conflict")
  unfolding known
  handle_process-handle_process first second c text masked t id state state' ask ask' free h quiet
        later lasts =
      let called = sym (handle_process-asked first c text id state ask) ∙ h in
      let done : process m r ops first.call state (scope_of s c id) text ≡ (ok masked, state') =
        let shown =
          answered (process m r ops first.call state (scope_of s c id) text).0 masked
            (ap (λ p. p.0) called) in
        λ i. (shown i, (called i).1) in
      let again =
        process-process m r ops st first.call second.call state state' (scope_of s c id) text masked
          t free done quiet later lasts in
      ap (λ p. p.0) (handle_process-asked second c t id state' ask')
      ∙ ap answer_process again
      ∙ answer_process-known c text masked t
