-- ===== src/Proxy/Handlers.antt =====
-- internal/proxy/server.go: the handlers of /process, /v1/generate and /ready, and the routes.
pub mod Provider
pub mod Replay
use vibe_alfa_gen.Prelude.{
  ℕ, Bool, true, false, not, ◌&&◌, ◌||◌, List, [], ◌∷◌, String, Option, none, some, if◌then◌else◌,
  ◌==◌, string_eq, text_eq, nat_eq, length, contains, ◌≡◌, refl, ◌⊎◌, inl, inr,
}
use vibe_alfa_gen.Domain.{Policy, Scope, Error, Result, ok, err}
use vibe_alfa_gen.Text.{Text, codes}
use vibe_alfa_gen.Registry.{Registry}
use vibe_alfa_gen.Store.Interface.{StoreOps}
use vibe_alfa_gen.Engine.{Machine}
use vibe_alfa_gen.Engine.Processor.{Masked, process, mask_text, demask}
use vibe_alfa_gen.Proxy.{
  Consumer, Response, Body, failed, result, generated, state, write_json, write_error,
  write_pii_error, write_provider_error, ServerConfig, HttpRequest,
}
use vibe_alfa_gen.Proxy.Decode.{Decoder, Slot, decode_object, decode_request, slot_value}

-- contracts.ProviderRequest
pub record ProviderRequest : Type 0 where
  pub request_id : Text
  pub model : Text
  pub text : Text

-- Server, but for its processor, limiter and semaphore. A nil resolver, provider or health checker is
-- `none`; `name` gives the ID that a Text spells.
pub record Server : Type 0 where
  pub config : ServerConfig
  pub draining : Bool
  pub systems : Option (String → Option Consumer)
  pub has_processor : Bool
  pub default_system : String
  pub provider : Option (ProviderRequest → Result Text)
  pub health : Option (Result (Unit {0}))
  pub name : Text → String

-- A guard answers by itself, or lets a value through.
pub data Guard (A : Type 0) : Type 0 where
  refuse : Response → Guard A
  pass : A → Guard A

pub Guard-cases :
    {A : Type 0} (g : Guard A)
    → ((answer : Response) × (g ≡ refuse answer)) ⊎ ((a : A) × (g ≡ pass a))
Guard-cases (refuse answer) = inl (answer, refl)
Guard-cases (pass a) = inr (a, refl)

abbrev pub method_not_allowed : Response
method_not_allowed = record (write_error 405 "method_not_allowed") { allow = true }

abbrev pub requested_id : Server → HttpRequest → String
requested_id s req = if req.system_id == "" then s.default_system else req.system_id

abbrev pub authenticate : HttpRequest → Option Consumer → Guard Consumer
authenticate req none = refuse (write_error 403 "system_unavailable")
authenticate req (some c) =
    if not c.enabled
    then refuse (write_error 403 "system_unavailable")
    else if not (length c.api_key == 0) && not (req.api_key == c.api_key)
    then refuse (write_error 401 "authentication_failed")
    else pass c

-- Server.consumer
unfoldable pub consumer : Server → HttpRequest → Guard Consumer
consumer s req =
    if s.draining
    then refuse (write_error 503 "draining")
    else if not (req.method == "POST")
    then refuse method_not_allowed
    else if not s.has_processor
    then refuse (write_error 503 "not_configured")
    else elim s.systems [
      | none ↦ refuse (write_error 503 "not_configured")
      | some resolve ↦ authenticate req (resolve (requested_id s req))
    ]

abbrev pub scope_of : Server → Consumer → Text → Scope
scope_of s c id = record { tenant_id = c.id; context_id = s.name id; policy = c.policy }

abbrev pub answer_process : Result Text → Response
answer_process (ok text) = write_json 200 (result text)
answer_process (err e) = write_pii_error e

-- The fields of a request of /v1/generate: the ID, the model and the text.
pub record Generate : Type 0 where
  pub id : Text
  pub model : Text
  pub text : Text

abbrev models_of : Option (List Text) → List Text
models_of none = []
models_of (some models) = models

abbrev check_model : Server → Generate → Guard Generate
check_model s g =
    if length g.id == 0 || length g.model == 0
    then refuse (write_error 400 "missing_field")
    else if not (contains (models_of s.config.allowed_models) g.model)
    then refuse (write_error 400 "invalid_model")
    else pass g

abbrev check_fields : Server → Option Text → Option Text → Option Text → Guard Generate
check_fields s (some id) (some model) (some text) =
    check_model s (record { id = id; model = model; text = text })
check_fields s _ _ _ = refuse (write_error 400 "missing_field")

abbrev pub check_slots : Server → Result (List Slot) → Guard Generate
check_slots s (err e) = refuse (write_pii_error e)
check_slots s (ok slots) =
    check_fields s (slot_value (codes "request_id") slots) (slot_value (codes "model") slots)
      (slot_value (codes "text") slots)

abbrev answer_health : Option (Result (Unit {0})) → Response
answer_health none = write_json 200 (state "ready")
answer_health (some (ok _)) = write_json 200 (state "ready")
answer_health (some (err _)) = write_error 503 "dependency_unavailable"

abbrev is_none {ℓ} : {A : Type ℓ} → Option A → Bool
is_none none = true
is_none (some _) = false

abbrev resolves : Server → Option (String → Option Consumer) → Bool
resolves s none = false
resolves s (some resolve) = not (is_none (resolve s.default_system))

-- Server.handleReady
unfoldable pub handle_ready : Server → Response
handle_ready s =
    if s.draining
    then write_error 503 "draining"
    else if is_none s.systems || not s.has_processor
    then write_error 503 "not_ready"
    else if s.config.enable_generate && is_none s.provider
    then write_error 503 "not_ready"
    else if not (resolves s s.systems)
    then write_error 503 "not_ready"
    else answer_health s.health

-- Server.handleHealth
abbrev pub handle_health : Response
handle_health = write_json 200 (state "ok")

abbrev pub answer_generate : Text → Result Text → Response
answer_generate id (ok text) = write_json 200 (generated id text)
answer_generate id (err e) = write_pii_error e

abbrev pub provider_request : HttpRequest → Generate → Masked → ProviderRequest
provider_request req g masked = record {
  request_id = req.request_id;
  model = g.model;
  text = masked.text;
}

module _ {D : Type 0} (dec : Decoder D) (m : Machine) (r : Registry) {S : Type 0}
    (ops : StoreOps S) where
  abbrev pub process_request :
      Server → HttpRequest → Consumer → Result (Text × Text) → S → Response × S
  process_request s req c (err e) st = (write_pii_error e, st)
  process_request s req c (ok (payload, id)) st =
      let (answer, st') = process m r ops req.call st (scope_of s c id) payload in
      (answer_process answer, st')

  -- Server.handleProcess
  unfoldable pub handle_process : Server → HttpRequest → S → Response × S
  handle_process s req st = elim (consumer s req) [
    | refuse answer ↦ (answer, st)
    | pass c ↦ process_request s req c (decode_request dec req s.config.max_body_bytes) st
  ]

  abbrev pub demask_reply : HttpRequest → Scope → Generate → Result Text → S → Response × S
  demask_reply req scope g (err e) st = (write_provider_error e, st)
  demask_reply req scope g (ok reply) st =
      let (answer, st') = demask m r ops req.demask_call st scope reply in
      (answer_generate g.id answer, st')

  -- What follows Mask: the look at the context, the provider and Demask.
  abbrev pub ask_provider :
      (ProviderRequest → Result Text)
      → HttpRequest
      → Scope
      → Generate
      → Result Masked
      → S
      → Response × S
  ask_provider generate req scope g (err e) st = (write_pii_error e, st)
  ask_provider generate req scope g (ok masked) st = elim req.masked [
    | some e ↦ (write_pii_error e, st)
    | none ↦ demask_reply req scope g (generate (provider_request req g masked)) st
  ]

  abbrev pub generate_decoded :
      (ProviderRequest → Result Text)
      → Server
      → HttpRequest
      → Consumer
      → Guard Generate
      → S
      → Response × S
  generate_decoded generate s req c (refuse answer) st = (answer, st)
  generate_decoded generate s req c (pass g) st =
      let scope = scope_of s c g.id in
      let (masked, st') = mask_text m r ops req.call st scope g.text in
      ask_provider generate req scope g masked st'

  abbrev pub generate_fields : Server → HttpRequest → Guard Generate
  generate_fields s req = check_slots s (
      decode_object dec req s.config.max_body_bytes
        (codes "request_id" ∷ codes "model" ∷ codes "text" ∷ []))

  abbrev pub generate_for :
      Server → HttpRequest → Consumer → Option (ProviderRequest → Result Text) → S → Response × S
  generate_for s req c none st = (write_error 503 "provider_unavailable", st)
  generate_for s req c (some generate) st =
      generate_decoded generate s req c (generate_fields s req) st

  -- Server.handleGenerate
  unfoldable pub handle_generate : Server → HttpRequest → S → Response × S
  handle_generate s req st = elim (consumer s req) [
    | refuse answer ↦ (answer, st)
    | pass c ↦ generate_for s req c s.provider st
  ]

  -- The routes of Server.Handler.
  unfoldable pub route : Server → String → HttpRequest → S → Response × S
  unfolding handle_process handle_generate
  route s path req st =
      if path == "/process"
      then handle_process s req st
      else if s.config.enable_generate && path == "/v1/generate"
      then handle_generate s req st
      else if path == "/live" || path == "/healthz"
      then (handle_health, st)
      else if path == "/ready" || path == "/readyz"
      then (handle_ready s, st)
      else (write_error 404 "not_found", st)
