-- ===== src/Proxy.antt =====
-- internal/proxy: the HTTP surface. What a request brings, what is answered, and the errors of
-- server.go; the children have the decoding of bodies, the handlers and the admission of requests.
pub mod Decode
pub mod Handlers
pub mod Admission
pub mod Errors
pub mod Policies
use vibe_alfa_gen.Prelude.{
  ℕ, Bool, true, false, ◌||◌, List, [], ◌∷◌, String, Option, none, some, leb, if◌then◌else◌, ◌==◌,
  nat_eq,
}
use vibe_alfa_gen.Domain.{
  Policy, Error, conflict, context_gone, demask_denied, invalid_policy, store_unavailable,
  detection_unavailable, invalid_request, invalid_model, canceled, deadline_exceeded, invalid_json,
  missing_field, extra_field, body_too_large, other,
}
use vibe_alfa_gen.Text.{Text}
use vibe_alfa_gen.Engine.{Call}

-- contracts.Consumer
pub record Consumer : Type 0 where
  pub id : String
  pub enabled : Bool
  pub api_key : Text
  pub policy : Policy

-- The JSON documents that are answered.
pub data Body : Type 0 where
  failed : String → Bool → Body
  result : Text → Body
  generated : Text → Text → Body
  state : String → Body

-- An answer, with the headers Allow and Retry-After where they are set.
pub record Response : Type 0 where
  pub status : ℕ
  pub body : Body
  pub allow : Bool
  pub retry_after : Bool

abbrev pub write_json : ℕ → Body → Response
write_json status body = record { status = status; body = body; allow = false; retry_after = false }

unfoldable pub write_error : ℕ → String → Response
write_error status code = write_json status (failed code (status == 429 || leb 500 status))

unfoldable pub write_pii_error : Error → Response
write_pii_error canceled = write_error 504 "request_timeout"
write_pii_error deadline_exceeded = write_error 504 "request_timeout"
write_pii_error conflict = write_error 409 "context_conflict"
write_pii_error context_gone = write_error 410 "context_gone"
write_pii_error demask_denied = write_error 403 "demask_denied"
write_pii_error store_unavailable = write_error 503 "pii_unavailable"
write_pii_error detection_unavailable = write_error 503 "pii_unavailable"
write_pii_error invalid_policy = write_error 503 "pii_unavailable"
write_pii_error body_too_large = write_error 413 "body_too_large"
write_pii_error invalid_json = write_error 400 "invalid_request"
write_pii_error missing_field = write_error 400 "invalid_request"
write_pii_error extra_field = write_error 400 "invalid_request"
write_pii_error invalid_request = write_error 400 "invalid_request"
write_pii_error invalid_model = write_error 500 "internal_error"
write_pii_error other = write_error 500 "internal_error"

unfoldable pub write_provider_error : Error → Response
write_provider_error canceled = write_error 504 "request_timeout"
write_provider_error deadline_exceeded = write_error 504 "request_timeout"
write_provider_error invalid_model = write_error 400 "invalid_model"
write_provider_error _ = write_error 502 "provider_failed"

-- ServerConfig. The rate is in thousandths of a request per second; 0 stands for every number that is
-- not positive, and `none` for a nil list.
pub record ServerConfig : Type 0 where
  pub max_body_bytes : ℕ
  pub concurrency_limit : ℕ
  pub request_timeout : ℕ
  pub rate_limit_rps : ℕ
  pub rate_limit_burst : ℕ
  pub allowed_models : Option (List Text)
  pub enable_generate : Bool

abbrev or_default : ℕ → ℕ → ℕ
or_default n d = if n == 0 then d else n

abbrev or_mock : Option (List Text) → Option (List Text)
or_mock none = some ((0x6D ∷ 0x6F ∷ 0x63 ∷ 0x6B ∷ []) ∷ [])
or_mock (some models) = some models

-- The configuration as NewServer keeps it.
unfoldable pub new_server : ServerConfig → ServerConfig
new_server cfg = record cfg {
  request_timeout = or_default cfg.request_timeout 10000000000;
  max_body_bytes = or_default cfg.max_body_bytes 2097152;
  concurrency_limit = or_default cfg.concurrency_limit 100;
  rate_limit_rps = or_default cfg.rate_limit_rps 10000000;
  rate_limit_burst = or_default cfg.rate_limit_burst 1000;
  allowed_models = or_mock cfg.allowed_models;
}

-- What a request brings: its method, headers and body, whether reading the body fails, what ctx.Err()
-- returns where it is looked at, and the time and the contexts of the calls of the Processor.
pub record HttpRequest : Type 0 where
  pub method : String
  pub system_id : String
  pub api_key : Text
  pub body : Text
  pub broken : Bool
  pub reading : Option Error
  pub request_id : Text
  pub call : Call
  pub masked : Option Error
  pub demask_call : Call
