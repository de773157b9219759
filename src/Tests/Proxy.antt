-- ===== src/Tests/Proxy.antt =====
-- Requests to the HTTP surface, over a decoder that reads a script of tokens.
use vibe_alfa_gen.Prelude.{
  ℕ, ◌≡◌, refl, sym, ap, ◌∙◌, true, false, Bool, List, [], ◌∷◌, String, Option, some, none, arith,
  if◌then◌else◌, ◌==◌, nat_eq, text_eq, string_eq, ◌⊎◌, contains,
}
use vibe_alfa_gen.Domain.{Result, ok, err, other}
use vibe_alfa_gen.Text.{Text, codes}
use vibe_alfa_gen.Engine.{key}
use vibe_alfa_gen.Engine.Processor.{mask_text}
use vibe_alfa_gen.Engine.Steps.{ok-injective}
use vibe_alfa_gen.Store.{TtlStore}
use vibe_alfa_gen.Store.Interface.{ttl_ops, ttl_ops-IsStore}
use vibe_alfa_gen.Proxy.{
  Consumer, Response, result, write_json, HttpRequest, ServerConfig, new_server,
}
use vibe_alfa_gen.Proxy.Decode.{
  Token, delim, str, another, eof, broken, Decoder, Slot, fresh_slots, decode_fields,
  decode_request,
}
use vibe_alfa_gen.Proxy.Decode.Ends.{decode_fields-ends}
use vibe_alfa_gen.Proxy.Handlers.{
  Server, Generate, pass, consumer, handle_process, handle_generate, generate_fields,
}
use vibe_alfa_gen.Proxy.Handlers.Provider.{
  Provider, AgreeOnMask, with_provider, handle_generate-with_provider,
}
use vibe_alfa_gen.Proxy.Handlers.Replay.{Asks, handle_process-asked, handle_process-handle_process}
use vibe_alfa_gen.Proxy.Errors.{IsServed, IsTurnedAway, handle_process-outcome}
use vibe_alfa_gen.Proxy.Admission.{acquire_request, with_middleware, request_operation, is_limited}
use vibe_alfa_gen.Proxy.Admission.Slots.{
  Service, started, admitted, Reach, here, next, IsOpen, Reach-IsOpen,
}
use vibe_alfa_gen.Proxy.Admission.Panics.{IsRefused, IsHandled, with_middleware-after}
use vibe_alfa_gen.Tests.Findings.{phones_only}
use vibe_alfa_gen.Tests.Requests.{
  machine, registry, call_at, scope, message, masked_message, empty_store, after_process, processed,
  free, plain, shown, mask_done,
}

abbrev next_token : List Token → Token × List Token
next_token [] = (eof, [])
next_token (t ∷ ts) = (t, ts)

abbrev next_value : List Token → Option (Option Text) × List Token
next_value (str s ∷ ts) = (some (some s), ts)
next_value ts = (none, ts)

abbrev more_fields : List Token → Bool
more_fields [] = false
more_fields (delim _ ∷ _) = false
more_fields _ = true

-- The body is the payload, of the context `c1`.
abbrev payloads : Decoder (List Token)
payloads = record {
  start = λ body.
      delim 0x7B
      ∷ str (codes "payload")
      ∷ str body
      ∷ str (codes "payload_id")
      ∷ str (codes "c1")
      ∷ delim 0x7D
      ∷ [];
  token = next_token;
  more = more_fields;
  decode = next_value;
}

-- The body is the text to send to the model, of the context `c1`.
abbrev texts : Decoder (List Token)
texts = record payloads {
  start = λ body.
      delim 0x7B
      ∷ str (codes "text")
      ∷ str body
      ∷ str (codes "model")
      ∷ str (codes "mock")
      ∷ str (codes "request_id")
      ∷ str (codes "c1")
      ∷ delim 0x7D
      ∷ [];
}

abbrev acme : Consumer
acme = record { id = "acme"; enabled = true; api_key = codes "k"; policy = phones_only }

abbrev only_acme : String → Option Consumer
only_acme id = if id == "acme" then some acme else none

abbrev defaults : ServerConfig
defaults = record {
  max_body_bytes = 50;
  concurrency_limit = 2;
  request_timeout = 0;
  rate_limit_rps = 0;
  rate_limit_burst = 0;
  allowed_models = some (codes "mock" ∷ []);
  enable_generate = true;
}

abbrev pub server : Server
server = record {
  config = defaults;
  draining = false;
  systems = some only_acme;
  has_processor = true;
  default_system = "acme";
  provider = none;
  health = none;
  name = λ id. "c1";
}

abbrev pub post : ℕ → Text → HttpRequest
post now body = record {
  method = "POST";
  system_id = "";
  api_key = codes "k";
  body = body;
  broken = false;
  reading = none;
  request_id = codes "r1";
  call = call_at now;
  masked = none;
  demask_call = call_at now;
}

-- The third field is not read: the name comes a second time.
decode_fields-ends_example :
    (result : Result (List Slot) × List Token) × (decode_fields payloads 2
        (fresh_slots (codes "a" ∷ []))
        (str (codes "a") ∷ str [] ∷ str (codes "a") ∷ [])
      ≡ some result)
decode_fields-ends_example =
    decode_fields-ends payloads (codes "a" ∷ []) (str (codes "a") ∷ str [] ∷ str (codes "a") ∷ [])

admitted_acme : (now : ℕ) (body : Text) → consumer server (post now body) ≡ pass acme
unfolding consumer
admitted_acme now body = refl

decoded_first : decode_request payloads (post 1 message) 50 ≡ ok (message, codes "c1")
unfolding decode_request vibe_alfa_gen.Proxy.Decode.decode_object
    vibe_alfa_gen.Text.Utf8.valid_string vibe_alfa_gen.Proxy.Decode.decode_body
    vibe_alfa_gen.Proxy.Decode.is_free fresh_slots vibe_alfa_gen.Proxy.Decode.put
    vibe_alfa_gen.Proxy.Decode.finish vibe_alfa_gen.Proxy.Decode.slot_value
decoded_first = refl

decoded_second :
    decode_request payloads (post 2 masked_message) 50 ≡ ok (masked_message, codes "c1")
unfolding decode_request vibe_alfa_gen.Proxy.Decode.decode_object
    vibe_alfa_gen.Text.Utf8.valid_string vibe_alfa_gen.Proxy.Decode.decode_body
    vibe_alfa_gen.Proxy.Decode.is_free fresh_slots vibe_alfa_gen.Proxy.Decode.put
    vibe_alfa_gen.Proxy.Decode.finish vibe_alfa_gen.Proxy.Decode.slot_value
decoded_second = refl

asked_first :
    Asks payloads machine registry ttl_ops ttl_ops-IsStore server
      (post 1 message)
      acme
      message
      (codes "c1")
asked_first = record { admitted = admitted_acme 1 message; decoded = decoded_first }

asked_second :
    Asks payloads machine registry ttl_ops ttl_ops-IsStore server
      (post 2 masked_message)
      acme
      masked_message
      (codes "c1")
asked_second = record { admitted = admitted_acme 2 masked_message; decoded = decoded_second }

answered_first :
    handle_process payloads machine registry ttl_ops server (post 1 message) empty_store
    ≡ (write_json 200 (result masked_message), after_process)
answered_first =
    handle_process-asked payloads machine registry ttl_ops ttl_ops-IsStore server (post 1 message)
      acme message (codes "c1") empty_store asked_first
    ∙ rw processed refl

handle_process-handle_process_example :
    (handle_process payloads machine registry ttl_ops server
      (post 2 masked_message)
      after_process).0
    ≡ write_json 200 (result message)
handle_process-handle_process_example =
    handle_process-handle_process payloads machine registry ttl_ops ttl_ops-IsStore server
      (post 1 message) (post 2 masked_message) acme message masked_message masked_message
      (codes "c1") empty_store after_process asked_first asked_second
      (free (key machine scope "process")) answered_first (record { before = refl; after = refl })
      (omega arith) (omega arith)

abbrev first_answer : Response × TtlStore
first_answer = handle_process payloads machine registry ttl_ops server (post 1 message) empty_store

handle_process-outcome_example :
    IsTurnedAway payloads machine registry ttl_ops server
      (post 1 message)
      empty_store
      first_answer.0
      first_answer.1
    ⊎ IsServed payloads machine registry ttl_ops server
        (post 1 message)
        empty_store
        first_answer.0
        first_answer.1
handle_process-outcome_example =
    handle_process-outcome payloads machine registry ttl_ops server (post 1 message) empty_store

-- Two providers that differ on every text but the mask.
abbrev echo : Provider
echo request = ok request.text

abbrev narrow : Provider
narrow request = if request.text == plain then ok request.text else err other

abbrev asked_text : Generate
asked_text = record { id = codes "c1"; model = codes "mock"; text = plain }

fields_of : generate_fields texts machine registry ttl_ops server (post 1 plain) ≡ pass asked_text
unfolding vibe_alfa_gen.Proxy.Decode.decode_object vibe_alfa_gen.Text.Utf8.valid_string
    vibe_alfa_gen.Proxy.Decode.decode_body vibe_alfa_gen.Proxy.Decode.is_free fresh_slots
    vibe_alfa_gen.Proxy.Decode.put vibe_alfa_gen.Proxy.Decode.finish
    vibe_alfa_gen.Proxy.Decode.slot_value contains
fields_of = refl

pass-injective : {A : Type 0} {x y : A} → pass x ≡ pass y → x ≡ y
pass-injective p = cc p

agree : AgreeOnMask texts machine registry ttl_ops server (post 1 plain) empty_store echo narrow
agree c g masked st' is_c is_g h =
    let same_c : acme ≡ c = pass-injective (sym (admitted_acme 1 plain) ∙ is_c) in
    let same_g : asked_text ≡ g = pass-injective (sym fields_of ∙ is_g) in
    let done : mask_text machine registry ttl_ops (call_at 1) empty_store scope plain
        ≡ (ok masked, st') =
      rw (← same_c, ← same_g) at h in
    let seen : shown ≡ masked = ok-injective (ap (λ p. p.0) (sym mask_done ∙ done)) in
    rw (← seen) refl

handle_generate-with_provider_example :
    handle_generate texts machine registry ttl_ops
      (with_provider server echo)
      (post 1 plain)
      empty_store
    ≡ handle_generate texts machine registry ttl_ops
        (with_provider server narrow)
        (post 1 plain)
        empty_store
handle_generate-with_provider_example =
    handle_generate-with_provider texts machine registry ttl_ops server (post 1 plain) empty_store
      echo narrow agree

-- One request runs, of two at most.
abbrev one_running : Service
one_running = record { sem = record { taken = 1; capacity = 2 }; running = 7 ∷ [] }

one_reached : Reach (started defaults) one_running
unfolding acquire_request new_server
one_reached = next here (admitted 7 true one_running.sem refl refl)

Reach-IsOpen_example : IsOpen 2 one_running
unfolding new_server
Reach-IsOpen_example = Reach-IsOpen defaults one_running one_reached

-- A handler that panics at once.
with_middleware-after_example :
    let s = with_middleware (λ written. (written, true)) "/process" true one_running.sem in
    (s.after ≡ one_running.sem)
    × (if is_limited (request_operation "/process")
        then IsRefused true one_running.sem s
          ⊎ IsHandled (λ written. (written, true)) 1 one_running.sem s
        else IsHandled (λ written. (written, true)) 0 one_running.sem s)
with_middleware-after_example =
    with_middleware-after (λ written. (written, true)) "/process" true one_running.sem
