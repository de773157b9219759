-- ===== src/Proxy/Handlers/Provider.antt =====
-- What the provider of /v1/generate is shown.
use vibe_alfa_gen.Prelude.{◌≡◌, refl, some, inl, inr, Option-cases}
use vibe_alfa_gen.Domain.{Result, ok, err}
use vibe_alfa_gen.Text.{Text}
use vibe_alfa_gen.Registry.{Registry}
use vibe_alfa_gen.Store.Interface.{StoreOps}
use vibe_alfa_gen.Engine.{Machine}
use vibe_alfa_gen.Engine.Processor.{Masked, mask_text}
use vibe_alfa_gen.Proxy.{Consumer, HttpRequest}
use vibe_alfa_gen.Proxy.Decode.{Decoder}
use vibe_alfa_gen.Proxy.Handlers.{
  ProviderRequest, Server, Generate, pass, Guard-cases, consumer, scope_of, handle_generate,
  generate_fields, generate_for, ask_provider, provider_request,
}

abbrev pub Provider : Type 0
Provider = ProviderRequest → Result Text

abbrev pub with_provider : Server → Provider → Server
with_provider s p = record s { provider = some p }

module _ {D : Type 0} (dec : Decoder D) (m : Machine) (r : Registry) {S : Type 0} (ops : StoreOps S)
    (s : Server) (req : HttpRequest) (st : S) (p p' : Provider) where
  -- The two providers answer alike when they are shown the mask of the text of the request.
  abbrev pub AgreeOnMask : Type 0
  AgreeOnMask =
      (c : Consumer) (g : Generate) (masked : Masked) (st' : S)
      → consumer s req ≡ pass c
      → generate_fields dec m r ops s req ≡ pass g
      → mask_text m r ops req.call st (scope_of s c g.id) g.text ≡ (ok masked, st')
      → p (record { request_id = req.request_id; model = g.model; text = masked.text })
        ≡ p' (record { request_id = req.request_id; model = g.model; text = masked.text })

  ask_provider-agree :
      (c : Consumer) (g : Generate) (shown : Result Masked × S)
      → ((masked : Masked) (st' : S)
          → shown ≡ (ok masked, st')
          → p (provider_request req g masked) ≡ p' (provider_request req g masked))
      → ask_provider dec m r ops p req (scope_of s c g.id) g shown.0 shown.1
        ≡ ask_provider dec m r ops p' req (scope_of s c g.id) g shown.0 shown.1
  ask_provider-agree c g (err e, st') same = refl
  ask_provider-agree c g (ok masked, st') same = elim (Option-cases req.masked) [
    | inr (e, eq) ↦ rw eq refl
    | inl eq ↦ rw (eq, same masked st' refl) refl
  ]

  generate_for-agree :
      (c : Consumer)
      → consumer s req ≡ pass c
      → AgreeOnMask
      → generate_for dec m r ops (with_provider s p) req c (some p) st
        ≡ generate_for dec m r ops (with_provider s p') req c (some p') st
  generate_for-agree c admitted same = elim (Guard-cases (generate_fields dec m r ops s req)) [
    | inl (answer, e) ↦ rw e refl
    | inr (g, e) ↦ rw e (
        ask_provider-agree c g (mask_text m r ops req.call st (scope_of s c g.id) g.text)
          (λ masked st' shown. same c g masked st' admitted e shown))
  ]

  consumer-with_provider : (q : Provider) → consumer (with_provider s q) req ≡ consumer s req
  unfolding consumer
  consumer-with_provider q = refl

  -- Of the text of a request the provider is shown the mask alone: two providers that answer alike when
  -- they are shown what Mask returned for the text lead to the same answer and the same store, however
  -- they differ on the text itself and on everything else.
  pub handle_generate-with_provider :
      AgreeOnMask
      → handle_generate dec m r ops (with_provider s p) req st
        ≡ handle_generate dec m r ops (with_provider s p') req st
  unfolding handle_generate
  handle_generate-with_provider same = elim (Guard-cases (consumer s req)) [
    | inl (answer, e) ↦
        rw (handle_generate, consumer-with_provider p, consumer-with_provider p', e) refl
    | inr (c, e) ↦
        rw (handle_generate, consumer-with_provider p, consumer-with_provider p', e)
          (generate_for-agree c e same)
  ]
