-- ===== src/Tests/Policies.antt =====
-- A server whose clients come from a manager.
use vibe_alfa_gen.Prelude.{◌≡◌, refl, some, []}
use vibe_alfa_gen.Domain.{ok}
use vibe_alfa_gen.Text.{codes}
use vibe_alfa_gen.Registry.{Registry}
use vibe_alfa_gen.Engine.{validate}
use vibe_alfa_gen.Config.Validate.{all_valid_types}
use vibe_alfa_gen.Config.Manager.{resolve_snapshot}
use vibe_alfa_gen.Proxy.{HttpRequest}
use vibe_alfa_gen.Proxy.Handlers.{Server, pass, consumer, scope_of}
use vibe_alfa_gen.Proxy.Policies.{validate-consumer}
use vibe_alfa_gen.Tests.Config.{manager, decoders, manager_reached, first_config, acme_consumer}
use vibe_alfa_gen.Tests.Proxy.{server, post}

abbrev managed : Server
managed = record server { systems = some (resolve_snapshot manager) }

abbrev with_key : HttpRequest
with_key = record (post 1 []) { api_key = codes "s3cret" }

-- A registry of the types that the first configuration allows.
abbrev configured_registry : Registry
configured_registry = record {
  detectors = [];
  supported = [];
  supported_set = all_valid_types first_config;
}

admitted : consumer managed with_key ≡ pass (acme_consumer "v1")
unfolding consumer vibe_alfa_gen.Prelude.lookup
admitted = refl

validate-consumer_example :
    validate configured_registry (scope_of managed (acme_consumer "v1") (codes "c1")) ≡ ok tt
validate-consumer_example =
    validate-consumer decoders manager manager configured_registry managed with_key
      (acme_consumer "v1") (codes "c1") manager_reached (λ t. refl) refl admitted refl
