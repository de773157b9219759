-- ===== src/Tests/Config.antt =====
-- A configuration of one system, its manager, and a reload.
use vibe_alfa_gen.Prelude.{
  length, ◌≡◌, refl, sym, ap, ◌∙◌, Bool, true, false, List, [], ◌∷◌, String, Option, none, some, ℤ,
  pos, ◌==◌, text_eq, if◌then◌else◌,
}
use vibe_alfa_gen.Domain.{Policy, Result, ok, err, other}
use vibe_alfa_gen.Text.{Text, codes}
use vibe_alfa_gen.Proxy.{Consumer}
use vibe_alfa_gen.Markers.{find_markers}
use vibe_alfa_gen.Markers.Named.{find_markers-token_text}
use vibe_alfa_gen.Tokens.{token_text}
use vibe_alfa_gen.Config.Validate.{valid_custom_type_name}
use vibe_alfa_gen.Tests.Masks.{constant_mac}
use vibe_alfa_gen.Config.{Config, SystemConfig, default_config}
use vibe_alfa_gen.Config.Secrets.{Host}
use vibe_alfa_gen.Config.Validate.Systems.{validate_config}
use vibe_alfa_gen.Config.Manager.{
  Document, Decoders, unversioned, Snapshot, Manager, new_manager, Outcome, success, noop,
  reload_context, build_candidate, first_manager,
}
use vibe_alfa_gen.Config.Manager.Reloads.{Reach, created}

-- A host with one secret in its environment.
abbrev host : Host
host = record {
  getenv = λ name. if name == codes "KEY" then codes "s3cret" else [];
  is_abs = λ path. false;
  is_regular = λ path. false;
  read_file = λ path. none;
  compiles = λ expr. true;
}

abbrev acme_system : SystemConfig
acme_system = record {
  detection_profile = "strict";
  allow_anonymous = false;
  detect_types = none;
  mask_types = some ("phone" ∷ "email" ∷ []);
  id = "acme";
  enabled = none;
  types = [];
  mask_mode = "token";
  allow_demask = some false;
  api_key = codes "${KEY}";
  api_key_file = [];
  rules = [];
}

abbrev configured : Config → Config
configured c = record c { version = "v1"; systems = acme_system ∷ []; default_system = "acme" }

-- The second document has another version.
abbrev pub decoders : Decoders
decoders = record {
  yaml = λ text c.
      if text == codes "a"
      then ok (configured c)
      else ok (record (configured c) { version = "v2" });
  json = λ text c. err other;
}

abbrev document : Text → Document
document text = record { data_bytes = text; format = "yaml"; revision = "" }

abbrev pub first_config : Config
first_config = configured unversioned

abbrev acme_policy : String → Policy
acme_policy version = record {
  detection_profile = "strict";
  version = version;
  mode = "tokens";
  detect_types = none;
  mask_types = some ("email" ∷ "phone" ∷ []);
  allow_demask = false;
  ttl = 86400000000000;
  rules = [];
}

abbrev pub acme_consumer : String → Consumer
acme_consumer version = record {
  id = "acme";
  enabled = true;
  api_key = codes "s3cret";
  policy = acme_policy version;
}

abbrev pub snapshot : String → Snapshot
snapshot version = record { version = version; systems = ("acme", acme_consumer version) ∷ [] }

abbrev pub manager : Manager
manager = record { initial = first_config; current = snapshot "v1" }

manager_made : new_manager host decoders (pos 1) (ok (document (codes "a"))) ≡ ok manager
unfolding new_manager validate_config vibe_alfa_gen.Config.Validate.validate_server unversioned
    vibe_alfa_gen.Config.Validate.validate_runtime vibe_alfa_gen.Config.Validate.validate_store
    vibe_alfa_gen.Config.Validate.validate_key_files
    vibe_alfa_gen.Config.Validate.validate_custom_types vibe_alfa_gen.Prelude.contains
    vibe_alfa_gen.Policy.known_types vibe_alfa_gen.Config.Validate.all_valid_types
    vibe_alfa_gen.Domain.all_types vibe_alfa_gen.Policy.System.validate_policy
    vibe_alfa_gen.Policy.valid_profile vibe_alfa_gen.Policy.System.new_policy
    vibe_alfa_gen.Policy.validate_contract vibe_alfa_gen.Policy.System.contract
    vibe_alfa_gen.Overlap.stable_sort vibe_alfa_gen.Prelude.insert
    vibe_alfa_gen.Config.Manager.build_consumer vibe_alfa_gen.Config.Secrets.resolve_secret
    vibe_alfa_gen.Config.Secrets.expand_environment default_config
manager_made = refl

pub manager_reached : Reach decoders manager manager
manager_reached = created host (pos 1) (ok (document (codes "a"))) manager_made

-- The second document is published.
reload_done :
    reload_context host decoders manager (ok (document (codes "b")))
    ≡ (record manager { current = snapshot "v2" }, success)
unfolding reload_context validate_config vibe_alfa_gen.Config.Validate.validate_server unversioned
    vibe_alfa_gen.Config.Validate.validate_runtime vibe_alfa_gen.Config.Validate.validate_store
    vibe_alfa_gen.Config.Validate.validate_key_files
    vibe_alfa_gen.Config.Validate.validate_custom_types vibe_alfa_gen.Prelude.contains
    vibe_alfa_gen.Policy.known_types vibe_alfa_gen.Config.Validate.all_valid_types
    vibe_alfa_gen.Domain.all_types vibe_alfa_gen.Policy.System.validate_policy
    vibe_alfa_gen.Policy.valid_profile vibe_alfa_gen.Policy.System.new_policy
    vibe_alfa_gen.Policy.validate_contract vibe_alfa_gen.Policy.System.contract
    vibe_alfa_gen.Overlap.stable_sort vibe_alfa_gen.Prelude.insert
    vibe_alfa_gen.Config.Manager.build_consumer vibe_alfa_gen.Config.Secrets.resolve_secret
    vibe_alfa_gen.Config.Secrets.expand_environment default_config
    vibe_alfa_gen.Config.Manager.Equal.immutable_equal vibe_alfa_gen.Prelude.lookup
reload_done = refl

abbrev reload : Manager × Outcome
reload = reload_context host decoders manager (ok (document (codes "b")))

loyalty_valid : valid_custom_type_name (codes "loyalty_id") ≡ true
unfolding valid_custom_type_name
loyalty_valid = refl

find_markers-token_text_example :
    find_markers (token_text constant_mac (codes "n") "loyalty_id" (codes "77") 12)
    ≡ (0, length (token_text constant_mac (codes "n") "loyalty_id" (codes "77") 12)) ∷ []
find_markers-token_text_example =
    find_markers-token_text constant_mac (codes "n") "loyalty_id" (codes "77") 12 loyalty_valid refl
