-- ===== src/Config/Validate/Systems.antt =====
-- internal/platform/config/config.go: the systems, their policies and the whole check.
use vibe_alfa_gen.Prelude.{
  Bool, true, not, ◌&&◌, ◌||◌, List, [], ◌∷◌, ◌++◌, String, Option, none, some, if◌then◌else◌, ◌==◌,
  string_eq, nat_eq, length, all_of, insert, contains,
}
use vibe_alfa_gen.Domain.{PiiType, PolicyRule, Policy, Result, ok, err, other, ◌>>=◌, ◌>>◌}
use vibe_alfa_gen.Text.{Text}
use vibe_alfa_gen.Policy.{known_types, or_nil, validate_contract}
use vibe_alfa_gen.Policy.System.{SystemPolicy, new_policy, contract, validate_policy}
use vibe_alfa_gen.Proxy.{Consumer}
use vibe_alfa_gen.Config.{Config, SystemConfig}
use vibe_alfa_gen.Config.Secrets.{Host, is_empty, resolve_secret}
use vibe_alfa_gen.Config.Validate.{
  require, validate_server, validate_runtime, validate_store, validate_key_files,
  validate_custom_types, all_valid_types,
}

-- A value, or the one that was there where none is given.
abbrev or_else {ℓ} : {A : Type ℓ} → Option A → A → A
or_else none old = old
or_else (some new) old = new

abbrev given : String → String → String
given s old = if s == "" then old else s

-- A map with each of the types switched on.
unfoldable pub switch_on : List PiiType → List (PiiType × Bool) → List (PiiType × Bool)
switch_on [] types = types
switch_on (typ ∷ more) types = switch_on more (insert typ true types)

abbrev switches : List PiiType → Option (List PiiType) → Option (List (PiiType × Bool))
switches types (some masked) = some (switch_on masked [])
switches types none = if length types == 0 then none else some (switch_on types [])

abbrev pub drafted : SystemConfig → SystemPolicy
drafted s =
    let p = new_policy s.id in
    record p {
      detection_profile = given s.detection_profile p.detection_profile;
      enabled = or_else s.enabled p.enabled;
      types = switches s.types s.mask_types;
      mask_mode = given s.mask_mode p.mask_mode;
      allow_demask = or_else s.allow_demask p.allow_demask;
      rules = s.rules;
      detect_types = s.detect_types;
    }

-- buildPolicy
unfoldable pub build_policy : SystemConfig → Result SystemPolicy
unfolding switch_on
build_policy s = validate_policy (drafted s) >> ok (drafted s)

-- The first system with an ID.
unfoldable pub find_system : String → List SystemConfig → Option SystemConfig
find_system id [] = none
find_system id (s ∷ systems) =
    let rest = find_system id systems in if s.id == id then some s else rest

abbrev pub with_contract : Config → SystemPolicy → SystemPolicy
with_contract c p = record p { version = c.version; ttl = c.store.ttl }

-- Config.PolicyFor
unfoldable pub policy_for : Config → String → Result SystemPolicy
unfolding find_system build_policy
policy_for c id = elim (find_system id c.systems) [
  | none ↦ err other
  | some s ↦ build_policy s >>= λ p. ok (with_contract c p)
]

abbrev pub is_on_unless : Option Bool → Bool
is_on_unless none = true
is_on_unless (some b) = b

abbrev keyed : SystemConfig → Policy → Bool → Option Text → Option Consumer
keyed s pol enabled (some key) =
    some (record { id = s.id; enabled = enabled; api_key = key; policy = pol })
keyed s pol enabled none =
    if not s.allow_anonymous
    then none
    else some (record { id = s.id; enabled = enabled; api_key = []; policy = pol })

abbrev pub consumer_with : SystemConfig → SystemPolicy → Result (Option Text) → Option Consumer
consumer_with s p (err _) = none
consumer_with s p (ok key) = keyed s (contract p) p.enabled key

-- Config.ResolveSystem
unfoldable pub resolve_system : Host → Config → String → Option Consumer
unfolding find_system policy_for
resolve_system host c id = elim (find_system id c.systems) [
  | none ↦ none
  | some s ↦ elim (policy_for c id) [
    | err _ ↦ none
    | ok p ↦ consumer_with s p (resolve_secret host s.api_key s.api_key_file)
  ]
]

abbrev known_rule : List PiiType → PolicyRule → Bool
known_rule valid_types r = contains valid_types r.typ && known_types r.requires valid_types

-- validateSystemTypes
unfoldable pub validate_system_types : SystemConfig → List PiiType → Result (Unit {0})
validate_system_types s valid_types =
    require (known_types (s.types ++ (or_nil s.detect_types ++ or_nil s.mask_types)) valid_types)
    >> require (all_of (known_rule valid_types) s.rules)

-- validateSystem
unfoldable pub validate_system : Host → SystemConfig → List PiiType → Result (Unit {0})
unfolding validate_system_types
validate_system host s valid_types =
    require (not (not (is_empty s.api_key) && not (is_empty s.api_key_file)))
    >> require (is_empty s.api_key_file || host.is_abs s.api_key_file)
    >> require (s.mask_mode == "" || (s.mask_mode == "format" || s.mask_mode == "token"))
    >> validate_system_types s valid_types

abbrev pub or_other {ℓ} : {A : Type ℓ} → Result A → Result A
or_other (ok a) = ok a
or_other (err _) = err other

-- What validateSystems does with each system; the IDs that it has seen come out.
unfoldable pub validate_each :
    Host → Config → List String → List SystemConfig → Result (List String)
unfolding validate_system policy_for
validate_each host c seen [] = ok seen
validate_each host c seen (s ∷ systems) =
    require (not (s.id == ""))
    >> require (not (contains seen s.id))
    >> validate_system host s (all_valid_types c)
    >> (policy_for c s.id >>= λ p. or_other (validate_contract (contract p) (all_valid_types c)))
    >> validate_each host c (s.id ∷ seen) systems

-- Config.validateSystems
unfoldable pub validate_systems : Host → Config → Result (Unit {0})
unfolding validate_each
validate_systems host c =
    require (not (c.default_system == ""))
    >> validate_custom_types host [] c.custom_pii_types
    >> (validate_each host c [] c.systems >>= λ seen. require (contains seen c.default_system))

-- Config.Validate, with the configuration as it leaves it.
unfoldable pub validate_config : Host → Config → Result Config
unfolding validate_systems
validate_config host c =
    require (not (c.version == ""))
    >> validate_server c
    >> (validate_runtime c >>= λ c1. validate_store host c1 >>= λ c2.
        validate_key_files host c2 >> validate_systems host c2 >> ok c2)
