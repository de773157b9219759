-- ===== src/Policy.antt =====
-- internal/pii/policy: the contract of a request's policy, and the filter of its findings.
pub mod Contract
pub mod System
pub mod Same
use vibe_alfa_gen.Prelude.{
  ℕ, Bool, true, false, not, ◌&&◌, ◌||◌, List, [], ◌∷◌, ◌++◌, String, Option, none, some, map, ltb,
  if◌then◌else◌, ◌==◌, string_eq, nat_eq, contains, all_of, keep, lookup,
}
use vibe_alfa_gen.Domain.{
  PiiType, Finding, PolicyRule, Policy, Result, ok, err, invalid_policy, all_types, ◌>>◌,
}

-- pii.ValidProfile
unfoldable pub valid_profile : String → Bool
valid_profile profile =
    profile == "" || (profile == "conservative" || (profile == "balanced" || profile == "strict"))

-- A nil list knows no type, and is known.
unfoldable pub known_types : List PiiType → List PiiType → Bool
known_types types valid_types = all_of (contains valid_types) types

abbrev pub or_nil : Option (List PiiType) → List PiiType
or_nil none = []
or_nil (some types) = types

unfoldable pub detection_enabled : Policy → PiiType → Bool
detection_enabled pol typ = elim pol.detect_types [ none ↦ true | some types ↦ contains types typ ]

unfoldable pub all_detected : Policy → List PiiType → Bool
unfolding detection_enabled
all_detected pol types = all_of (detection_enabled pol) types

abbrev is_nil : Option (List PiiType) → Bool
is_nil none = true
is_nil (some _) = false

unfoldable pub validate_mask_types : Policy → Result (Unit {0})
unfolding all_detected
validate_mask_types pol =
    if not (is_nil pol.detect_types)
      && (is_nil pol.mask_types && not (all_of (detection_enabled pol) all_types))
    then err invalid_policy
    else if not (all_detected pol (or_nil pol.mask_types))
    then err invalid_policy
    else ok tt

unfoldable pub validate_rules : Policy → List PiiType → List PolicyRule → Result (Unit {0})
unfolding known_types all_detected
validate_rules pol valid_types [] = ok tt
validate_rules pol valid_types (rule ∷ rules) =
    let rest = validate_rules pol valid_types rules in
    if not (contains valid_types rule.typ) || not (detection_enabled pol rule.typ)
    then err invalid_policy
    else if not (known_types rule.requires valid_types) || not (all_detected pol rule.requires)
    then err invalid_policy
    else rest

-- ValidateContract
unfoldable pub validate_contract : Policy → List PiiType → Result (Unit {0})
unfolding valid_profile known_types validate_mask_types validate_rules
validate_contract pol valid_types =
    if not (valid_profile pol.detection_profile)
      || (pol.version == ""
          || (pol.ttl == 0 || not (pol.mode == "tokens" || pol.mode == "benchmark")))
    then err invalid_policy
    else if not (known_types (or_nil pol.detect_types) valid_types)
        || not (known_types (or_nil pol.mask_types) valid_types)
    then err invalid_policy
    else validate_mask_types pol >> validate_rules pol valid_types pol.rules

-- policy.Policy, as far as findings are filtered by it. `types` is a map of switches.
pub record FilterPolicy : Type 0 where
  pub enabled : Bool
  pub types : Option (List (PiiType × Bool))
  pub rules : List PolicyRule

-- What New sets of it.
abbrev pub new_filter : FilterPolicy
new_filter = record { enabled = true; types = none; rules = [] }

abbrev is_on : Option Bool → Bool
is_on none = false
is_on (some b) = b

unfoldable pub allows : FilterPolicy → PiiType → Bool
allows p typ =
    if not p.enabled
    then false
    else elim p.types [ none ↦ true | some types ↦ is_on (lookup typ types) ]

unfoldable pub rules_allow : List PolicyRule → PiiType → List PiiType → Bool
rules_allow [] typ present = true
rules_allow (r ∷ rules) typ present =
    let rest = rules_allow rules typ present in
    if not (r.typ == typ)
    then rest
    else if not (all_of (contains present) r.requires)
    then false
    else rest

unfoldable pub rule_allows : FilterPolicy → PiiType → List PiiType → Bool
unfolding rules_allow
rule_allows p typ present = rules_allow p.rules typ present

unfoldable pub apply : FilterPolicy → List Finding → List PiiType → List Finding
unfolding allows rule_allows
apply p findings present =
    if not p.enabled then [] else keep (λ f. allows p f.typ && rule_allows p f.typ present) findings
