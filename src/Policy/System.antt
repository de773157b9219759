-- ===== src/Policy/System.antt =====
-- internal/pii/policy/policy.go: the policy of a system as the configuration builds it.
use vibe_alfa_gen.Prelude.{
  Bool, true, false, not, ◌&&◌, List, [], ◌∷◌, String, Option, none, some, ltb, if◌then◌else◌, ◌==◌,
  string_eq, nat_eq, any_of, ℤ, pos, to_nat,
}
use vibe_alfa_gen.Domain.{
  PiiType, PolicyRule, Policy, Result, ok, err, invalid_policy, other, all_types,
}
use vibe_alfa_gen.Text.{Text, codes}
use vibe_alfa_gen.Overlap.{stable_sort}
use vibe_alfa_gen.Policy.{valid_profile}

-- policy.Policy. `types` is a map of switches; a nil map means all types.
pub record SystemPolicy : Type 0 where
  pub detection_profile : String
  pub system_id : String
  pub enabled : Bool
  pub types : Option (List (PiiType × Bool))
  pub mask_mode : String
  pub allow_demask : Bool
  pub rules : List PolicyRule
  pub detect_types : Option (List PiiType)
  pub version : String
  pub ttl : ℤ

-- New
unfoldable pub new_policy : String → SystemPolicy
new_policy system_id = record {
  detection_profile = "balanced";
  system_id = system_id;
  enabled = true;
  types = none;
  mask_mode = "format";
  allow_demask = true;
  rules = [];
  detect_types = none;
  version = "v1";
  ttl = pos 3600000000000;
}

-- The order of Go strings.
unfoldable pub text_before : Text → Text → Bool
text_before [] [] = false
text_before [] (_ ∷ _) = true
text_before (_ ∷ _) [] = false
text_before (a ∷ s) (b ∷ t) = let rest = text_before s t in if a == b then rest else ltb a b

abbrev pub before : PiiType → PiiType → Bool
before a b = text_before (codes a) (codes b)

-- The types that are switched on.
unfoldable pub switched_on : List (PiiType × Bool) → List PiiType
switched_on [] = []
switched_on ((typ, on) ∷ types) = let rest = switched_on types in if on then typ ∷ rest else rest

abbrev mask_types_of : Option (List (PiiType × Bool)) → Option (List PiiType)
mask_types_of none = none
mask_types_of (some types) = some (stable_sort before (switched_on types))

-- Policy.Contract. A TTL that is not positive is 0.
unfoldable pub contract : SystemPolicy → Policy
unfolding switched_on text_before
contract p = record {
  detection_profile = p.detection_profile;
  version = p.version;
  mode = if p.mask_mode == "token" then "tokens" else "benchmark";
  detect_types = p.detect_types;
  mask_types = mask_types_of p.types;
  allow_demask = p.allow_demask;
  ttl = to_nat p.ttl;
  rules = p.rules;
}

-- Policy.Validate
unfoldable pub validate_policy : SystemPolicy → Result (Unit {0})
validate_policy p =
    if not (valid_profile p.detection_profile)
    then err invalid_policy
    else if p.system_id == ""
    then err other
    else if not (p.mask_mode == "format") && not (p.mask_mode == "token")
    then err other
    else if any_of (λ (r : PolicyRule). r.typ == "") p.rules
    then err other
    else ok tt

-- BuiltinTypes
abbrev pub builtin_types : List PiiType
builtin_types = all_types
