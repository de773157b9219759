-- ===== src/Policy/Same.antt =====
-- A contract is accepted or refused by the set of valid types alone.
use vibe_alfa_gen.Prelude.{◌≡◌, refl, List, [], ◌∷◌, string_eq, nat_eq, contains}
use vibe_alfa_gen.Domain.{PiiType, PolicyRule, Policy}
use vibe_alfa_gen.Policy.{known_types, or_nil, validate_rules, validate_contract}

-- Lists of types with the same members.
abbrev pub SameTypes : List PiiType → List PiiType → Type 0
SameTypes a b = (t : PiiType) → contains a t ≡ contains b t

known_types-SameTypes :
    (types a b : List PiiType) → SameTypes a b → known_types types a ≡ known_types types b
unfolding known_types
known_types-SameTypes [] a b same = refl
known_types-SameTypes (t ∷ types) a b same = rw (same t, known_types-SameTypes types a b same) refl

validate_rules-SameTypes :
    (pol : Policy) (a b : List PiiType) (rules : List PolicyRule)
    → SameTypes a b
    → validate_rules pol a rules ≡ validate_rules pol b rules
unfolding validate_rules
validate_rules-SameTypes pol a b [] same = refl
validate_rules-SameTypes pol a b (rule ∷ rules) same =
    rw
      (
        same rule.typ,
        known_types-SameTypes rule.requires a b same,
        validate_rules-SameTypes pol a b rules same,
      )
      refl

pub validate_contract-SameTypes :
    (pol : Policy) (a b : List PiiType)
    → SameTypes a b
    → validate_contract pol a ≡ validate_contract pol b
unfolding validate_contract
validate_contract-SameTypes pol a b same =
    rw
      (
        known_types-SameTypes (or_nil pol.detect_types) a b same,
        known_types-SameTypes (or_nil pol.mask_types) a b same,
        validate_rules-SameTypes pol a b pol.rules same,
      )
      refl
