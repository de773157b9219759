-- ===== src/Policy/Contract.antt =====
-- What a validated contract guarantees.
use vibe_alfa_gen.Prelude.{
  ◌<◌, ◌≡◌, Bool, true, List, [], ◌∷◌, none, Option-cases, arith, contains, all_of, inl, inr, Eq,
  string_eq, All,
}
use vibe_alfa_gen.Domain.{PiiType, PolicyRule, Policy, ok, all_types}
use vibe_alfa_gen.Policy.{
  known_types, or_nil, detection_enabled, all_detected, validate_mask_types, validate_rules,
  validate_contract,
}

-- What holds of a whole list holds of what the list contains.
all_of-contains {ℓ} :
    {A : Type ℓ} ⦃e : Eq A⦄ (p : A → Bool) (xs : List A) (a : A)
    → all_of p xs ≡ true
    → contains xs a ≡ true
    → p a ≡ true
unfolding contains
all_of-contains p [] a h c = ground arith
all_of-contains ⦃e⦄ p (x ∷ xs) a h c = ground (arith, e.beq_iff x a, all_of-contains p xs a)

-- A rule whose types are valid and detected.
pub record IsRuleSound (pol : Policy) (valid_types : List PiiType) (rule : PolicyRule)
    : Type 0 where
  pub known : contains valid_types rule.typ ≡ true
  pub detected : detection_enabled pol rule.typ ≡ true
  pub requires_known : known_types rule.requires valid_types ≡ true
  pub requires_detected : all_detected pol rule.requires ≡ true

validate_rules-IsRuleSound :
    (pol : Policy) (valid_types : List PiiType) (rules : List PolicyRule)
    → validate_rules pol valid_types rules ≡ ok tt
    → All (IsRuleSound pol valid_types) rules
unfolding validate_rules
validate_rules-IsRuleSound pol valid_types [] h = tt
validate_rules-IsRuleSound pol valid_types (rule ∷ rules) h =
    (ground arith, validate_rules-IsRuleSound pol valid_types rules (ground arith))

-- A contract that passes names only valid types, keeps its context for a while, and detects what it
-- masks.
pub record IsSound (pol : Policy) (valid_types : List PiiType) : Type 0 where
  pub keeps : 0 < pol.ttl
  pub detect_known :
      (t : PiiType) → contains (or_nil pol.detect_types) t ≡ true → contains valid_types t ≡ true
  pub mask_known :
      (t : PiiType) → contains (or_nil pol.mask_types) t ≡ true → contains valid_types t ≡ true
  pub mask_detected :
      (t : PiiType) → contains (or_nil pol.mask_types) t ≡ true → detection_enabled pol t ≡ true
  pub builtin_detected :
      (t : PiiType)
      → pol.mask_types ≡ none
      → contains all_types t ≡ true
      → detection_enabled pol t ≡ true
  pub rules_sound : All (IsRuleSound pol valid_types) pol.rules

builtin_types-detected :
    (pol : Policy)
    → validate_mask_types pol ≡ ok tt
    → pol.mask_types ≡ none
    → (t : PiiType) → contains all_types t ≡ true
    → detection_enabled pol t ≡ true
unfolding validate_mask_types
builtin_types-detected pol h n t = elim (Option-cases pol.detect_types) [
  | inl e ↦ λ _. rw (e, detection_enabled)
  | inr (types, e) ↦ all_of-contains (detection_enabled pol) all_types t (ground arith)
]

-- A contract that ValidateContract accepts is sound: its TTL is positive, its types are valid ones,
-- each type that it masks is detected, with no list of types to mask every built-in type is, and the
-- types of its rules are valid and detected.
pub validate_contract-IsSound :
    (pol : Policy) (valid_types : List PiiType)
    → validate_contract pol valid_types ≡ ok tt
    → IsSound pol valid_types
unfolding validate_contract
validate_contract-IsSound pol valid_types h = record {
  keeps = ground arith;
  detect_known =
      λ t. all_of-contains (contains valid_types) (or_nil pol.detect_types) t (ground arith);
  mask_known = λ t. all_of-contains (contains valid_types) (or_nil pol.mask_types) t (ground arith);
  mask_detected =
      λ t. all_of-contains (detection_enabled pol) (or_nil pol.mask_types) t (ground arith);
  builtin_detected = λ t n. builtin_types-detected pol (ground arith) n t;
  rules_sound = validate_rules-IsRuleSound pol valid_types pol.rules (ground arith);
}
