-- ===== src/Domain.antt =====
-- internal/pii/pii.go: the PII categories, findings and their evidence; and the values of
-- internal/contracts/contracts.go that the PII engine takes and returns.
pub mod Results
use vibe_alfa_gen.Prelude.{ℕ, Bool, List, [], ◌∷◌, String, Option}
use vibe_alfa_gen.Text.{Text}

-- A category is its name: configured categories are added to the built-in ones.
abbrev pub PiiType : Type 0
PiiType = String

abbrev pub type_full_name : PiiType
type_full_name = "full_name"

abbrev pub type_address : PiiType
type_address = "address"

abbrev pub type_phone : PiiType
type_phone = "phone"

abbrev pub type_email : PiiType
type_email = "email"

abbrev pub type_passport_number : PiiType
type_passport_number = "passport_number"

abbrev pub type_card_number : PiiType
type_card_number = "card_number"

abbrev pub type_inn : PiiType
type_inn = "inn"

unfoldable pub all_types : List PiiType
all_types =
    type_full_name ∷ "date_of_birth" ∷ "place_of_birth" ∷ type_passport_number ∷ "citizenship"
    ∷ "passport_issuer" ∷ "passport_division_code" ∷ "passport_issue_date" ∷ "driver_license"
    ∷ type_address ∷ type_email ∷ type_phone ∷ type_inn ∷ type_card_number ∷ "cvv" ∷ "card_pin"
    ∷ "card_holder" ∷ []

-- A confidence in hundredths: every weight of the source is a multiple of 0.01.
abbrev pub Confidence : Type 0
Confidence = ℕ

abbrev pub confidence_low : Confidence
confidence_low = 40

abbrev pub confidence_medium : Confidence
confidence_medium = 70

abbrev pub confidence_high : Confidence
confidence_high = 95

-- `start` and `stop` are the byte offsets Start and End.
pub record Finding : Type 0 where
  pub typ : PiiType
  pub start : ℕ
  pub stop : ℕ
  pub confidence : Confidence
  pub detector : String
  pub value : Text
  pub evidence : ℕ

-- The bits of Evidence.
abbrev pub evidence_label : ℕ
evidence_label = 1

abbrev pub evidence_trap : ℕ
evidence_trap = 2

abbrev pub evidence_requires_anchor : ℕ
evidence_requires_anchor = 4

-- contracts.PolicyRule
pub record PolicyRule : Type 0 where
  pub typ : PiiType
  pub requires : List PiiType

-- contracts.Policy: a nil list of types is `none` and means all registered types. `ttl` is in
-- nanoseconds; a negative duration, which the contract refuses as it refuses 0, is not
-- represented.
pub record Policy : Type 0 where
  pub detection_profile : String
  pub version : String
  pub mode : String
  pub detect_types : Option (List PiiType)
  pub mask_types : Option (List PiiType)
  pub allow_demask : Bool
  pub ttl : ℕ
  pub rules : List PolicyRule

-- contracts.Scope
pub record Scope : Type 0 where
  pub tenant_id : String
  pub context_id : String
  pub policy : Policy

-- The sentinel errors of contracts and of a request's context.
pub data Error : Type 0 where
  conflict context_gone demask_denied invalid_policy store_unavailable detection_unavailable : Error
  invalid_request invalid_model canceled deadline_exceeded : Error
  invalid_json missing_field extra_field body_too_large other : Error

-- A Go call that returns a value and an error.
pub data Result {ℓ} (A : Type ℓ) : Type ℓ where
  ok : A → Result A
  err : Error → Result A

infixl 5 ◌>>=◌ ◌>>◌
-- `if err != nil { return err }` after a call.
abbrev pub ◌>>=◌ {ℓ κ} : {X : Type ℓ} {Y : Type κ} → Result X → (X → Result Y) → Result Y
err why >>= next = err why
ok x >>= next = next x

-- The same, where the call returns an error alone.
abbrev pub ◌>>◌ {κ} : {Y : Type κ} → Result (Unit {0}) → Result Y → Result Y
first >> second = first >>= λ _. second
