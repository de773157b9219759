-- ===== src/Detectors/Numbers.antt =====
-- internal/pii/detectors: the detectors of numbers and addresses of mail (card_number.go, inn.go,
-- cvv.go, card_pin.go, driver_license.go, phone.go and email.go).
pub mod Cards
use vibe_alfa_gen.Prelude.{
  ℕ, suc, ◌-◌, Bool, true, false, not, ◌&&◌, ◌||◌, List, [], ◌∷◌, ◌++◌, String, Option, none, some,
  ltb, if◌then◌else◌, ◌==◌, nat_eq, length, take, drop, slice, any_of, all_of,
}
use vibe_alfa_gen.Domain.{
  PiiType, Finding, Confidence, confidence_high, type_card_number, type_inn, type_phone, type_email,
}
use vibe_alfa_gen.Text.{Text}
use vibe_alfa_gen.Detectors.Digits.{
  normalize_digits, consistent_separators, part_of_longer_digit_sequence, luhn, reversed_onto,
}
use vibe_alfa_gen.Detectors.Fields.{
  Match, Pattern, has_context_regex, preceding_label, nearest_preceding_marker,
}

-- The finding of a span of the input.
abbrev pub finding_of : PiiType → String → Text → ℕ → ℕ → Confidence → Finding
finding_of typ detector input start stop confidence = record {
  typ = typ;
  start = start;
  stop = stop;
  confidence = confidence;
  detector = detector;
  value = slice input start stop;
  evidence = 0;
}

-- The loop of a Detect: the findings of the matches that pass the detector's tests.
abbrev pub accept : (Match → Option Finding) → List Match → List Finding
accept f [] = []
accept f (m ∷ ms) = let rest = accept f ms in elim (f m) [ none ↦ rest | some x ↦ x ∷ rest ]

abbrev pub when : Bool → Finding → Option Finding
when test f = if test then some f else none

pub record CardNumberDetector : Type 0 where
  pub re : Pattern
  pub markers : List Pattern
  pub non_card_context : Pattern

-- One match of CardNumberDetector.Detect.
unfoldable pub card_number_match : CardNumberDetector → Text → Match → Option Finding
card_number_match d input m =
    let candidate = slice input m.start m.stop in
    let digits = normalize_digits candidate in
    let has_ctx = has_context_regex input m.start m.stop d.markers in
    if ltb (length digits) 13 || ltb 19 (length digits)
    then none
    else if not (consistent_separators candidate)
    then none
    else if part_of_longer_digit_sequence input m.start m.stop
    then none
    else if not has_ctx && preceding_label input m.start d.non_card_context
    then none
    else if not (luhn digits) && not has_ctx
    then none
    else some (finding_of type_card_number "card_number" input m.start m.stop confidence_high)

unfoldable pub detect_card_number : CardNumberDetector → Text → List Finding
unfolding card_number_match
detect_card_number d input = accept (card_number_match d input) (d.re.find_all input)

pub record MarkedDetector : Type 0 where
  pub re : Pattern
  pub markers : List Pattern

-- INNDetector.Detect: with a marker near, which it asks for, the confidence is high, whether or not
-- the checksum holds.
unfoldable pub detect_inn : MarkedDetector → Text → List Finding
detect_inn d input =
    accept
      (λ m.
        when
          (not (part_of_longer_digit_sequence input m.start m.stop)
            && has_context_regex input m.start m.stop d.markers)
          (finding_of type_inn "inn" input m.start m.stop confidence_high))
      (d.re.find_all input)

unfoldable pub detect_driver_license : MarkedDetector → Text → List Finding
detect_driver_license d input =
    accept
      (λ m.
        when
          (not (part_of_longer_digit_sequence input m.start m.stop)
            && has_context_regex input m.start m.stop d.markers)
          (finding_of "driver_license" "driver_license" input m.start m.stop confidence_high))
      (d.re.find_all input)

-- The markers of dates, codes and PINs, which the local contexts share.
pub record LocalMarkers : Type 0 where
  pub date_dob : List Pattern
  pub date_issue : List Pattern
  pub date_generic : List Pattern
  pub cvv : List Pattern
  pub pin : List Pattern

abbrev is_first : Option ℕ → Bool
is_first none = false
is_first (some group) = group == 0

unfoldable pub cvv_local_context : LocalMarkers → Text → ℕ → Bool
cvv_local_context l input start = is_first (
    nearest_preceding_marker input start
      (l.cvv ∷ l.date_dob ∷ l.date_issue ∷ l.date_generic ∷ l.pin ∷ []))

unfoldable pub detect_cvv : LocalMarkers → Pattern → Text → List Finding
unfolding cvv_local_context
detect_cvv l re input =
    accept
      (λ m.
        when
          (not (part_of_longer_digit_sequence input m.start m.stop)
            && cvv_local_context l input m.start)
          (finding_of "cvv" "cvv" input m.start m.stop confidence_high))
      (re.find_all input)

unfoldable pub pin_local_context : LocalMarkers → Text → ℕ → Bool
pin_local_context l input start = is_first (
    nearest_preceding_marker input start
      (l.pin ∷ l.date_dob ∷ l.date_issue ∷ l.date_generic ∷ l.cvv ∷ []))

unfoldable pub detect_card_pin : LocalMarkers → Pattern → Text → List Finding
unfolding pin_local_context
detect_card_pin l re input =
    accept
      (λ m.
        when
          (not (part_of_longer_digit_sequence input m.start m.stop)
            && pin_local_context l input m.start)
          (finding_of "card_pin" "card_pin" input m.start m.stop confidence_high))
      (re.find_all input)

pub record PhoneDetector : Type 0 where
  pub re : Pattern
  pub phone_markers : List Pattern
  pub non_phone_context : Pattern

unfoldable pub detect_phone : PhoneDetector → Text → List Finding
detect_phone d input =
    accept
      (λ m.
        when
          (not (part_of_longer_digit_sequence input m.start m.stop)
            && not (
                not (has_context_regex input m.start m.stop d.phone_markers)
                && preceding_label input m.start d.non_phone_context))
          (finding_of type_phone "phone" input m.start m.stop confidence_high))
      (d.re.find_all input)

-- strings.Split(s, "."), the labels of a part of an address.
unfoldable pub labels_from : Text → Text → List Text
labels_from label [] = label ∷ []
labels_from label (b ∷ s) =
    let cut = label ∷ labels_from [] s in
    let longer = labels_from (label ++ b ∷ []) s in if b == 0x2E then cut else longer

abbrev has_prefix : ℕ → Text → Bool
has_prefix c [] = false
has_prefix c (b ∷ _) = b == c

-- A label is not empty, and has a hyphen at neither end. A part that starts or ends with a dot, or
-- has two dots in a row, has an empty label.
abbrev valid_label : Text → Bool
valid_label label =
    not (length label == 0)
    && (not (has_prefix 0x2D label) && not (has_prefix 0x2D (reversed_onto [] label)))

abbrev double_dot : Text → Bool
double_dot [] = false
double_dot (b ∷ []) = false
double_dot (b ∷ c ∷ s) =
    let rest = double_dot (c ∷ s) in if b == 0x2E && c == 0x2E then true else rest

unfoldable pub valid_email_part : Text → Bool
unfolding labels_from
valid_email_part s =
    if length s == 0 || (has_prefix 0x2E s || has_prefix 0x2E (reversed_onto [] s))
    then false
    else if double_dot s
    then false
    else all_of valid_label (labels_from [] s)

-- strings.LastIndex(s, "@")
abbrev last_at : ℕ → Text → Option ℕ
last_at i [] = none
last_at i (b ∷ s) =
    let rest = last_at (suc i) s in
    elim rest [ some j ↦ some j | none ↦ if b == 0x40 then some i else none ]

unfoldable pub valid_email : Text → Bool
unfolding valid_email_part
valid_email s = elim (last_at 0 s) [
  | none ↦ false
  | some at ↦
      if at == 0 || at == length s - 1
      then false
      else (let domain = drop (suc at) s in
          if not (valid_email_part (take at s)) || not (valid_email_part domain)
          then false
          else any_of (λ b. b == 0x2E) domain)
]

unfoldable pub detect_email : Pattern → Text → List Finding
unfolding valid_email
detect_email re input =
    accept
      (λ m.
        when (valid_email (slice input m.start m.stop))
          (finding_of type_email "email" input m.start m.stop confidence_high))
      (re.find_all input)
