-- ===== src/Detectors/Labelled.antt =====
-- internal/pii/detectors: the detectors of values behind a label (citizenship.go, card_holder.go,
-- place_of_birth.go) and of passports (passport.go).
pub mod Behind
use vibe_alfa_gen.Prelude.{
  ℕ, Bool, true, false, not, ◌&&◌, ◌||◌, List, [], ◌∷◌, ◌++◌, String, Option, none, some, leb, ltb,
  if◌then◌else◌, ◌==◌, nat_eq, text_eq, slice, any_of, contains, map, lookup,
}
use vibe_alfa_gen.Domain.{
  PiiType, Finding, Confidence, confidence_medium, confidence_high, type_passport_number,
}
use vibe_alfa_gen.Text.{Text, Runes, codes}
use vibe_alfa_gen.Text.Unicode.{Unicode}
use vibe_alfa_gen.Text.Utf8.{runes}
use vibe_alfa_gen.Masking.{fields}
use vibe_alfa_gen.Detectors.Digits.{part_of_longer_digit_sequence}
use vibe_alfa_gen.Detectors.Fields.{Match, Pattern, has_context_regex}
use vibe_alfa_gen.Detectors.Numbers.{finding_of, accept, when}
use vibe_alfa_gen.Detectors.Labels.{collect_label_value, starts_with}

-- strings.Contains, on the runes of both.
unfoldable pub has_infix : Runes → Runes → Bool
has_infix part [] = starts_with part []
has_infix part (r ∷ rs) = starts_with part (r ∷ rs) || has_infix part rs

-- The loops of a Detect over its markers and their matches.
unfoldable pub each_marker : (Match → Option Finding) → Text → List Pattern → List Finding
each_marker f input [] = []
each_marker f input (p ∷ ps) = accept f (p.find_all input) ++ each_marker f input ps

abbrev has_one_of : List String → Runes → Bool
has_one_of parts value = any_of (λ part. has_infix (codes part) value) parts

abbrev unknown_citizenship : Runes → Bool
unknown_citizenship value =
    has_one_of ("не указано" ∷ "не подтверждено" ∷ "отсутствует" ∷ "неизвестно" ∷ []) value

-- isPassportAuthority, of a value in lower case.
abbrev is_authority : Runes → Bool
is_authority value =
    has_one_of ("овд" ∷ "увд" ∷ "уфмс" ∷ "мвд" ∷ "отдел полиции" ∷ "отделом полиции" ∷ []) value

-- strings.Join(words, " ")
unfoldable pub join_words : List Runes → Runes
join_words [] = []
join_words (w ∷ []) = w
join_words (w ∷ v ∷ ws) = w ++ (0x20 ∷ join_words (v ∷ ws))

abbrev pub place_prefixes : List Runes
place_prefixes = map codes ("г" ∷ "гор" ∷ "город" ∷ "городе" ∷ "города" ∷ "с" ∷ "село" ∷ [])

abbrev unknown_places : List Runes
unknown_places = map codes ("неизвестно" ∷ "не указано" ∷ "не установлено" ∷ "отсутствует" ∷ [])

-- A finding for the value behind one match of a label, where the value passes a test.
abbrev pub span_finding : PiiType → String → (Text → Bool) → Text → Option (ℕ × ℕ) → Option Finding
span_finding typ detector keep input none = none
span_finding typ detector keep input (some (start, stop)) =
    when (keep (slice input start stop)) (finding_of typ detector input start stop confidence_high)

abbrev pub any_value : Text → Bool
any_value v = true

module _ (u : Unicode) where
  abbrev lower : Text → Runes
  lower s = map u.to_lower (runes s)

  unfoldable pub labelled :
      PiiType → String → ℕ → List Runes → Bool → (Text → Bool) → Text → Match → Option Finding
  labelled typ detector max_words skip_prefixes issuer_numbers keep input m =
      span_finding typ detector keep input
        (collect_label_value u input m.stop max_words skip_prefixes issuer_numbers)

  -- The tests of the values.
  unfoldable pub known_citizenship : Text → Bool
  unfolding has_infix
  known_citizenship v = not (unknown_citizenship (lower v))

  unfoldable pub known_place : Text → Bool
  unfolding join_words
  known_place v = not (contains unknown_places (map u.to_lower (join_words (fields u (runes v)))))

  unfoldable pub is_passport_authority : Text → Bool
  unfolding has_infix
  is_passport_authority v = is_authority (lower v)

  -- CitizenshipDetector.Detect
  unfoldable pub detect_citizenship : List Pattern → Text → List Finding
  unfolding each_marker labelled
  detect_citizenship markers input =
      each_marker (labelled "citizenship" "citizenship" 3 [] false known_citizenship input) input
        markers

  -- CardHolderDetector.Detect
  unfoldable pub detect_card_holder : List Pattern → Text → List Finding
  unfolding each_marker labelled
  detect_card_holder markers input =
      each_marker (labelled "card_holder" "card_holder" 3 [] false any_value input) input markers

  -- PlaceOfBirthDetector.Detect
  unfoldable pub detect_place_of_birth : List Pattern → Text → List Finding
  unfolding each_marker labelled
  detect_place_of_birth markers input =
      each_marker
        (labelled "place_of_birth" "place_of_birth" 4 place_prefixes false known_place input) input
        markers

  -- PassportDetector.detectIssuer
  unfoldable pub detect_issuer : List Pattern → Text → List Finding
  unfolding each_marker labelled
  detect_issuer markers input =
      each_marker
        (labelled "passport_issuer" "passport_issuer" 8 [] true is_passport_authority input) input
        markers

-- PassportDetector
pub record PassportDetector : Type 0 where
  pub passport_markers : List Pattern
  pub issuer_markers : List Pattern
  pub division_markers : List Pattern
  pub series_number_re : Pattern
  pub merged_re : Pattern
  pub division_re : Pattern

-- A span that is no part of a longer number and has one of the markers near it.
abbrev in_context : List Pattern → Text → ℕ → ℕ → Bool
in_context markers input start stop =
    not (part_of_longer_digit_sequence input start stop)
    && has_context_regex input start stop markers

abbrev series_finding : PassportDetector → Text → List (ℕ × ℕ) → Option Finding
series_finding d input (first ∷ _ ∷ third ∷ _) =
    when (in_context d.passport_markers input first.0 third.1)
      (finding_of type_passport_number "passport" input first.0 third.1 confidence_high)
series_finding d input _ = none

-- PassportDetector.detectSeriesNumber: from the first group to the end of the third.
unfoldable pub detect_series_number : PassportDetector → Text → List Finding
detect_series_number d input =
    accept (λ (m : Match). series_finding d input m.groups) (d.series_number_re.find_all input)

-- Whether a finding with this start ends at `stop` or later.
abbrev covers : ℕ → ℕ → Finding → Bool
covers start stop f = f.start == start && leb stop f.stop

-- PassportDetector.detectMergedNumber
unfoldable pub detect_merged_number : PassportDetector → Text → List Finding → List Finding
detect_merged_number d input previous =
    accept
      (λ (m : Match).
        when
          (in_context d.passport_markers input m.start m.stop
            && not (any_of (covers m.start m.stop) previous))
          (finding_of type_passport_number "passport" input m.start m.stop confidence_medium))
      (d.merged_re.find_all input)

-- PassportDetector.detectDivision
unfoldable pub detect_division : PassportDetector → Text → List Finding
detect_division d input =
    accept
      (λ (m : Match). when (in_context d.division_markers input m.start m.stop) (
        finding_of "passport_division_code" "passport_division" input m.start m.stop
          confidence_high))
      (d.division_re.find_all input)

-- PassportDetector.Detect
unfoldable pub detect_passport : Unicode → PassportDetector → Text → List Finding
unfolding detect_series_number detect_merged_number detect_division detect_issuer
detect_passport u d input =
    let series = detect_series_number d input in
    series
    ++ (detect_merged_number d input series
        ++ (detect_division d input ++ detect_issuer u d.issuer_markers input))
