-- ===== src/Tests/Findings.antt =====
-- Findings of concrete texts, and the contract of a concrete policy.
use vibe_alfa_gen.Prelude.{
  IsIn, ◌↔◌, ltb, ℕ, ◌+◌, ◌<◌, ◌≤◌, ◌≡◌, refl, true, false, List, [], ◌∷◌, String, Option, some,
  none, arith, any_of, All, length,
}
use vibe_alfa_gen.Domain.{Finding, Policy, ok}
use vibe_alfa_gen.Text.{Text, codes}
use vibe_alfa_gen.Text.Unicode.{ascii}
use vibe_alfa_gen.Overlap.{resolve_overlaps, stable_sort}
use vibe_alfa_gen.Overlap.Cover.{
  within, DisjointFrom, any_of-resolve_overlaps, resolve_overlaps-DisjointFrom,
}
use vibe_alfa_gen.Context.{resolve_context}
use vibe_alfa_gen.Context.Records.{Patterns}
use vibe_alfa_gen.Context.Kept.{OnlyConfidence, Pairwise, resolve_context-OnlyConfidence}
use vibe_alfa_gen.Normalize.{normalize_text, original_offset}
use vibe_alfa_gen.Normalize.Offsets.{original_offset_mono}
use vibe_alfa_gen.Registry.{Detector, Registry, new_registry, requested_types, collect}
use vibe_alfa_gen.Registry.Found.{IsFound, collect-IsFound}
use vibe_alfa_gen.Policy.{validate_contract}
use vibe_alfa_gen.Policy.Contract.{IsSound, validate_contract-IsSound}
use vibe_alfa_gen.Detectors.Fields.{Match, Pattern}
use vibe_alfa_gen.Detectors.Numbers.{CardNumberDetector, detect_card_number}
use vibe_alfa_gen.Detectors.Numbers.Cards.{IsCardAt, found_card, detect_card_number-IsCardAt}

abbrev pub finding : ℕ → ℕ → Text → Finding
finding start stop value = record {
  typ = "phone";
  start = start;
  stop = stop;
  confidence = 95;
  detector = "phone";
  value = value;
  evidence = 0;
}

abbrev overlapping : List Finding
overlapping = finding 4 9 [] ∷ finding 0 5 [] ∷ finding 12 14 [] ∷ []

any_of-resolve_overlaps_example :
    any_of (within 7) (resolve_overlaps overlapping) ≡ any_of (within 7) overlapping
any_of-resolve_overlaps_example = any_of-resolve_overlaps 7 overlapping

resolve_overlaps-DisjointFrom_example : DisjointFrom 0 (resolve_overlaps overlapping)
resolve_overlaps-DisjointFrom_example = resolve_overlaps-DisjointFrom overlapping

-- A zero-width space between two letters, in UTF-8.
abbrev spaced : Text
spaced = 0x61 ∷ 0xE2 ∷ 0x80 ∷ 0x8B ∷ 0x62 ∷ []

original_offset_mono_example :
    (original_offset (normalize_text ascii spaced) 0
      ≤ original_offset (normalize_text ascii spaced) 2)
    × (original_offset (normalize_text ascii spaced) 2 ≤ length spaced)
unfolding normalize_text vibe_alfa_gen.Text.Utf8.positions_from
    vibe_alfa_gen.Normalize.normalize_rune
original_offset_mono_example = original_offset_mono ascii spaced 0 2 (omega arith) (omega arith)

abbrev phone_detector : Detector
phone_detector = record {
  typ = "phone";
  multi = none;
  detect = λ text. some (finding 0 3 [] ∷ []);
  candidates = none;
}

abbrev one_detector : Registry
one_detector = new_registry (phone_detector ∷ [])

abbrev call_us : Text
call_us = codes "123 x"

collected :
    collect ascii one_detector (λ n. none) call_us none false ≡ ok (finding 0 3 (codes "123") ∷ [])
unfolding collect vibe_alfa_gen.Text.Utf8.valid_string vibe_alfa_gen.Registry.collect_loop
    new_registry vibe_alfa_gen.Prelude.contains requested_types normalize_text
    vibe_alfa_gen.Text.Utf8.positions_from vibe_alfa_gen.Normalize.normalize_rune
    vibe_alfa_gen.Registry.require_all
collected = refl

collect-IsFound_example :
    All (IsFound call_us (requested_types one_detector none)) (finding 0 3 (codes "123") ∷ [])
collect-IsFound_example =
    collect-IsFound ascii one_detector (λ n. none) call_us none false
      (finding 0 3 (codes "123") ∷ []) collected

abbrev pub phones_only : Policy
phones_only = record {
  detection_profile = "balanced";
  version = "v1";
  mode = "benchmark";
  detect_types = some ("phone" ∷ []);
  mask_types = some ("phone" ∷ []);
  allow_demask = true;
  ttl = 10;
  rules = [];
}

accepted : validate_contract phones_only ("phone" ∷ []) ≡ ok tt
unfolding validate_contract vibe_alfa_gen.Prelude.contains
accepted = refl

validate_contract-IsSound_example : IsSound phones_only ("phone" ∷ [])
validate_contract-IsSound_example = validate_contract-IsSound phones_only ("phone" ∷ []) accepted

abbrev card_text : Text
card_text = codes "4111111111111111"

-- An expression that matches a whole text of 16 bytes, and one that matches nothing.
abbrev whole_pattern : Pattern
whole_pattern = record {
  find_all = λ text. record { start = 0; stop = 16; groups = [] } ∷ [];
  matches = λ text. false;
}

abbrev card_detector : CardNumberDetector
card_detector = record { re = whole_pattern; markers = []; non_card_context = whole_pattern }

one_card : length (detect_card_number card_detector card_text) ≡ 1
unfolding detect_card_number vibe_alfa_gen.Detectors.Digits.normalize_digits
    vibe_alfa_gen.Detectors.Digits.consistent_separators
    vibe_alfa_gen.Detectors.Digits.part_of_longer_digit_sequence
    vibe_alfa_gen.Detectors.Fields.has_context_regex vibe_alfa_gen.Detectors.Fields.preceding_label
    vibe_alfa_gen.Detectors.Digits.luhn
one_card = refl

abbrev whole_match : Match
whole_match = record { start = 0; stop = 16; groups = [] }

detect_card_number-IsCardAt_example :
    IsIn (found_card card_text whole_match) (detect_card_number card_detector card_text) ↔ (
      (m : Match) × IsIn m (whole_pattern.find_all card_text)
      × (IsCardAt card_detector card_text m
          × (found_card card_text whole_match ≡ found_card card_text m)))
detect_card_number-IsCardAt_example =
    detect_card_number-IsCardAt card_detector card_text (found_card card_text whole_match)

abbrev nothing_matches : Patterns
nothing_matches = record {
  person_header = λ t. false;
  field_header = λ t. false;
  negative_context = λ t. false;
}

resolve_context-OnlyConfidence_example :
    Pairwise OnlyConfidence
      (stable_sort (λ f g. ltb f.start g.start) overlapping)
      (resolve_context ascii nothing_matches (codes "Ivan Petrov 123") overlapping)
resolve_context-OnlyConfidence_example =
    resolve_context-OnlyConfidence ascii nothing_matches (codes "Ivan Petrov 123") overlapping
