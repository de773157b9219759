-- ===== src/Detectors/Labels.antt =====
-- internal/pii/detectors/helpers.go: the words behind a label.
pub mod Lengths
pub mod Rounds
pub mod Spans
use vibe_alfa_gen.Prelude.{
  ℕ, zero, suc, ◌+◌, ◌-◌, Bool, true, false, not, ◌&&◌, ◌||◌, List, [], ◌∷◌, Option, none, some,
  ltb, leb, if◌then◌else◌, ◌==◌, nat_eq, text_eq, length, get_or, take, drop, slice, any_of, all_of,
  contains, map,
}
use vibe_alfa_gen.Text.{Text, Runes, codes}
use vibe_alfa_gen.Text.Unicode.{Unicode}
use vibe_alfa_gen.Text.Utf8.{decode_rune, rune_start, runes}
use vibe_alfa_gen.Detectors.Digits.{is_ascii_digit}

abbrev pub is_cyrillic : ℕ → Bool
is_cyrillic r = leb 0x400 r && leb r 0x4FF

abbrev pub is_latin : ℕ → Bool
is_latin r = (leb 0x61 r && leb r 0x7A) || (leb 0x41 r && leb r 0x5A)

-- isLetter
abbrev pub is_letter : ℕ → Bool
is_letter r = is_cyrillic r || is_latin r

-- The bytes of the leading runes that pass a test; `skip` bytes of the last rune are left.
unfoldable pub span_length : (ℕ → Bool) → ℕ → Text → ℕ
span_length p skip [] = 0
span_length p (suc skip) (b ∷ s) = suc (span_length p skip s)
span_length p zero (b ∷ s) =
    let (r, size) = decode_rune (b ∷ s) in
    let more = suc (span_length p (size - 1) s) in if p r then more else 0

abbrev same_bool : Bool → Bool → Bool
same_bool true b = b
same_bool false b = not b

-- scanLetters
unfoldable pub scan_letters : Text → ℕ → Bool → ℕ
unfolding span_length
scan_letters input pos letters =
    pos + span_length (λ r. same_bool letters (is_letter r)) 0 (drop pos input)

-- The nearest start of a rune at or before `start + n`, but not before `start`.
unfoldable pub back_to_rune : Text → ℕ → ℕ → ℕ
back_to_rune input start zero = start
back_to_rune input start (suc n) =
    let before = back_to_rune input start n in
    if rune_start (get_or input (start + suc n) 0) then start + suc n else before

abbrev pub max_label_bytes : ℕ
max_label_bytes = 512

-- boundedLabelInput
unfoldable pub bounded_label_input : Text → ℕ → Text
unfolding back_to_rune
bounded_label_input input start =
    let bounded = take (back_to_rune input start max_label_bytes) input in
    if leb (length input - start) max_label_bytes then input else bounded

-- The scanner's state; `start` is `none` for -1, and `stop` counts only with a start.
pub record LabelScanner : Type 0 where
  pub pos : ℕ
  pub start : Option ℕ
  pub stop : ℕ
  pub count : ℕ
  pub skipped_prefix : Bool

abbrev pub has_any : List ℕ → Text → Bool
has_any bytes text = any_of (contains bytes) text

-- labelScanner.endsAtGap
unfoldable pub ends_at_gap : LabelScanner → Text → Bool
ends_at_gap s gap =
    if has_any (0x3B ∷ 0x0A ∷ []) gap
    then true
    else if ltb 0 s.count
    then has_any (codes ",.!?:0123456789<>@") gap
    else not s.skipped_prefix && has_any (codes "0123456789,!?") gap

abbrev field_label_words : List Runes
field_label_words = map codes (
    "телефон" ∷ "email" ∷ "почта" ∷ "паспорт" ∷ "инн" ∷ "фио" ∷ "город" ∷ "адрес" ∷ "дата"
    ∷ "индекс" ∷ "дом" ∷ "квартира" ∷ "ул" ∷ "д" ∷ "кв" ∷ "клиент" ∷ "получатель" ∷ [])

-- fieldLabelWord
unfoldable pub field_label_word : Runes → Bool
field_label_word word = contains field_label_words word

abbrev all_runes : (ℕ → Bool) → Text → Bool
all_runes p word = not (length word == 0) && all_of p (runes word)

abbrev pub or_some : Option ℕ → ℕ → Option ℕ
or_some none n = some n
or_some (some m) n = some m

-- The number of leading bytes that pass a test.
unfoldable pub count_front : (ℕ → Bool) → Text → ℕ
count_front p [] = 0
count_front p (b ∷ s) = let n = count_front p s in if p b then suc n else 0

abbrev pub is_blank : ℕ → Bool
is_blank b = b == 0x20 || b == 0x09

abbrev pub starts_with : Text → Text → Bool
starts_with [] s = true
starts_with (c ∷ front) [] = false
starts_with (c ∷ front) (b ∷ s) = b == c && starts_with front s

-- "№"
abbrev pub number_sign : Text
number_sign = 0xE2 ∷ 0x84 ∷ 0x96 ∷ []

-- Where the digits of a number may begin, behind '-' or a number sign.
unfoldable pub number_at : Text → ℕ → Option ℕ
unfolding count_front
number_at input pos =
    let tail = drop pos input in
    let sign = pos + count_front is_blank tail in
    let after = sign + 3 in
    if starts_with (0x2D ∷ []) tail
    then some (pos + 1)
    else if not (starts_with number_sign (drop sign input))
    then none
    else some (after + count_front is_blank (drop after input))

abbrev pub letter_ahead : Text → Bool
letter_ahead [] = false
letter_ahead (b ∷ s) = let (r, _) = decode_rune (b ∷ s) in is_letter r || r == 0x2D

abbrev pub issuer_number_at : Text → LabelScanner → Option ℕ → LabelScanner
issuer_number_at input s none = s
issuer_number_at input s (some from) =
    let digits = count_front is_ascii_digit (drop from input) in
    let stop = from + digits in
    if digits == 0 || ltb 4 digits
    then s
    else if letter_ahead (drop stop input)
    then s
    else record s { stop = stop; pos = stop }

-- labelScanner.acceptIssuerNumber
unfoldable pub accept_issuer_number : Text → LabelScanner → LabelScanner
unfolding number_at count_front
accept_issuer_number input s = issuer_number_at input s (number_at input s.pos)

module _ (u : Unicode) where
  open u use {is_space, to_lower}

  -- labelValueStart
  unfoldable pub label_value_start : Text → ℕ → ℕ
  unfolding span_length
  label_value_start input start =
      start
      + span_length (λ r. not (r == 0x3B || r == 0x0A) && (is_space r || (r == 0x3A || r == 0x2D)))
          0 (drop start input)

  abbrev pub take_word : LabelScanner → ℕ → ℕ → LabelScanner
  take_word s start stop = record s {
    start = or_some s.start start;
    stop = stop;
    pos = stop;
    count = suc s.count;
  }

  -- labelScanner.acceptWord: `none` where the word is refused.
  unfoldable pub accept_word : Text → List Runes → LabelScanner → ℕ → ℕ → Option LabelScanner
  unfolding field_label_word
  accept_word input skip_prefixes s start stop =
      let word = slice input start stop in
      let lower = map to_lower (runes word) in
      if ltb 0 s.count && field_label_word lower
      then none
      else if ltb stop (length input) && get_or input stop 0 == 0x3A
      then none
      else if s.count == 0 && contains skip_prefixes lower
      then some (record s { skipped_prefix = true; pos = stop })
      else if not (all_runes is_cyrillic word) && not (all_runes is_latin word)
      then none
      else some (take_word s start stop)

  abbrev pub after_word : Text → Bool → LabelScanner → LabelScanner
  after_word input issuer_numbers s = if issuer_numbers then accept_issuer_number input s else s

  -- The loop of collectLabelValue. The fuel bounds its rounds, and `none` would mean that it goes on.
  unfoldable pub scan_words : ℕ → Text → ℕ → List Runes → Bool → LabelScanner → Option LabelScanner
  unfolding scan_letters ends_at_gap accept_word accept_issuer_number
  scan_words zero input max_words skip_prefixes issuer_numbers s = none
  scan_words (suc fuel) input max_words skip_prefixes issuer_numbers s =
      let word_start = scan_letters input s.pos false in
      let word_stop = scan_letters input word_start true in
      if not (ltb s.count max_words && ltb s.pos (length input))
      then some s
      else if leb (length input) word_start || ends_at_gap s (slice input s.pos word_start)
      then some s
      else elim (accept_word input skip_prefixes s word_start word_stop) [
        | none ↦ some s
        | some t ↦
            scan_words fuel input max_words skip_prefixes issuer_numbers
              (after_word input issuer_numbers t)
      ]

  abbrev pub found_value : Option LabelScanner → Option (ℕ × ℕ)
  found_value none = none
  found_value (some s) = elim s.start [
    | none ↦ none
    | some start ↦ if ltb 0 s.count then some (start, s.stop) else none
  ]

  abbrev pub first_scanner : Text → ℕ → LabelScanner
  first_scanner input start = record {
    pos = label_value_start input start;
    start = none;
    stop = 0;
    count = 0;
    skipped_prefix = false;
  }

  -- collectLabelValue: the span of the value, if there is one.
  unfoldable pub collect_label_value : Text → ℕ → ℕ → List Runes → Bool → Option (ℕ × ℕ)
  unfolding bounded_label_input label_value_start scan_words
  collect_label_value input start max_words skip_prefixes issuer_numbers =
      let bounded = bounded_label_input input start in
      found_value (
        scan_words (suc (length bounded)) bounded max_words skip_prefixes issuer_numbers
          (first_scanner bounded start))

  -- collectLabeledWords
  abbrev pub collect_labeled_words : Text → ℕ → ℕ → List Runes → Option (ℕ × ℕ)
  collect_labeled_words input start max_words skip_prefixes =
      collect_label_value input start max_words skip_prefixes false
