-- ===== src/Detectors/Dates.antt =====
-- internal/pii/detectors/date.go: dates in figures and in words, and the class of a date.
use vibe_alfa_gen.Prelude.{
  ℕ, zero, suc, ◌+◌, ◌-◌, ◌*◌, ◌%◌, Bool, false, not, ◌&&◌, ◌||◌, List, [], ◌∷◌, ◌++◌, String,
  Option, none, some, map, ltb, leb, if◌then◌else◌, ◌==◌, nat_eq, text_eq, pair_eq, length, drop,
  slice, get_or, contains,
}
use vibe_alfa_gen.Domain.{PiiType, Finding, Confidence, confidence_high, confidence_medium}
use vibe_alfa_gen.Text.{Text, Runes, codes}
use vibe_alfa_gen.Text.Unicode.{Unicode}
use vibe_alfa_gen.Text.Utf8.{decode_rune, runes}
use vibe_alfa_gen.Detectors.Digits.{is_ascii_digit}
use vibe_alfa_gen.Detectors.Fields.{
  Match, Pattern, nearest_preceding_marker_match, contains_letter_or_digit,
}
use vibe_alfa_gen.Detectors.Numbers.{LocalMarkers, finding_of, accept}

-- isLeap
unfoldable pub is_leap : ℕ → Bool
is_leap yy = yy % 4 == 0 && (not (yy % 100 == 0) || yy % 400 == 0)

abbrev pub month_days : List ℕ
month_days = 31 ∷ 28 ∷ 31 ∷ 30 ∷ 31 ∷ 30 ∷ 31 ∷ 31 ∷ 30 ∷ 31 ∷ 30 ∷ 31 ∷ []

unfoldable pub days_in : ℕ → ℕ → ℕ
days_in yy mm = if mm == 2 && is_leap yy then 29 else get_or month_days (mm - 1) 0

-- A year of two figures is one of this century.
abbrev pub full_year : ℕ → ℕ
full_year yy = if ltb yy 100 then yy + 2000 else yy

-- validDateParts
unfoldable pub valid_date_parts : ℕ → ℕ → ℕ → Bool
valid_date_parts dd mm yy =
    if ltb mm 1 || (ltb 12 mm || ltb dd 1)
    then false
    else if ltb (full_year yy) 1900 || ltb 2100 (full_year yy)
    then false
    else leb dd (days_in (full_year yy) mm)

-- atoi: what is no figure is skipped.
abbrev atoi_from : ℕ → Text → ℕ
atoi_from n [] = n
atoi_from n (b ∷ s) = atoi_from (if is_ascii_digit b then n * 10 + (b - 0x30) else n) s

unfoldable pub atoi : Text → ℕ
atoi s = atoi_from 0 s

-- dedupBySpan: the first finding of each span.
unfoldable pub dedup_from : List (ℕ × ℕ) → List Finding → List Finding
dedup_from seen [] = []
dedup_from seen (f ∷ fs) =
    let rest = dedup_from seen fs in
    let new = f ∷ dedup_from ((f.start, f.stop) ∷ seen) fs in
    if contains seen (f.start, f.stop) then rest else new

-- A table from words in lower case to numbers.
abbrev pub Words : Type 0
Words = List (String × ℕ)

unfoldable pub find_word : Words → Runes → Option ℕ
find_word [] word = none
find_word ((w, n) ∷ ws) word =
    let rest = find_word ws word in if codes w == word then some n else rest

abbrev pub units : Words
units =
    ("первого", 1)
    ∷ ("второго", 2)
    ∷ ("третьего", 3)
    ∷ ("четвёртого", 4)
    ∷ ("четвертого", 4)
    ∷ ("пятого", 5)
    ∷ ("шестого", 6)
    ∷ ("седьмого", 7)
    ∷ ("восьмого", 8)
    ∷ ("девятого", 9)
    ∷ ("десятого", 10)
    ∷ ("одиннадцатого", 11)
    ∷ ("двенадцатого", 12)
    ∷ ("тринадцатого", 13)
    ∷ ("четырнадцатого", 14)
    ∷ ("пятнадцатого", 15)
    ∷ ("шестнадцатого", 16)
    ∷ ("семнадцатого", 17)
    ∷ ("восемнадцатого", 18)
    ∷ ("девятнадцатого", 19)
    ∷ ("двадцатого", 20)
    ∷ ("тридцатого", 30)
    ∷ []

abbrev pub day_tens_words : Words
day_tens_words = ("двадцать", 20) ∷ ("тридцать", 30) ∷ []

abbrev pub month_words : Words
month_words =
    ("января", 1)
    ∷ ("февраля", 2)
    ∷ ("марта", 3)
    ∷ ("апреля", 4)
    ∷ ("мая", 5)
    ∷ ("июня", 6)
    ∷ ("июля", 7)
    ∷ ("августа", 8)
    ∷ ("сентября", 9)
    ∷ ("октября", 10)
    ∷ ("ноября", 11)
    ∷ ("декабря", 12)
    ∷ []

abbrev pub year_ordinal_under_hundred : Words
year_ordinal_under_hundred =
    units
    ++ ("сорокового", 40)
      ∷ ("пятидесятого", 50)
      ∷ ("шестидесятого", 60)
      ∷ ("семидесятого", 70)
      ∷ ("восьмидесятого", 80)
      ∷ ("девяностого", 90)
      ∷ []

abbrev pub year_cardinal_tens : Words
year_cardinal_tens =
    ("двадцать", 20)
    ∷ ("тридцать", 30)
    ∷ ("сорок", 40)
    ∷ ("пятьдесят", 50)
    ∷ ("шестьдесят", 60)
    ∷ ("семьдесят", 70)
    ∷ ("восемьдесят", 80)
    ∷ ("девяносто", 90)
    ∷ []

-- The bytes of the runes at the start of a text that pass a test; `skip` bytes of a rune are left.
unfoldable pub span_bytes : (ℕ → Bool) → ℕ → List ℕ → ℕ
span_bytes p skip [] = 0
span_bytes p (suc skip) (b ∷ s) = suc (span_bytes p skip s)
span_bytes p zero (b ∷ s) =
    let (r, size) = decode_rune (b ∷ s) in
    let rest = suc (span_bytes p (size - 1) s) in if p r then rest else 0

-- strings.Fields, of the runes.
unfoldable pub fields_from : (ℕ → Bool) → Runes → Runes → List Runes
fields_from space word [] = if length word == 0 then [] else word ∷ []
fields_from space word (r ∷ rs) =
    let cut = fields_from space [] rs in
    let longer = fields_from space (word ++ r ∷ []) rs in
    if space r then (if length word == 0 then cut else word ∷ cut) else longer

-- A chain of tests that a value may fail.
infixl 5 ◌~>◌
abbrev pub ◌~>◌ : {A B : Type 0} → Option A → (A → Option B) → Option B
none ~> f = none
some a ~> f = f a

module _ (u : Unicode) where
  abbrev lower : Text → Runes
  lower s = map u.to_lower (runes s)

  unfoldable pub parse_day_words : Text → Option ℕ
  unfolding fields_from find_word
  parse_day_words s = elim (fields_from u.is_space [] (runes s)) [
    | [] ↦ none
    | w ∷ [] ↦ find_word units (map u.to_lower w)
    | w ∷ v ∷ _ ↦ find_word day_tens_words (map u.to_lower w) ~> λ tens.
        find_word units (map u.to_lower v) ~> λ ones. some (tens + ones)
  ]

  -- nextDateWord: the word and its end.
  unfoldable pub next_date_word : Text → ℕ → Option (Text × ℕ)
  unfolding span_bytes
  next_date_word input start =
      let first = start + span_bytes u.is_space 0 (drop start input) in
      let stop = first + span_bytes u.is_letter 0 (drop first input) in
      if stop == first then none else some (slice input first stop, stop)

  unfoldable pub date_word_continues : Text → ℕ → Bool
  date_word_continues input stop =
      let (r, size) = decode_rune (drop stop input) in
      if leb (length input) stop then false else u.is_letter r || u.is_digit r

  unfoldable pub finish_year_words : Text → ℕ → ℕ → Option (ℕ × ℕ)
  unfolding date_word_continues
  finish_year_words input start year = next_date_word input start ~> λ next.
      if not (lower next.0 == codes "года") || (ltb year 1900 || ltb 2099 year)
      then none
      else if date_word_continues input next.1
      then none
      else some (year, next.1)

  -- The end of the grammar of years: the words after the thousands and hundreds.
  unfoldable pub year_remainder : Text → ℕ → ℕ → Option (ℕ × ℕ)
  unfolding find_word
  year_remainder input stop base = next_date_word input stop ~> λ next.
      elim (find_word year_ordinal_under_hundred (lower next.0)) [
        | some value ↦ finish_year_words input next.1 (base + value)
        | none ↦ find_word year_cardinal_tens (lower next.0) ~> λ tens.
            next_date_word input next.1 ~> λ last. find_word units (lower last.0) ~> λ ones.
            if ltb ones 1 || ltb 9 ones
            then none
            else finish_year_words input last.1 (base + tens + ones)
      ]

  unfoldable pub parse_year_words : Text → ℕ → Option (ℕ × ℕ)
  unfolding year_remainder
  parse_year_words input start = next_date_word input start ~> λ next.
      let word = lower next.0 in
      if word == codes "двухтысячного"
      then finish_year_words input next.1 2000
      else if not (word == codes "тысяча") && not (word == codes "две")
      then none
      else (next_date_word input next.1 ~> λ after.
          let second = lower after.0 in
          if word == codes "тысяча" && second == codes "девятисотого"
          then finish_year_words input after.1 1900
          else if word == codes "тысяча" && second == codes "девятьсот"
          then year_remainder input after.1 1900
          else if word == codes "две" && second == codes "тысячи"
          then year_remainder input after.1 2000
          else none)

  -- classify: the type and the confidence of a date, by the nearest marker before it.
  unfoldable pub classify : LocalMarkers → Text → ℕ → Option (PiiType × Confidence)
  classify l input start =
      nearest_preceding_marker_match input start (l.date_dob ∷ l.date_issue ∷ l.date_generic ∷ [])
      ~> λ found.
          if found.0 == 0
          then some ("date_of_birth", confidence_high)
          else if found.0 == 1
          then (if contains_letter_or_digit u (slice input found.1 start)
              then none
              else some ("passport_issue_date", confidence_high))
          else some ("date_of_birth", confidence_medium)

  abbrev dated : LocalMarkers → Text → ℕ → ℕ → Option Finding
  dated l input start stop =
      classify l input start ~> λ c. some (finding_of c.0 "date" input start stop c.1)

  abbrev group_text : Text → Match → ℕ → Text
  group_text input m i = let (lo, hi) = get_or m.groups i (0, 0) in slice input lo hi

  abbrev rest_text : Text → Match → ℕ → Text
  rest_text input m i = let (lo, hi) = get_or m.groups i (0, 0) in slice input lo m.stop

  -- One match of detectYearLast: the day stands before the month, or after it.
  unfoldable pub year_last_match : LocalMarkers → Text → Match → Option Finding
  year_last_match l input m =
      let a = atoi (group_text input m 0) in
      let b = atoi (group_text input m 1) in
      let yy = atoi (rest_text input m 2) in
      if valid_date_parts a b yy || valid_date_parts b a yy
      then dated l input m.start m.stop
      else none

  -- One match of detectYearFirst.
  unfoldable pub year_first_match : LocalMarkers → Text → Match → Option Finding
  year_first_match l input m =
      let yy = atoi (group_text input m 0) in
      let a = atoi (group_text input m 1) in
      let b = atoi (rest_text input m 2) in
      if valid_date_parts b a yy || valid_date_parts a b yy
      then dated l input m.start m.stop
      else none

  abbrev or_zero : Option ℕ → ℕ
  or_zero none = 0
  or_zero (some n) = n

  -- One match of detectTextual: a missing month is 0, which is no month.
  unfoldable pub textual_match : LocalMarkers → Text → Match → Option Finding
  textual_match l input m =
      let dd = atoi (group_text input m 0) in
      let mm = or_zero (find_word month_words (lower (group_text input m 1))) in
      let yy = atoi (rest_text input m 2) in
      if valid_date_parts dd mm yy then dated l input m.start m.stop else none

  -- One match of detectWordsInWords, whose groups are the day and the month.
  unfoldable pub words_match : LocalMarkers → Text → Match → Option Finding
  unfolding parse_day_words parse_year_words
  words_match l input m =
      let (start, _) = get_or m.groups 0 (0, 0) in
      let (_, month_end) = get_or m.groups 1 (0, 0) in
      if date_word_continues input month_end
      then none
      else (parse_day_words (group_text input m 0) ~> λ day.
          find_word month_words (lower (group_text input m 1)) ~> λ month.
          parse_year_words input month_end ~> λ year.
          if valid_date_parts day month year.0 then dated l input start year.1 else none)

  abbrev birth_year : Text → Match → Option Finding
  birth_year input m =
      let (lo, hi) = get_or m.groups 0 (0, 0) in
      some (finding_of "date_of_birth" "date" input lo hi confidence_high)

  pub record DateDetector : Type 0 where
    pub numeric_re : Pattern
    pub year_first_re : Pattern
    pub textual_re : Pattern
    pub year_only_re : Pattern
    pub day_month_re : Pattern

  unfoldable pub detect_dates : DateDetector → LocalMarkers → Text → List Finding
  unfolding year_last_match year_first_match textual_match words_match
  detect_dates d l input = dedup_from [] (
      accept (birth_year input) (d.year_only_re.find_all input)
      ++ (accept (year_last_match l input) (d.numeric_re.find_all input)
          ++ (accept (year_first_match l input) (d.year_first_re.find_all input)
              ++ (accept (textual_match l input) (d.textual_re.find_all input)
                  ++ accept (words_match l input) (d.day_month_re.find_all input)))))
