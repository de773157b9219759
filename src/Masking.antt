-- ===== src/Masking.antt =====
-- internal/pii/masking/transform.go: the format-preserving masks, over the runes of a value.
pub mod Counts
pub mod Shape
pub mod Dates
pub mod Names
use vibe_alfa_gen.Prelude.{
  ℕ, zero, suc, ◌+◌, ◌-◌, Bool, false, not, ◌&&◌, ◌||◌, List, [], ◌∷◌, ◌++◌, map, Option, none,
  some, ltb, leb, if◌then◌else◌, ◌==◌, nat_eq, string_eq, length, take, drop, replicate, count_of,
}
use vibe_alfa_gen.Domain.{PiiType}
use vibe_alfa_gen.Text.{Text, Runes}
use vibe_alfa_gen.Text.Unicode.{Unicode}
use vibe_alfa_gen.Text.Utf8.{runes, of_runes, encode_rune}

abbrev pub star : ℕ
star = 0x2A

-- Whether the rune at `i` stays visible: keepYear, then the standalone year, then the digit test.
abbrev pub date_visible : (total : ℕ) → Option (ℕ × ℕ) → ℕ → Bool
date_visible total none i = false
date_visible total (some (lo, hi)) i =
    if ltb (hi - lo) total then leb lo i && ltb i hi else leb (lo + 2) i && ltb i hi

-- strings.IndexByte and strings.LastIndexByte
unfoldable pub index_byte : ℕ → Text → Option ℕ
index_byte c [] = none
index_byte c (b ∷ s) =
    if b == c then some 0 else elim (index_byte c s) [ none ↦ none | some i ↦ some (suc i) ]

unfoldable pub last_index_byte : ℕ → Text → Option ℕ
last_index_byte c [] = none
last_index_byte c (b ∷ s) = elim (last_index_byte c s) [
  | some i ↦ some (suc i)
  | none ↦ if b == c then some 0 else none
]

-- `string(local[0])` is the encoding of the first byte taken for a code point.
unfoldable pub mask_local : Text → Text
mask_local [] = star ∷ []
mask_local (b ∷ s) = encode_rune b ++ replicate (length s) star

unfoldable pub mask_domain : Text → Text
mask_domain domain = elim (last_index_byte 0x2E domain) [
  | none ↦ replicate (length domain) star
  | some zero ↦ replicate (length domain) star
  | some (suc dot) ↦ replicate (suc dot) star ++ drop (suc dot) domain
]

-- The loop of maskFullName, which writes a space before each word but the first.
unfoldable pub initials : List Runes → Runes
initials [] = []
initials ([] ∷ ws) = 0x20 ∷ initials ws
initials ((r ∷ _) ∷ ws) = 0x20 ∷ r ∷ 0x2E ∷ initials ws

-- A run ends: it is a word unless it is empty.
abbrev pub close_word : Runes → List Runes → List Runes
close_word [] rest = rest
close_word (w ∷ word) rest = (w ∷ word) ∷ rest

module _ (u : Unicode) where
  open u use {is_digit, is_letter, is_space}

  -- The loop shared by maskPassport, maskCardNumber and maskPhone: the first `lead` and the last
  -- `trail` of `total` digits stay. `total - trail` may be negative in the source, where every
  -- digit then stays; here it is 0, with the same effect.
  unfoldable pub keep_edges : (lead trail total index : ℕ) → Runes → Runes
  keep_edges lead trail total index [] = []
  keep_edges lead trail total index (r ∷ rs) =
      (if is_digit r then (if ltb index lead || leb (total - trail) index then r else star) else r)
      ∷ keep_edges lead trail total (if is_digit r then suc index else index) rs

  unfoldable pub mask_passport : Runes → Runes
  mask_passport rs = keep_edges 2 2 (count_of is_digit rs) 0 rs

  abbrev pub mask_driver_license : Runes → Runes
  mask_driver_license = mask_passport

  abbrev pub mask_digits_keep_edges : Runes → Runes
  mask_digits_keep_edges = mask_passport

  unfoldable pub mask_card_number : Runes → Runes
  mask_card_number rs = keep_edges 4 4 (count_of is_digit rs) 0 rs

  unfoldable pub mask_phone : Runes → Runes
  mask_phone rs = keep_edges 1 2 (count_of is_digit rs) 0 rs

  unfoldable pub mask_all_digits : Runes → Runes
  mask_all_digits = map (λ r. if is_digit r then star else r)

  unfoldable pub mask_all_alpha_numeric : Runes → Runes
  mask_all_alpha_numeric = map (λ r. if is_digit r || is_letter r then star else r)

  unfoldable pub mask_words : Runes → Runes
  mask_words = map (λ r. if is_letter r then star else r)

  -- The digits that a run of digits begins with: the inner loop of dateDigitRuns.
  unfoldable pub run_length : Runes → ℕ
  run_length [] = 0
  run_length (r ∷ rs) = let n = run_length rs in if is_digit r then suc n else 0

  -- The scan of dateDigitRuns from position `i`, with `skip` runes of the current run left: the
  -- number of digits, and the last run of four, if there is one (-1, -1 in the source otherwise).
  unfoldable pub digit_runs_from : (i skip total : ℕ) → Option (ℕ × ℕ) → Runes → ℕ × Option (ℕ × ℕ)
  unfolding run_length
  digit_runs_from i skip total year [] = (total, year)
  digit_runs_from i (suc skip) total year (r ∷ rs) = digit_runs_from (suc i) skip total year rs
  digit_runs_from i zero total year (r ∷ rs) =
      let n = run_length (r ∷ rs) in
      digit_runs_from (suc i) (n - 1) (total + n) (if n == 4 then some (i, i + 4) else year) rs

  unfoldable pub date_digit_runs : Runes → ℕ × Option (ℕ × ℕ)
  unfolding digit_runs_from
  date_digit_runs = digit_runs_from 0 0 0 none

  unfoldable pub mask_date_from : (total : ℕ) → Option (ℕ × ℕ) → ℕ → Runes → Runes
  mask_date_from total year i [] = []
  mask_date_from total year i (r ∷ rs) =
      (if date_visible total year i then r else if is_digit r then star else r)
      ∷ mask_date_from total year (suc i) rs

  mask_date_runs : Runes → ℕ × Option (ℕ × ℕ) → Runes
  unfolding mask_date_from mask_words
  mask_date_runs rs (total, year) =
      if total == 0 then mask_words rs else mask_date_from total year 0 rs

  unfoldable pub mask_date : Runes → Runes
  unfolding mask_date_runs date_digit_runs
  mask_date rs = mask_date_runs rs (date_digit_runs rs)

  -- strings.Fields: the maximal runs of runes that are not white space. `word` is the
  -- current run.
  unfoldable pub fields_from : Runes → Runes → List Runes
  fields_from word [] = close_word word []
  fields_from word (r ∷ rs) =
      let rest = fields_from (if is_space r then [] else word ++ r ∷ []) rs in
      if is_space r then close_word word rest else rest

  abbrev pub fields : Runes → List Runes
  fields rs = fields_from [] rs

  unfoldable pub mask_full_name : Runes → Runes
  unfolding initials
  mask_full_name rs = elim (fields rs) [ [] ↦ rs | w ∷ ws ↦ drop 1 (initials (w ∷ ws)) ]

  -- maskEmail goes by bytes; without an '@' it masks the runes as words.
  unfoldable pub mask_email : Text → Text
  mask_email value = elim (index_byte 0x40 value) [
    | none ↦ of_runes (mask_words (runes value))
    | some at ↦ mask_local (take at value) ++ 0x40 ∷ mask_domain (drop (suc at) value)
  ]

  abbrev pub on_runes : (Runes → Runes) → Text → Text
  on_runes f value = of_runes (f (runes value))

  -- The strategy of a category; maskAllAlphaNumeric where there is none.
  unfoldable pub mask_value : PiiType → Text → Text
  mask_value typ =
      if typ == "full_name" || typ == "card_holder"
      then on_runes mask_full_name
      else if typ == "date_of_birth" || typ == "passport_issue_date"
      then on_runes mask_date
      else if typ == "place_of_birth" || typ == "citizenship"
      then on_runes mask_words
      else if typ == "passport_number"
      then on_runes mask_passport
      else if typ == "driver_license"
      then on_runes mask_driver_license
      else if typ == "passport_division_code" || typ == "inn"
      then on_runes mask_digits_keep_edges
      else if typ == "email"
      then mask_email
      else if typ == "phone"
      then on_runes mask_phone
      else if typ == "card_number"
      then on_runes mask_card_number
      else if typ == "cvv" || typ == "card_pin"
      then on_runes mask_all_digits
      else on_runes mask_all_alpha_numeric
