-- ===== src/Detectors/Digits.antt =====
-- internal/pii/detectors: the digits of a candidate and their checksums (helpers.go, card_number.go
-- and inn.go).
pub mod Luhn
use vibe_alfa_gen.Prelude.{
  ℕ, ◌+◌, ◌-◌, ◌*◌, ◌%◌, Bool, true, false, not, ◌&&◌, ◌||◌, List, [], ◌∷◌, Option, none, some, ltb,
  leb, if◌then◌else◌, ◌==◌, nat_eq, length, get_or, take, drop, keep,
}
use vibe_alfa_gen.Text.{Text}

-- isDigit, of a byte or a rune.
abbrev pub is_ascii_digit : ℕ → Bool
is_ascii_digit r = leb 0x30 r && leb r 0x39

abbrev pub is_separator : ℕ → Bool
is_separator b = b == 0x20 || b == 0x2D

-- precededByMoreDigits looks at the bytes before `start`, the nearest first; followedByMoreDigits at
-- those from `stop` on.
unfoldable pub more_digits : List ℕ → Bool
more_digits [] = false
more_digits (b ∷ []) = is_ascii_digit b
more_digits (b ∷ c ∷ _) = if is_separator b then is_ascii_digit c else is_ascii_digit b

abbrev pub reversed_onto : List ℕ → List ℕ → List ℕ
reversed_onto acc [] = acc
reversed_onto acc (b ∷ s) = reversed_onto (b ∷ acc) s

-- partOfLongerDigitSequence
unfoldable pub part_of_longer_digit_sequence : Text → ℕ → ℕ → Bool
unfolding more_digits
part_of_longer_digit_sequence input start stop =
    more_digits (reversed_onto [] (take start input)) || more_digits (drop stop input)

-- normalizeDigits: an ASCII digit is one byte, and no byte of another rune is one.
unfoldable pub normalize_digits : Text → Text
normalize_digits = keep is_ascii_digit

-- The loop of consistentSeparators: the separator seen so far, if any.
unfoldable pub separators_from : Option ℕ → Text → Bool
separators_from seen [] = true
separators_from seen (b ∷ s) =
    let first = separators_from (some b) s in
    let rest = separators_from seen s in
    if is_separator b
    then (elim seen [ none ↦ first | some sep ↦ if b == sep then rest else false ])
    else rest

unfoldable pub consistent_separators : Text → Bool
unfolding separators_from
consistent_separators s = separators_from none s

-- s[i] - '0', which wraps as a byte does.
abbrev pub digit_value : ℕ → ℕ
digit_value b = (b + 0xD0) % 0x100

-- The loop of luhn, from the last digit back: what one digit adds.
abbrev pub luhn_digit : Bool → ℕ → ℕ
luhn_digit double d = if double then (if ltb 9 (d * 2) then d * 2 - 9 else d * 2) else d

unfoldable pub luhn_sum : Bool → List ℕ → ℕ
luhn_sum double [] = 0
luhn_sum double (b ∷ s) = luhn_digit double (digit_value b) + luhn_sum (not double) s

unfoldable pub luhn : Text → Bool
unfolding luhn_sum
luhn s = luhn_sum false (reversed_onto [] s) % 10 == 0

-- The sum of digits by weights, over the weights given.
unfoldable pub weighted : List ℕ → Text → ℕ
weighted [] s = 0
weighted (w ∷ ws) [] = 0
weighted (w ∷ ws) (b ∷ s) = digit_value b * w + weighted ws s

abbrev pub digit_at : Text → ℕ → ℕ
digit_at s i = digit_value (get_or s i 0x30)

abbrev pub weights_10 : List ℕ
weights_10 = 2 ∷ 4 ∷ 10 ∷ 3 ∷ 5 ∷ 9 ∷ 4 ∷ 6 ∷ 8 ∷ []

abbrev pub weights_11 : List ℕ
weights_11 = 7 ∷ 2 ∷ 4 ∷ 10 ∷ 3 ∷ 5 ∷ 9 ∷ 4 ∷ 6 ∷ 8 ∷ []

abbrev pub weights_12 : List ℕ
weights_12 = 3 ∷ 7 ∷ 2 ∷ 4 ∷ 10 ∷ 3 ∷ 5 ∷ 9 ∷ 4 ∷ 6 ∷ 8 ∷ []

-- innChecksum
unfoldable pub inn_checksum : Text → Bool
unfolding weighted
inn_checksum inn =
    if length inn == 10
    then weighted weights_10 inn % 11 % 10 == digit_at inn 9
    else if length inn == 12
    then weighted weights_11 inn % 11 % 10 == digit_at inn 10
      && weighted weights_12 inn % 11 % 10 == digit_at inn 11
    else false
