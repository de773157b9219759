-- ===== src/Tests/Masks.antt =====
-- Masks, tokens and markers of concrete values.
use vibe_alfa_gen.Prelude.{
  ◌+◌, All, IsIn, slice, List, ◌<◌, ◌≤◌, ◌≡◌, refl, min, true, false, ◌||◌, [], ◌∷◌, ◌++◌, some,
  none, arith, count_of, any_of, length, get_or, replicate, if◌then◌else◌,
}
use vibe_alfa_gen.Text.{Text, Runes, codes}
use vibe_alfa_gen.Text.Unicode.{ascii}
use vibe_alfa_gen.Masking.{
  star, mask_passport, mask_card_number, mask_phone, mask_all_digits, mask_words,
  mask_all_alpha_numeric, mask_date, mask_full_name, mask_email, fields, index_byte,
  last_index_byte,
}
use vibe_alfa_gen.Masking.Counts.{visible_digits}
use vibe_alfa_gen.Masking.Shape.{Hides, masks-Hides, nothing_left}
use vibe_alfa_gen.Masking.Dates.{mask_date_hides}
use vibe_alfa_gen.Masking.Names.{spaced, spread, mask_full_name-spread, mask_email_lem}
use vibe_alfa_gen.Markers.{find_markers, hide_markers}
use vibe_alfa_gen.Markers.Spans.{SpansIn, in_spans, hide_markers_lem}
use vibe_alfa_gen.Markers.Matches.{IsMarker}
use vibe_alfa_gen.Markers.Found.{find_markers-AreMarkers, find_markers-finds}
use vibe_alfa_gen.Tokens.{Mac, TokenTable, new_token_table, token}
use vibe_alfa_gen.Tokens.Table.{IsIssued, token-IsIssued, new_token_table-IsValid}
use vibe_alfa_gen.Detectors.Digits.{luhn}
use vibe_alfa_gen.Detectors.Digits.Luhn.{luhn_single}

abbrev card : Runes
card = codes "4111 1111 1111 1111"

visible_digits_example :
    (count_of ascii.is_digit (mask_passport ascii card) ≡ min (count_of ascii.is_digit card) 4)
    × (count_of ascii.is_digit (mask_card_number ascii card) ≡ min (count_of ascii.is_digit card) 8)
    × (count_of ascii.is_digit (mask_phone ascii card) ≡ min (count_of ascii.is_digit card) 3)
visible_digits_example = visible_digits ascii card

masked_card : mask_card_number ascii card ≡ codes "4111 **** **** 1111"
unfolding mask_card_number vibe_alfa_gen.Masking.keep_edges
masked_card = refl

masks-Hides_example :
    Hides ascii.is_digit card (mask_passport ascii card)
    × Hides ascii.is_digit card (mask_card_number ascii card)
    × Hides ascii.is_digit card (mask_phone ascii card)
    × Hides ascii.is_digit card (mask_all_digits ascii card)
    × Hides ascii.is_letter card (mask_words ascii card)
    × Hides (λ r. ascii.is_digit r || ascii.is_letter r) card (mask_all_alpha_numeric ascii card)
    × Hides (λ r. ascii.is_digit r || ascii.is_letter r) card (mask_date ascii card)
masks-Hides_example = masks-Hides ascii card

nothing_left_example :
    (any_of (λ r. ascii.is_digit r || ascii.is_letter r) (mask_all_alpha_numeric ascii card)
      ≡ false)
    × (any_of ascii.is_digit (mask_all_digits ascii card) ≡ false)
    × (any_of ascii.is_letter (mask_words ascii card) ≡ false)
nothing_left_example = nothing_left ascii card

abbrev birthday : Runes
birthday = codes "15.03.1985"

mask_date_hides_example :
    (count_of ascii.is_digit (mask_date ascii birthday) < count_of ascii.is_digit birthday)
    × (count_of ascii.is_digit (mask_date ascii birthday) ≤ 4)
mask_date_hides_example = mask_date_hides ascii birthday (omega arith)

masked_birthday : mask_date ascii birthday ≡ codes "**.**.1985"
unfolding mask_date
masked_birthday = refl

abbrev later_names : List (Runes × Runes)
later_names = (codes "  ", codes "Petrovich") ∷ (codes " ", codes "Petrov") ∷ []

mask_full_name-spread_example :
    mask_full_name ascii (codes " " ++ (codes "Ivan" ++ spread later_names []))
    ≡ spaced (codes "Ivan" ∷ codes "Petrovich" ∷ codes "Petrov" ∷ [])
mask_full_name-spread_example =
    mask_full_name-spread ascii (codes " ") (codes "Ivan") later_names [] refl (omega arith, refl)
      (((omega arith, refl), (omega arith, refl)), (((omega arith, refl), (omega arith, refl)), tt))
      refl

shown_name : spaced (codes "Ivan" ∷ codes "Petrovich" ∷ codes "Petrov" ∷ []) ≡ codes "I. P. P."
unfolding spaced
shown_name = refl

no_at : index_byte 0x40 (codes "ivan") ≡ none
unfolding index_byte
no_at = refl

no_dot : last_index_byte 0x2E (codes "ru") ≡ none
unfolding last_index_byte
no_dot = refl

mask_email_lem_example :
    mask_email ascii (codes "ivan" ++ (0x40 ∷ codes "mail" ++ 0x2E ∷ codes "ru"))
    ≡ 0x69 ∷ replicate 3 star ++ (0x40 ∷ star ∷ replicate 3 star ++ 0x2E ∷ codes "ru")
mask_email_lem_example =
    mask_email_lem ascii 0x69 (codes "van") 0x6D (codes "ail") (codes "ru") (omega arith) no_at
      no_dot

abbrev marked : Text
marked = codes "pay <PHONE_" ++ (replicate 32 0x61 ++ codes "_0> now")

find_markers-AreMarkers_example :
    SpansIn 0 (length marked) (find_markers marked)
    × All (λ span. IsMarker (slice marked span.0 span.1)) (find_markers marked)
find_markers-AreMarkers_example = find_markers-AreMarkers marked

abbrev phone_marker : Text
phone_marker = codes "<PHONE_" ++ (replicate 32 0x61 ++ codes "_0>")

phone_marker-IsMarker : IsMarker phone_marker
phone_marker-IsMarker = record {
  name = codes "PHONE";
  tag = replicate 32 0x61;
  digits = codes "0";
  body = record {
    named = refl;
    has_name = omega arith;
    tagged = refl;
    sized = refl;
    counted = refl;
    has_digits = omega arith;
  };
  spelled = refl;
}

find_markers-finds_example :
    IsIn
      (4, 4 + length phone_marker)
      (find_markers (codes "pay " ++ (phone_marker ++ codes " now")))
find_markers-finds_example =
    find_markers-finds (codes "pay ") phone_marker (codes " now") phone_marker-IsMarker

markers_of_marked : find_markers marked ≡ (4, 46) ∷ []
unfolding find_markers vibe_alfa_gen.Markers.markers_from vibe_alfa_gen.Markers.marker_length
    vibe_alfa_gen.Markers.prefix_length vibe_alfa_gen.Markers.is_body_rev
markers_of_marked = refl

hide_markers_lem_example :
    (length (hide_markers marked) ≡ length marked)
    × (get_or (hide_markers marked) 5 0
        ≡ (if in_spans 5 (find_markers marked) then 0x20 else get_or marked 5 0))
hide_markers_lem_example = hide_markers_lem marked 5 (omega arith)

-- A MAC for tests: its tag is always the same.
abbrev pub constant_mac : Mac
constant_mac = record {
  tag = λ nonce typ value counter. replicate 32 0x61;
  length-tag = λ nonce typ value counter. refl;
}

abbrev table : TokenTable
table = new_token_table marked (codes "n")

token-IsIssued_example :
    (made : Text) × (t' : TokenTable) × (token constant_mac table "phone" (codes "1")
      ≡ some (made, t'))
    × IsIssued table ("phone", codes "1") made t'
token-IsIssued_example =
    token-IsIssued constant_mac table "phone" (codes "1")
      (new_token_table-IsValid marked (codes "n"))

luhn_card : luhn (codes "4111111111" ++ 0x31 ∷ codes "11111") ≡ true
unfolding luhn
luhn_card = refl

luhn_single_example : luhn (codes "4111111111" ++ 0x37 ∷ codes "11111") ≡ false
luhn_single_example =
    luhn_single (codes "4111111111") (codes "11111") 0x31 0x37 (omega arith) (omega arith)
      (omega arith) (omega arith) (λ e. absurd (omega (arith, e))) luhn_card
