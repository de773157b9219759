-- ===== src/Tests/Labels.antt =====
-- The value behind a label.
use vibe_alfa_gen.Prelude.{
  suc, All, ◌∷◌, ℕ, ◌+◌, ◌≤◌, ◌<◌, ◌≡◌, refl, true, false, [], Option, some, arith, length,
}
use vibe_alfa_gen.Text.{Text, codes}
use vibe_alfa_gen.Text.Unicode.{ascii}
use vibe_alfa_gen.Detectors.Labels.{collect_label_value}
use vibe_alfa_gen.Detectors.Fields.{Pattern}
use vibe_alfa_gen.Detectors.Labelled.{
  detect_citizenship, detect_card_holder, detect_place_of_birth, detect_issuer,
}
use vibe_alfa_gen.Detectors.Labelled.Behind.{IsBehindLabel, detect_labels-IsBehindLabel}

abbrev born : Text
born = codes "born: Nizhny Tagil, 1990"

-- The words before the comma.
born_in : collect_label_value ascii born 4 4 [] false ≡ some (6, 18)
unfolding collect_label_value vibe_alfa_gen.Text.Utf8.decode_rune vibe_alfa_gen.Prelude.contains
    vibe_alfa_gen.Text.Utf8.runes
born_in = refl

-- The expression of the label matches once, at the start.
abbrev born_label : Pattern
born_label = record {
  find_all = λ text. record { start = 0; stop = 4; groups = [] } ∷ [];
  matches = λ text. true;
}

detect_labels-IsBehindLabel_example :
    All (IsBehindLabel "citizenship" [] born) (detect_citizenship ascii [] born)
    × (All
          (IsBehindLabel "card_holder" (born_label ∷ []) born)
          (detect_card_holder ascii (born_label ∷ []) born)
        × (All
              (IsBehindLabel "place_of_birth" (born_label ∷ []) born)
              (detect_place_of_birth ascii (born_label ∷ []) born)
            × All (IsBehindLabel "passport_issuer" [] born) (detect_issuer ascii [] born)))
detect_labels-IsBehindLabel_example =
    detect_labels-IsBehindLabel ascii born [] (born_label ∷ []) (born_label ∷ []) [] tt
      ((omega arith, tt), tt) ((omega arith, tt), tt) tt
