-- ===== src/Masking/Shape.antt =====
-- What a mask leaves in place: it is the value with some runes replaced by stars.
use vibe_alfa_gen.Prelude.{
  ℕ, suc, ◌≡◌, refl, Bool, true, false, ◌||◌, ◌⊎◌, inl, inr, [], ◌∷◌, map, arith, if◌then◌else◌,
  count_of, any_of, Option, Bool-cases, ◌==◌, nat_eq,
}
use vibe_alfa_gen.Text.{Runes}
use vibe_alfa_gen.Text.Unicode.{Unicode}
use vibe_alfa_gen.Masking.{
  star, keep_edges, mask_passport, mask_card_number, mask_phone, mask_all_digits,
  mask_all_alpha_numeric, mask_words, mask_date, mask_date_runs, mask_date_from, date_digit_runs,
  date_visible,
}

-- Rune for rune, `ss` is `rs` or a star, and only runes that pass `p` become stars.
abbrev pub Hides : (ℕ → Bool) → Runes → Runes → Type 0
Hides p [] [] = Unit
Hides p (r ∷ rs) (s ∷ ss) = ((s ≡ r) ⊎ ((s ≡ star) × (p r ≡ true))) × Hides p rs ss
Hides p _ _ = ⊥

kept_or_starred :
    (visible hides : Bool) (r : ℕ)
    → ((if visible then r else if hides then star else r) ≡ r)
      ⊎ (((if visible then r else if hides then star else r) ≡ star) × (hides ≡ true))
kept_or_starred visible hides r = ground arith

module _ (u : Unicode) where
  open u use {is_digit, is_letter}

  keep_edges-Hides :
      (lead trail total index : ℕ) (rs : Runes)
      → Hides is_digit rs (keep_edges u lead trail total index rs)
  unfolding keep_edges
  keep_edges-Hides lead trail total index [] = tt
  keep_edges-Hides lead trail total index (r ∷ rs) =
      (ground arith, keep_edges-Hides lead trail total (if is_digit r then suc index else index) rs)

  map-Hides : (p : ℕ → Bool) (rs : Runes) → Hides p rs (map (λ r. if p r then star else r) rs)
  map-Hides p [] = tt
  map-Hides p (r ∷ rs) = (ground arith, map-Hides p rs)

  mask_date_from-Hides :
      (total : ℕ) (year : Option (ℕ × ℕ)) (i : ℕ) (rs : Runes)
      → Hides is_digit rs (mask_date_from u total year i rs)
  unfolding mask_date_from
  mask_date_from-Hides total year i [] = tt
  mask_date_from-Hides total year i (r ∷ rs) = (
    kept_or_starred (date_visible total year i) (is_digit r) r,
    mask_date_from-Hides total year (suc i) rs,
  )

  Hides-weaken :
      (p q : ℕ → Bool)
      → ((r : ℕ) → p r ≡ true → q r ≡ true)
      → (rs ss : Runes) → Hides p rs ss
      → Hides q rs ss
  Hides-weaken p q f [] [] h = tt
  Hides-weaken p q f (r ∷ rs) (s ∷ ss) h = (ground (arith, f r), Hides-weaken p q f rs ss h.1)
  Hides-weaken p q f [] (s ∷ ss) h = h
  Hides-weaken p q f (r ∷ rs) [] h = h

  abbrev digit_or_letter : ℕ → Bool
  digit_or_letter r = is_digit r || is_letter r

  mask_date_runs-Hides :
      (rs : Runes) (found : ℕ × Option (ℕ × ℕ))
      → Hides digit_or_letter rs (mask_date_runs u rs found)
  unfolding mask_date_runs mask_words
  mask_date_runs-Hides rs (total, year) = elim (Bool-cases (total == 0)) [
    | inl e ↦
        rw e (
          Hides-weaken is_letter digit_or_letter (λ r h. ground arith) rs _
            (map-Hides is_letter rs))
    | inr e ↦ rw e (
        Hides-weaken is_digit digit_or_letter (λ r h. ground arith) rs _
          (mask_date_from-Hides total year 0 rs))
  ]

  -- Every rune mask keeps the length and the separators: a number mask replaces only digits, a word
  -- mask only letters, and a date or full mask only digits and letters.
  pub masks-Hides :
      (rs : Runes)
      → Hides is_digit rs (mask_passport u rs)
        × Hides is_digit rs (mask_card_number u rs)
        × Hides is_digit rs (mask_phone u rs)
        × Hides is_digit rs (mask_all_digits u rs)
        × Hides is_letter rs (mask_words u rs)
        × Hides (λ r. is_digit r || is_letter r) rs (mask_all_alpha_numeric u rs)
        × Hides (λ r. is_digit r || is_letter r) rs (mask_date u rs)
  unfolding mask_passport mask_card_number mask_phone mask_all_digits mask_words
      mask_all_alpha_numeric mask_date
  masks-Hides rs = (
    keep_edges-Hides 2 2 (count_of is_digit rs) 0 rs,
    keep_edges-Hides 4 4 (count_of is_digit rs) 0 rs,
    keep_edges-Hides 1 2 (count_of is_digit rs) 0 rs,
    map-Hides is_digit rs,
    map-Hides is_letter rs,
    map-Hides digit_or_letter rs,
    mask_date_runs-Hides rs (date_digit_runs u rs),
  )

  any_of-map :
      (p q : ℕ → Bool)
      → q star ≡ false
      → ((r : ℕ) → q r ≡ true → p r ≡ true)
      → (rs : Runes) → any_of q (map (λ r. if p r then star else r) rs) ≡ false
  any_of-map p q h f [] = refl
  any_of-map p q h f (r ∷ rs) = ground (arith, f r, any_of-map p q h f rs)

  -- The full mask leaves neither a digit nor a letter, the digit mask no digit, and the word mask no
  -- letter.
  pub nothing_left :
      (rs : Runes)
      → (any_of (λ r. is_digit r || is_letter r) (mask_all_alpha_numeric u rs) ≡ false)
        × (any_of is_digit (mask_all_digits u rs) ≡ false)
        × (any_of is_letter (mask_words u rs) ≡ false)
  unfolding mask_all_alpha_numeric mask_all_digits mask_words
  nothing_left rs = (
    any_of-map digit_or_letter digit_or_letter (ground (arith, u.star_not_digit, u.star_not_letter))
        (λ r h. h) rs,
    any_of-map is_digit is_digit u.star_not_digit (λ r h. h) rs,
    any_of-map is_letter is_letter u.star_not_letter (λ r h. h) rs,
  )
