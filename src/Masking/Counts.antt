-- ===== src/Masking/Counts.antt =====
-- How many digits of a number stay visible in its mask.
use vibe_alfa_gen.Prelude.{ℕ, suc, ◌+◌, ◌-◌, ◌≡◌, [], ◌∷◌, arith, min, max, count_of}
use vibe_alfa_gen.Text.{Runes}
use vibe_alfa_gen.Text.Unicode.{Unicode}
use vibe_alfa_gen.Masking.{keep_edges, mask_passport, mask_card_number, mask_phone}

module _ (u : Unicode) where
  open u use {is_digit, star_not_digit}

  -- Of the digits from `index` on, those between the two edges are hidden.
  count-keep_edges :
      (lead trail total index : ℕ) (rs : Runes)
      → index + count_of is_digit rs ≡ total
      → count_of is_digit (keep_edges u lead trail total index rs)
          + (total - trail - max lead index)
        ≡ total - index
  unfolding keep_edges
  count-keep_edges lead trail total index [] h = omega arith
  count-keep_edges lead trail total index (r ∷ rs) h = ground (
    arith,
    star_not_digit,
    count-keep_edges lead trail total (suc index) rs,
    count-keep_edges lead trail total index rs,
  )

  count-edges :
      (lead trail : ℕ) (rs : Runes)
      → count_of is_digit (keep_edges u lead trail (count_of is_digit rs) 0 rs)
        ≡ min (count_of is_digit rs) (lead + trail)
  count-edges lead trail rs =
      omega (arith, count-keep_edges lead trail (count_of is_digit rs) 0 rs (omega arith))

  -- A masked passport, driver licence, division code or INN shows four of its digits at most, a
  -- masked card number eight and a masked phone number three: all of them if there are no more.
  pub visible_digits :
      (rs : Runes)
      → (count_of is_digit (mask_passport u rs) ≡ min (count_of is_digit rs) 4)
        × (count_of is_digit (mask_card_number u rs) ≡ min (count_of is_digit rs) 8)
        × (count_of is_digit (mask_phone u rs) ≡ min (count_of is_digit rs) 3)
  unfolding mask_passport mask_card_number mask_phone
  visible_digits rs = (count-edges 2 2 rs, count-edges 4 4 rs, count-edges 1 2 rs)
