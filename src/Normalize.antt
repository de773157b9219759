-- ===== src/Normalize.antt =====
-- internal/pii/normalize.go: the detection-only view of an input and its map of boundaries.
pub mod Offsets
use vibe_alfa_gen.Prelude.{
  ℕ, zero, suc, ◌+◌, ◌-◌, ◌≤◌, Bool, true, false, not, ◌&&◌, ◌||◌, List, [], ◌∷◌, ◌++◌, Option,
  none, some, ltb, leb, if◌then◌else◌, ◌==◌, nat_eq, length, replicate, get_or, any_of,
}
use vibe_alfa_gen.Text.{Text}
use vibe_alfa_gen.Text.Unicode.{Unicode}
use vibe_alfa_gen.Text.Utf8.{positions_from, encode_rune}

-- `offsets` is `none` where the input is its own view.
pub record NormalizedText : Type 0 where
  pub text : Text
  pub offsets : Option (List ℕ)

-- An index of the view that findings never use reads 0 here, where the source would panic.
unfoldable pub original_offset : NormalizedText → ℕ → ℕ
original_offset n i = elim n.offsets [ none ↦ i | some offsets ↦ get_or offsets i 0 ]

module _ (u : Unicode) where
  open u use {is_space}

  unfoldable pub normalize_rune : ℕ → ℕ
  normalize_rune r =
      if r == 0x0D || (r == 0x2028 || r == 0x2029)
      then 0x0A
      else if is_space r && not (r == 0x0A)
      then 0x20
      else if r == 0x2010 || (r == 0x2011 || (r == 0x2212 || r == 0xFF0D))
      then 0x2D
      else if leb 0xFF10 r && leb r 0xFF19
      then 0x30 + r - 0xFF10
      else if r == 0xFF0B
      then 0x2B
      else if r == 0xFF1A
      then 0x3A
      else r

  -- The second loop of normalizeText, over the runes and their positions.
  unfoldable pub view_text : List (ℕ × ℕ) → Text
  view_text [] = []
  view_text ((pos, r) ∷ rest) = encode_rune (normalize_rune r) ++ view_text rest

  unfoldable pub view_offsets : ℕ → List (ℕ × ℕ) → List ℕ
  view_offsets len [] = len ∷ []
  view_offsets len ((pos, r) ∷ rest) =
      replicate (length (encode_rune (normalize_rune r))) pos ++ view_offsets len rest

  unfoldable pub normalize_text : Text → NormalizedText
  normalize_text input =
      let at = positions_from 0 0 input in
      if any_of (λ p. not (normalize_rune p.1 == p.1)) at
      then record { text = view_text at; offsets = some (view_offsets (length input) at) }
      else record { text = input; offsets = none }
