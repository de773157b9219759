-- ===== src/Text/Unicode.antt =====
-- The tables of Go's `unicode` package: their contents are not in the repository, so they are a
-- parameter, with the documented facts that the program relies on.
use vibe_alfa_gen.Prelude.{
  ℕ, ◌≡◌, refl, Bool, true, false, ◌&&◌, ◌||◌, leb, if◌then◌else◌, ◌+◌, ◌==◌, nat_eq,
}

pub record Unicode : Type 0 where
  pub is_digit : ℕ → Bool
  pub is_letter : ℕ → Bool
  pub is_mark : ℕ → Bool
  pub is_space : ℕ → Bool
  pub to_lower : ℕ → ℕ
  -- '*' (U+002A) is neither a letter (class L) nor a decimal digit (class Nd).
  pub star_not_digit : is_digit 0x2A ≡ false
  pub star_not_letter : is_letter 0x2A ≡ false
  -- ' ' and '.' are neither; ' ' is white space and '.' is not.
  pub space_is_space : is_space 0x20 ≡ true
  pub dot_not_space : is_space 0x2E ≡ false

-- The tables cut down to ASCII: they meet the facts, and serve in tests.
abbrev pub ascii : Unicode
ascii = record {
  is_digit = λ r. leb 0x30 r && leb r 0x39;
  is_letter = λ r. (leb 0x41 r && leb r 0x5A) || (leb 0x61 r && leb r 0x7A);
  is_mark = λ r. false;
  is_space = λ r. r == 0x20 || (leb 9 r && leb r 13);
  to_lower = λ r. if leb 0x41 r && leb r 0x5A then r + 32 else r;
  star_not_digit = refl;
  star_not_letter = refl;
  space_is_space = refl;
  dot_not_space = refl;
}
