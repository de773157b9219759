-- ===== src/Tokens/Decimal.antt =====
-- Decimal numerals: two numbers with the same digits are equal.
use vibe_alfa_gen.Prelude.{
  ℕ, zero, suc, ◌+◌, ◌-◌, ◌*◌, ◌/◌, ◌%◌, ◌≤◌, ◌<◌, ◌≡◌, refl, sym, ap, ◌∙◌, [], ◌∷◌, ◌++◌, ltb,
  arith, Bool-cases, inl, inr,
}
use vibe_alfa_gen.Text.{Text}
use vibe_alfa_gen.Tokens.{decimal_fuel, decimal}

read_digits : ℕ → Text → ℕ
read_digits acc [] = acc
read_digits acc (c ∷ s) = read_digits (acc * 10 + (c - 0x30)) s

read_digits-append :
    (acc c : ℕ) (s : Text) → read_digits acc (s ++ c ∷ []) ≡ read_digits acc s * 10 + (c - 0x30)
unfolding read_digits
read_digits-append acc c [] = refl
read_digits-append acc c (d ∷ s) = read_digits-append (acc * 10 + (d - 0x30)) c s

read_digits-decimal_fuel : (f n : ℕ) → n < f → read_digits 0 (decimal_fuel f n) ≡ n
unfolding decimal_fuel read_digits
read_digits-decimal_fuel zero n h = absurd (omega arith)
read_digits-decimal_fuel (suc f) n h = elim (Bool-cases (ltb n 10)) [
  | inl e ↦ rw e (omega arith)
  | inr e ↦
      let big : 10 ≤ n = ground arith in
      rw
        (
          e,
          read_digits-append 0 (0x30 + n % 10) (decimal_fuel f (n / 10)),
          read_digits-decimal_fuel f (n / 10) (omega arith),
        )
        (omega arith)
]

pub decimal-injective : (m n : ℕ) → decimal m ≡ decimal n → m ≡ n
unfolding decimal
decimal-injective m n h =
    sym (read_digits-decimal_fuel (suc m) m (omega arith))
    ∙ (ap (read_digits 0) h ∙ read_digits-decimal_fuel (suc n) n (omega arith))
