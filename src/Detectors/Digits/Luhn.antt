-- ===== src/Detectors/Digits/Luhn.antt =====
-- luhn: one wrong digit is seen.
use vibe_alfa_gen.Prelude.{
  ℕ, ◌+◌, ◌%◌, ◌≤◌, ◌≡◌, refl, sym, ap, ◌∙◌, Bool, true, false, not, List, [], ◌∷◌, ◌++◌,
  append_assoc, arith, nat_eq, ◌≢◌, inl, inr, Bool-cases,
}
use vibe_alfa_gen.Text.{Text}
use vibe_alfa_gen.Detectors.Digits.{reversed_onto, digit_value, luhn_digit, luhn_sum, luhn}

reversed_onto-append :
    (acc s t : List ℕ) → reversed_onto acc (s ++ t) ≡ reversed_onto (reversed_onto acc s) t
reversed_onto-append acc [] t = refl
reversed_onto-append acc (b ∷ s) t = reversed_onto-append (b ∷ acc) s t

reversed_onto_acc : (acc s : List ℕ) → reversed_onto acc s ≡ reversed_onto [] s ++ acc
reversed_onto_acc acc [] = refl
reversed_onto_acc acc (b ∷ s) =
    reversed_onto_acc (b ∷ acc) s
    ∙ sym (append_assoc (reversed_onto [] s) (b ∷ []) acc)
    ∙ ap (λ x. x ++ acc) (sym (reversed_onto_acc (b ∷ []) s))

-- Whether the digit after these is doubled.
abbrev parity_after : Bool → List ℕ → Bool
parity_after double [] = double
parity_after double (b ∷ s) = parity_after (not double) s

luhn_sum-append :
    (double : Bool) (s t : List ℕ)
    → luhn_sum double (s ++ t) ≡ luhn_sum double s + luhn_sum (parity_after double s) t
unfolding luhn_sum
luhn_sum-append double [] t = omega arith
luhn_sum-append double (b ∷ s) t = omega (arith, luhn_sum-append (not double) s t)

luhn_digit-le : (double : Bool) (d : ℕ) → d ≤ 9 → luhn_digit double d ≤ 9
luhn_digit-le true d h = ground arith
luhn_digit-le false d h = h

luhn_digit-injective :
    (double : Bool) (d e : ℕ) → d ≤ 9 → e ≤ 9 → luhn_digit double d ≡ luhn_digit double e → d ≡ e
luhn_digit-injective true d e hd he h = ground arith
luhn_digit-injective false d e hd he h = h

same_residue :
    (k l u v : ℕ) → u ≤ 9 → v ≤ 9 → (k + (u + l)) % 10 ≡ 0 → (k + (v + l)) % 10 ≡ 0 → u ≡ v
same_residue k l u v hu hv h g = omega arith

-- The sum of a number with one digit set apart.
luhn_split :
    (s t : Text) (a : ℕ)
    → luhn_sum false (reversed_onto [] (s ++ a ∷ t))
      ≡ luhn_sum false (reversed_onto [] t)
        + (luhn_digit (parity_after false (reversed_onto [] t)) (digit_value a)
            + luhn_sum (not (parity_after false (reversed_onto [] t))) (reversed_onto [] s))
unfolding luhn_sum
luhn_split s t a =
    ap (luhn_sum false)
      (reversed_onto-append [] s (a ∷ t) ∙ reversed_onto_acc (a ∷ reversed_onto [] s) t)
    ∙ luhn_sum-append false (reversed_onto [] t) (a ∷ reversed_onto [] s)

luhn-sum : (s : Text) → luhn s ≡ true → luhn_sum false (reversed_onto [] s) % 10 ≡ 0
unfolding luhn
luhn-sum s h = ground arith

same_digit :
    (s t : Text) (a b : ℕ)
    → 0x30 ≤ a
    → a ≤ 0x39
    → 0x30 ≤ b
    → b ≤ 0x39
    → luhn (s ++ a ∷ t) ≡ true
    → luhn (s ++ b ∷ t) ≡ true
    → a ≡ b
same_digit s t a b a0 a9 b0 b9 ha hb =
    let p = parity_after false (reversed_onto [] t) in
    let same =
      same_residue (luhn_sum false (reversed_onto [] t)) (luhn_sum (not p) (reversed_onto [] s))
        (luhn_digit p (digit_value a)) (luhn_digit p (digit_value b))
        (luhn_digit-le p (digit_value a) (omega arith))
        (luhn_digit-le p (digit_value b) (omega arith))
        (rw luhn_split at (luhn-sum (s ++ a ∷ t) ha))
        (rw luhn_split at (luhn-sum (s ++ b ∷ t) hb)) in
    let digits =
      luhn_digit-injective p (digit_value a) (digit_value b) (omega arith) (omega arith) same in
    omega arith

-- A number that passes the Luhn test fails it when one digit, wherever it stands, is another digit.
pub luhn_single :
    (s t : Text) (a b : ℕ)
    → 0x30 ≤ a
    → a ≤ 0x39
    → 0x30 ≤ b
    → b ≤ 0x39
    → a ≢ b
    → luhn (s ++ a ∷ t) ≡ true
    → luhn (s ++ b ∷ t) ≡ false
luhn_single s t a b a0 a9 b0 b9 differ ha = elim (Bool-cases (luhn (s ++ b ∷ t))) [
  | inr e ↦ e
  | inl e ↦ absurd (differ (same_digit s t a b a0 a9 b0 b9 ha e))
]
