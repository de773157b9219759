-- ===== src/Tokens/Fresh.antt =====
-- The search for a token ends: the tokens of one value at different counters differ, so a reserved
-- list of length k blocks k counters at most.
use vibe_alfa_gen.Prelude.{
  ℕ, zero, suc, ◌%◌, ◌^◌, ◌≤◌, ◌<◌, ◌≡◌, ◌≢◌, refl, sym, ◌∙◌, true, false, List, [], ◌∷◌, ◌++◌,
  some, if◌then◌else◌, ◌==◌, text_eq, length, contains, arith, Bool-cases, inl, inr, eq_of_beq,
}
use mathlib.Core.List.{append_cancel_left, append_cancel_right}
use vibe_alfa_gen.Domain.{PiiType}
use vibe_alfa_gen.Text.{Text, codes}
use vibe_alfa_gen.Tokens.{Mac, upper, decimal, token_text, search_token}
use vibe_alfa_gen.Tokens.Decimal.{decimal-injective}

drop_equal_prefix : (xs ys s t : Text) → length xs ≡ length ys → xs ++ s ≡ ys ++ t → s ≡ t
drop_equal_prefix [] [] s t h e = e
drop_equal_prefix (x ∷ xs) (y ∷ ys) s t h e =
    drop_equal_prefix xs ys s t (omega arith) (ground (arith, e))
drop_equal_prefix [] (y ∷ ys) s t h e = absurd (omega arith)
drop_equal_prefix (x ∷ xs) [] s t h e = absurd (omega arith)

-- All elements but those equal to `a`.
without : Text → List Text → List Text
without a [] = []
without a (x ∷ xs) = let rest = without a xs in if x == a then rest else x ∷ rest

length-without-le : (a : Text) (xs : List Text) → length (without a xs) ≤ length xs
unfolding without
length-without-le a [] = omega arith
length-without-le a (x ∷ xs) = ground (arith, length-without-le a xs)

length-without :
    (a : Text) (xs : List Text) → contains xs a ≡ true → length (without a xs) < length xs
unfolding without contains
length-without a [] h = ground arith
length-without a (x ∷ xs) h = ground (arith, length-without a xs, length-without-le a xs)

contains-without : (a b : Text) (xs : List Text) → a ≢ b → contains (without a xs) b ≡ contains xs b
unfolding without contains
contains-without a b [] ne = refl
contains-without a b (x ∷ xs) ne =
    ground (arith, contains-without a b xs, eq_of_beq x a, eq_of_beq x b)

module _ (mac : Mac) (nonce : Text) (typ : PiiType) (value : Text) where
  abbrev at : ℕ → Text
  at n = token_text mac nonce typ value n

  token_text-injective : (m n : ℕ) → at m ≡ at n → m ≡ n
  unfolding token_text
  token_text-injective m n e =
      let tagged = append_cancel_left (0x3C ∷ upper (codes typ)) _ _ e in
      let numbered =
        drop_equal_prefix (0x5F ∷ mac.tag nonce typ value (m % 2 ^ 64))
          (0x5F ∷ mac.tag nonce typ value (n % 2 ^ 64)) _ _ same_length tagged in
      let digits = append_cancel_right (0x5F ∷ decimal m) (0x5F ∷ decimal n) (0x3E ∷ []) numbered in
      decimal-injective m n (cc digits)
    where
      same_length :
          length (0x5F ∷ mac.tag nonce typ value (m % 2 ^ 64))
          ≡ length (0x5F ∷ mac.tag nonce typ value (n % 2 ^ 64))
      same_length = omega (
        arith,
        mac.length-tag nonce typ value (m % 2 ^ 64),
        mac.length-tag nonce typ value (n % 2 ^ 64),
      )

  -- `R` stands for the reserved tokens that may still come up from the counter `n` on.
  pub search_token-some :
      (reserved : List Text) (fuel n : ℕ) (R : List Text)
      → ((k : ℕ) → n ≤ k → contains reserved (at k) ≡ contains R (at k))
      → length R < fuel
      → (k : ℕ) × (search_token mac fuel nonce reserved typ value n ≡ some k)
        × (contains reserved (at k) ≡ false)
        × (n ≤ k)
  unfolding search_token
  search_token-some reserved zero n R same h = absurd (omega arith)
  search_token-some reserved (suc fuel) n R same h = elim (Bool-cases (contains reserved (at n))) [
    | inr free ↦ (n, rw free, free, omega arith)
    | inl taken ↦
        let here : contains R (at n) ≡ true = sym (same n (omega arith)) ∙ taken in
        let (k, found, unreserved, later) =
          search_token-some reserved fuel (suc n) (without (at n) R)
            (λ j less.
              same j (omega arith) ∙ sym (contains-without (at n) (at j) R (differ j less)))
            (omega (arith, length-without (at n) R here)) in
        (k, rw taken found, unreserved, omega arith)
  ]
    where
      differ : (j : ℕ) → suc n ≤ j → at n ≢ at j
      differ j less e = absurd (omega (arith, token_text-injective n j e))
