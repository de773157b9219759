-- ===== src/Detectors/Labels/Lengths.antt =====
-- How far the scans of the words behind a label go.
use vibe_alfa_gen.Prelude.{
  ℕ, zero, suc, ◌+◌, ◌-◌, ◌≤◌, ◌<◌, ◌≡◌, refl, sym, ap, ◌∙◌, Bool, true, false, not, [], ◌∷◌,
  nat_eq, text_eq, length, drop, arith, Bool-cases, inl, inr, length-drop,
}
use vibe_alfa_gen.Text.{Text}
use vibe_alfa_gen.Text.Utf8.{decode_rune}
use vibe_alfa_gen.Detectors.Labels.{is_letter, same_bool, span_length, scan_letters, count_front}

pub span_length-le : (p : ℕ → Bool) (skip : ℕ) (s : Text) → span_length p skip s ≤ length s
unfolding span_length
span_length-le p skip [] = omega arith
span_length-le p (suc skip) (b ∷ s) = omega (arith, span_length-le p skip s)
span_length-le p zero (b ∷ s) =
    let rest = span_length-le p ((decode_rune (b ∷ s)).1 - 1) s in
    elim (Bool-cases (p (decode_rune (b ∷ s)).0)) [
      | inl e ↦ rw e (omega (arith, rest))
      | inr e ↦ rw e (omega arith)
    ]

-- The rune behind the leading ones does not pass.
span_length-stop :
    (p : ℕ → Bool) (skip : ℕ) (s : Text)
    → span_length p skip s < length s
    → p (decode_rune (drop (span_length p skip s) s)).0 ≡ false
unfolding span_length
span_length-stop p skip [] h = absurd (omega (arith, h))
span_length-stop p (suc skip) (b ∷ s) h = span_length-stop p skip s (omega (arith, h))
span_length-stop p zero (b ∷ s) h = elim (Bool-cases (p (decode_rune (b ∷ s)).0)) [
  | inl e ↦
      let inner = span_length-stop p ((decode_rune (b ∷ s)).1 - 1) s (omega (arith, rw e at h)) in
      rw e inner
  | inr e ↦ rw e e
]

-- A first rune that passes is a byte at least.
span_length-some :
    (p : ℕ → Bool) (s : Text) → 0 < length s → p (decode_rune s).0 ≡ true → 0 < span_length p 0 s
unfolding span_length
span_length-some p [] h k = absurd (omega (arith, h))
span_length-some p (b ∷ s) h k = rw k (omega arith)

pub count_front-le : (p : ℕ → Bool) (s : Text) → count_front p s ≤ length s
unfolding count_front
count_front-le p [] = omega arith
count_front-le p (b ∷ s) = ground (arith, count_front-le p s)

pub scan_letters-le :
    (input : Text) (pos : ℕ) (letters : Bool)
    → pos ≤ length input
    → scan_letters input pos letters ≤ length input
unfolding scan_letters
scan_letters-le input pos letters h = omega (
  arith,
  length-drop pos input,
  span_length-le (λ r. same_bool letters (is_letter r)) 0 (drop pos input),
)

pub scan_letters-ge :
    (input : Text) (pos : ℕ) (letters : Bool) → pos ≤ scan_letters input pos letters
unfolding scan_letters
scan_letters-ge input pos letters = omega arith

drop-nil : (n : ℕ) → ◌≡◌ {A = Text} (drop n []) []
drop-nil zero = refl
drop-nil (suc n) = refl

drop-drop : (m n : ℕ) (s : Text) → drop m (drop n s) ≡ drop (n + m) s
drop-drop m zero s = let e : m ≡ 0 + m = omega arith in ap (λ k. drop k s) e
drop-drop m (suc n) [] = drop-nil m ∙ sym (drop-nil (suc n + m))
drop-drop m (suc n) (b ∷ s) =
    let e : suc (n + m) ≡ suc n + m = omega arith in drop-drop m n s ∙ ap (λ k. drop k (b ∷ s)) e

not-false : (b : Bool) → not b ≡ false → b ≡ true
not-false true h = refl
not-false false h = absurd (cc h)

-- A word begins with a letter, so it is not empty.
pub word_grows :
    (input : Text) (pos : ℕ)
    → scan_letters input pos false < length input
    → scan_letters input pos false < scan_letters input (scan_letters input pos false) true
unfolding scan_letters
word_grows input pos h =
    let gap = span_length (λ r. same_bool false (is_letter r)) 0 (drop pos input) in
    let short : gap < length (drop pos input) = omega (arith, h, length-drop pos input) in
    let stopped = span_length-stop (λ r. same_bool false (is_letter r)) 0 (drop pos input) short in
    let at_letter : is_letter (decode_rune (drop (pos + gap) input)).0 ≡ true =
      not-false (is_letter (decode_rune (drop (pos + gap) input)).0) (
        ap (λ t. same_bool false (is_letter (decode_rune t).0)) (sym (drop-drop gap pos input))
        ∙ stopped) in
    let grows =
      span_length-some (λ r. same_bool true (is_letter r)) (drop (pos + gap) input)
        (omega (arith, h, length-drop (pos + gap) input)) at_letter in
    omega (arith, grows)
