-- ===== src/Detectors/Numbers/Cards.antt =====
-- What the card detector accepts.
use vibe_alfa_gen.Prelude.{
  ℕ, ◌≤◌, ◌≡◌, refl, sym, ap, ◌∙◌, ◌↔◌, ◌⊎◌, inl, inr, Bool, true, false, not, ◌||◌, ◌&&◌, List, [],
  ◌∷◌, Option, none, some, IsIn, here, there, length, keep, count_of, slice, contains, arith,
  Bool-cases, Option-cases, if◌then◌else◌, ltb, nat_eq, ◌==◌,
}
use vibe_alfa_gen.Domain.{Finding, type_card_number, confidence_high}
use vibe_alfa_gen.Text.{Text}
use vibe_alfa_gen.Detectors.Digits.{
  is_ascii_digit, normalize_digits, separators_from, consistent_separators,
  part_of_longer_digit_sequence, luhn,
}
use vibe_alfa_gen.Detectors.Fields.{Match, has_context_regex, preceding_label}
use vibe_alfa_gen.Detectors.Numbers.{
  CardNumberDetector, accept, finding_of, card_number_match, detect_card_number,
}

first_or : {x y : Finding} {ys : List Finding} → IsIn x (y ∷ ys) → (x ≡ y) ⊎ IsIn x ys
first_or here = inl refl
first_or (there i) = inr i

-- What the loop of a Detect gives comes of one of the matches.
accept-from :
    (f : Match → Option Finding) (ms : List Match) (x : Finding)
    → IsIn x (accept f ms)
    → (m : Match) × IsIn m ms × (f m ≡ some x)
accept-from f [] x i = elim i [ ]
accept-from f (m ∷ ms) x i = elim (Option-cases (f m)) [
  | inl e ↦
      let (n, in_rest, made) = accept-from f ms x (rw (accept, e) at i) in (n, there in_rest, made)
  | inr (y, e) ↦ elim (first_or (rw (accept, e) at i)) [
    | inl same ↦ (m, here, e ∙ ap some (sym same))
    | inr later ↦ let (n, in_rest, made) = accept-from f ms x later in (n, there in_rest, made)
  ]
]

-- Every match that gives a finding is accepted.
accept-finds :
    (f : Match → Option Finding) (ms : List Match) (m : Match) (x : Finding)
    → IsIn m ms
    → f m ≡ some x
    → IsIn x (accept f ms)
accept-finds f [] m x i e = elim i [ ]
accept-finds f (_ ∷ ms) m x here e = rw (accept, e) here
accept-finds f (n ∷ ms) m x (there i) e =
    let later = accept-finds f ms m x i e in
    elim (Option-cases (f n)) [
      | inl e1 ↦ rw (accept, e1) later
      | inr (y, e1) ↦ rw (accept, e1) (there later)
    ]

-- A text does not have both separators.
abbrev has_both : Text → Bool
has_both s = contains s 0x20 && contains s 0x2D

second : (a : Bool) → not a ≡ not (a && true)
second true = refl
second false = refl

separators_from-space : (s : Text) → separators_from (some 0x20) s ≡ not (contains s 0x2D)
unfolding separators_from contains
separators_from-space [] = refl
separators_from-space (b ∷ s) = ground (arith, separators_from-space s)

separators_from-hyphen : (s : Text) → separators_from (some 0x2D) s ≡ not (contains s 0x20)
unfolding separators_from contains
separators_from-hyphen [] = refl
separators_from-hyphen (b ∷ s) = ground (arith, separators_from-hyphen s)

consistent_separators-has_both : (s : Text) → consistent_separators s ≡ not (has_both s)
unfolding consistent_separators contains
consistent_separators-has_both [] = refl
consistent_separators-has_both (b ∷ s) =
    let rest : separators_from none s ≡ not (has_both s) = consistent_separators-has_both s in
    elim (Bool-cases (b == 0x20)) [
      | inl e ↦
          let same : b ≡ 0x20 = ground arith in
          let other_one : (b == 0x2D) ≡ false = ground arith in rw (same) (separators_from-space s)
      | inr e ↦ elim (Bool-cases (b == 0x2D)) [
        | inl e1 ↦
            let same : b ≡ 0x2D = ground arith in
            rw (same) (separators_from-hyphen s ∙ second (contains s 0x20))
        | inr e1 ↦ rw (e, e1) rest
      ]
    ]

length-keep : (p : ℕ → Bool) (s : Text) → length (keep p s) ≡ count_of p s
length-keep p [] = refl
length-keep p (b ∷ s) = ground (arith, length-keep p s)

-- A match that is a card number: 13 to 19 digits, without both a space and a hyphen, that are no part of a
-- longer number, pass the Luhn test or stand near a word for cards, and without such a word do not
-- follow a label of other numbers.
pub record IsCardAt (d : CardNumberDetector) (input : Text) (m : Match) : Type 0 where
  pub long : 13 ≤ count_of is_ascii_digit (slice input m.start m.stop)
  pub short : count_of is_ascii_digit (slice input m.start m.stop) ≤ 19
  pub grouped : has_both (slice input m.start m.stop) ≡ false
  pub whole : part_of_longer_digit_sequence input m.start m.stop ≡ false
  pub checked :
      (has_context_regex input m.start m.stop d.markers ≡ true)
      ⊎ ((luhn (normalize_digits (slice input m.start m.stop)) ≡ true)
          × (preceding_label input m.start d.non_card_context ≡ false))

abbrev pub found_card : Text → Match → Finding
found_card input m = finding_of type_card_number "card_number" input m.start m.stop confidence_high

-- A chain of five tests that all fail.
all_passed :
    (b c d e g : Bool) (y x : Finding)
    → ◌≡◌ {A = Option Finding}
        (if b
          then none
          else if c
          then none
          else if d
          then none
          else if e
          then none
          else if g
          then none
          else some y)
        (some x)
    → (b ≡ false) × (c ≡ false) × (d ≡ false) × (e ≡ false) × (g ≡ false) × (y ≡ x)
all_passed true c d e g y x h = absurd (cc h)
all_passed false true d e g y x h = absurd (cc h)
all_passed false false true e g y x h = absurd (cc h)
all_passed false false false true g y x h = absurd (cc h)
all_passed false false false false true y x h = absurd (cc h)
all_passed false false false false false y x h = (refl, refl, refl, refl, refl, cc h)

-- The two tests that look at the words near a number.
near_or_valid :
    (near after valid : Bool)
    → (not near && after) ≡ false
    → (not valid && not near) ≡ false
    → (near ≡ true) ⊎ ((valid ≡ true) × (after ≡ false))
near_or_valid true after valid h g = inl refl
near_or_valid false after valid h g = inr (ground arith, h)

tests_fail :
    (near after valid : Bool)
    → (near ≡ true) ⊎ ((valid ≡ true) × (after ≡ false))
    → ((not near && after) ≡ false) × ((not valid && not near) ≡ false)
tests_fail near after valid (inl e) = (ground arith, ground arith)
tests_fail near after valid (inr (v, a)) = (ground arith, ground arith)

not_both : (a b : Bool) → a ≡ not b → not a ≡ false → b ≡ false
not_both a b e h = ground arith

card_number_match-IsCardAt :
    (d : CardNumberDetector) (input : Text) (m : Match) (x : Finding)
    → card_number_match d input m ≡ some x
    → IsCardAt d input m × (x ≡ found_card input m)
unfolding card_number_match normalize_digits
card_number_match-IsCardAt d input m x h =
    let candidate = slice input m.start m.stop in
    let digits = normalize_digits candidate in
    let has_ctx = has_context_regex input m.start m.stop d.markers in
    let after = preceding_label input m.start d.non_card_context in
    let (len, sep, part, label, sum, made) =
      all_passed (ltb (length digits) 13 || ltb 19 (length digits))
        (not (consistent_separators candidate)) (part_of_longer_digit_sequence input m.start m.stop)
        (not has_ctx && after) (not (luhn digits) && not has_ctx) (found_card input m) x h in
    let counted = length-keep is_ascii_digit candidate in
    (
      record {
        long = ground (arith, counted, len);
        short = ground (arith, counted, len);
        grouped =
            not_both (consistent_separators candidate) (has_both candidate)
              (consistent_separators-has_both candidate) sep;
        whole = part;
        checked = near_or_valid has_ctx after (luhn digits) label sum;
      },
      sym made,
    )

IsCardAt-card_number_match :
    (d : CardNumberDetector) (input : Text) (m : Match)
    → IsCardAt d input m
    → card_number_match d input m ≡ some (found_card input m)
unfolding card_number_match normalize_digits
IsCardAt-card_number_match d input m c =
    let candidate = slice input m.start m.stop in
    let digits = normalize_digits candidate in
    let has_ctx = has_context_regex input m.start m.stop d.markers in
    let after = preceding_label input m.start d.non_card_context in
    let (label, sum) = tests_fail has_ctx after (luhn digits) c.checked in
    let counted = length-keep is_ascii_digit candidate in
    let len : (ltb (length digits) 13 || ltb 19 (length digits)) ≡ false =
      ground (arith, counted, c.long, c.short) in
    let sep : consistent_separators candidate ≡ true =
      consistent_separators-has_both candidate ∙ ap not c.grouped in
    rw (card_number_match, len, sep, c.whole, label, sum) refl

-- The card detector reports exactly the matches of its expression with 13 to 19 digits and without both a
-- space and a hyphen, that are no part of a longer number, and that stand near a word for cards or
-- else pass the Luhn test and do not follow a label of other numbers; each with the type, the span and
-- the text of the match, and a high confidence.
pub detect_card_number-IsCardAt :
    (d : CardNumberDetector) (input : Text) (x : Finding)
    → IsIn x (detect_card_number d input) ↔ (
        (m : Match) × IsIn m (d.re.find_all input)
        × (IsCardAt d input m × (x ≡ found_card input m)))
unfolding detect_card_number
detect_card_number-IsCardAt d input x = (
  λ i.
      let (m, matched, made) = accept-from (card_number_match d input) (d.re.find_all input) x i in
      (m, matched, card_number_match-IsCardAt d input m x made),
  λ (m, matched, (c, same)).
      accept-finds (card_number_match d input) (d.re.find_all input) m x matched
        (IsCardAt-card_number_match d input m c ∙ ap some (sym same)),
)
