-- ===== src/Detectors/Labels/Rounds.antt =====
-- The rounds of the scanner of the words behind a label.
use vibe_alfa_gen.Prelude.{
  ℕ, zero, suc, ◌+◌, ◌-◌, ◌≤◌, ◌<◌, ◌≡◌, refl, Bool, true, false, not, ◌&&◌, ◌||◌, List, [], ◌∷◌,
  Option, none, some, ltb, leb, ◌==◌, nat_eq, text_eq, length, get_or, drop, slice, contains, map,
  arith, Bool-cases, Option-cases, inl, inr, length-drop,
}
use vibe_alfa_gen.Text.{Text, Runes}
use vibe_alfa_gen.Text.Unicode.{Unicode}
use vibe_alfa_gen.Text.Utf8.{runes}
use vibe_alfa_gen.Detectors.Digits.{is_ascii_digit}
use vibe_alfa_gen.Detectors.Labels.{
  scan_letters, LabelScanner, count_front, is_blank, starts_with, number_sign, number_at,
  letter_ahead, issuer_number_at, accept_issuer_number, take_word, accept_word, after_word,
  ends_at_gap, scan_words, field_label_word, all_runes, is_cyrillic, is_latin,
}
use vibe_alfa_gen.Detectors.Labels.Lengths.{
  count_front-le, scan_letters-le, scan_letters-ge, word_grows,
}

-- What holds of the scanner in every round.
pub record IsScan (from : ℕ) (input : Text) (s : LabelScanner) : Type 0 where
  pub behind : from ≤ s.pos
  pub inside : s.pos ≤ length input
  pub ended : s.stop ≤ s.pos
  pub spans : (lo : ℕ) → s.start ≡ some lo → (from ≤ lo) × (lo < s.stop)

pub pair-value : {x y : ℕ × ℕ} → some x ≡ some y → x ≡ y
pair-value p = cc p

some-value : {x y : ℕ} → some x ≡ some y → x ≡ y
some-value p = cc p

number_at-le : (input : Text) (pos k : ℕ) → number_at input pos ≡ some k → pos ≤ k
unfolding number_at
number_at-le input pos k h =
    let sign = pos + count_front is_blank (drop pos input) in
    elim (Bool-cases (starts_with (0x2D ∷ []) (drop pos input))) [
      | inl e ↦ let same : pos + 1 ≡ k = some-value (rw (number_at, e) at h) in omega (arith, same)
      | inr e ↦ elim (Bool-cases (not (starts_with number_sign (drop sign input)))) [
        | inl e1 ↦ absurd (cc (rw (number_at, e, e1) at h))
        | inr e1 ↦
            let same : sign + 3 + count_front is_blank (drop (sign + 3) input) ≡ k =
              some-value (rw (number_at, e, e1) at h) in
            omega (arith, same)
      ]
    ]

issuer_number_at-IsScan :
    (from : ℕ) (input : Text) (s : LabelScanner) (k : ℕ)
    → IsScan from input s
    → s.pos ≤ k
    → let t = issuer_number_at input s (some k) in IsScan from input t × (s.pos ≤ t.pos)
issuer_number_at-IsScan from input s k inv h =
    let digits = count_front is_ascii_digit (drop k input) in
    elim (Bool-cases (digits == 0 || ltb 4 digits)) [
      | inl e ↦ rw e (inv, omega arith)
      | inr e ↦ elim (Bool-cases (letter_ahead (drop (k + digits) input))) [
        | inl e1 ↦ rw (e, e1) (inv, omega arith)
        | inr e1 ↦
            let some_digits : 0 < digits = ground arith in
            rw (e, e1)
              (
                record {
                  behind = omega (arith, inv.behind, h);
                  inside = omega (
                    arith,
                    some_digits,
                    count_front-le is_ascii_digit (drop k input),
                    length-drop k input,
                  );
                  ended = omega arith;
                  spans = λ lo found.
                      let (after, before) = inv.spans lo found in
                      (after, omega (arith, before, inv.ended, h));
                },
                omega (arith, h),
              )
      ]
    ]

accept_issuer_number-IsScan :
    (from : ℕ) (input : Text) (s : LabelScanner)
    → IsScan from input s
    → let t = accept_issuer_number input s in IsScan from input t × (s.pos ≤ t.pos)
unfolding accept_issuer_number
accept_issuer_number-IsScan from input s inv = elim (Option-cases (number_at input s.pos)) [
  | inl e ↦ rw (accept_issuer_number, e) (inv, omega arith)
  | inr (k, e) ↦
      rw (accept_issuer_number, e)
        (issuer_number_at-IsScan from input s k inv (number_at-le input s.pos k e))
]

module _ (u : Unicode) where
  take_word-IsScan :
      (from : ℕ) (input : Text) (s : LabelScanner) (start stop : ℕ) (old : Option ℕ)
      → IsScan from input s
      → s.start ≡ old
      → s.pos ≤ start
      → start < stop
      → stop ≤ length input
      → IsScan from input (take_word u s start stop)
  take_word-IsScan from input s start stop none inv e h1 h2 h3 = record {
    behind = omega (arith, inv.behind, h1, h2);
    inside = h3;
    ended = omega arith;
    spans = λ lo found.
        let same : start ≡ lo = some-value (rw e at found) in
        (omega (arith, same, inv.behind, h1), omega (arith, same, h2));
  }
  take_word-IsScan from input s start stop (some old) inv e h1 h2 h3 = record {
    behind = omega (arith, inv.behind, h1, h2);
    inside = h3;
    ended = omega arith;
    spans = λ lo found.
        let same : old ≡ lo = some-value (rw e at found) in
        let (after, before) = inv.spans old e in
        (omega (arith, same, after), omega (arith, same, before, inv.ended, h1, h2));
  }

  scanner-value : {x y : LabelScanner} → some x ≡ some y → x ≡ y
  scanner-value p = cc p

  accept_word-IsScan :
      (from : ℕ) (input : Text) (skip_prefixes : List Runes) (s t : LabelScanner) (start stop : ℕ)
      → IsScan from input s
      → s.pos ≤ start
      → start < stop
      → stop ≤ length input
      → accept_word u input skip_prefixes s start stop ≡ some t
      → IsScan from input t × (t.pos ≡ stop)
  unfolding accept_word
  accept_word-IsScan from input skip_prefixes s t start stop inv h1 h2 h3 got =
      let word = slice input start stop in
      let lower = map u.to_lower (runes word) in
      elim (Bool-cases (ltb 0 s.count && field_label_word lower)) [
        | inl e ↦ absurd (cc (rw (accept_word, e) at got))
        | inr e ↦ elim (Bool-cases (ltb stop (length input) && get_or input stop 0 == 0x3A)) [
          | inl e1 ↦ absurd (cc (rw (accept_word, e, e1) at got))
          | inr e1 ↦ elim (Bool-cases (s.count == 0 && contains skip_prefixes lower)) [
            | inl e2 ↦ rw (← scanner-value (rw (accept_word, e, e1, e2) at got)) (
              record {
                behind = omega (arith, inv.behind, h1, h2);
                inside = h3;
                ended = omega (arith, inv.ended, h1, h2);
                spans = inv.spans;
              },
              refl,
            )
            | inr e2 ↦
                elim (Bool-cases
                  (not (all_runes is_cyrillic word) && not (all_runes is_latin word))) [
                    | inl e3 ↦ absurd (cc (rw (accept_word, e, e1, e2, e3) at got))
                    | inr e3 ↦
                        rw (← scanner-value (rw (accept_word, e, e1, e2, e3) at got))
                          (take_word-IsScan from input s start stop s.start inv refl h1 h2 h3, refl)
                  ]
          ]
        ]
      ]

  after_word-IsScan :
      (from : ℕ) (input : Text) (issuer_numbers : Bool) (s : LabelScanner)
      → IsScan from input s
      → let t = after_word u input issuer_numbers s in IsScan from input t × (s.pos ≤ t.pos)
  after_word-IsScan from input true s inv = accept_issuer_number-IsScan from input s inv
  after_word-IsScan from input false s inv = (inv, omega arith)

  -- Each round that goes on takes a word, so more rounds than bytes that are left are enough.
  pub scan_words-IsScan :
      (fuel from : ℕ) (input : Text) (max_words : ℕ) (skip_prefixes : List Runes)
      (issuer_numbers : Bool) (s : LabelScanner)
      → IsScan from input s
      → length input - s.pos < fuel
      → (t : LabelScanner) × (scan_words u fuel input max_words skip_prefixes issuer_numbers s
          ≡ some t)
        × IsScan from input t
  unfolding scan_words
  scan_words-IsScan zero from input max_words skip_prefixes issuer_numbers s inv h =
      absurd (omega (arith, h))
  scan_words-IsScan (suc fuel) from input max_words skip_prefixes issuer_numbers s inv h =
      let start = scan_letters input s.pos false in
      let stop = scan_letters input start true in
      elim (Bool-cases (not (ltb s.count max_words && ltb s.pos (length input)))) [
        | inl e ↦ (s, rw (scan_words, e) refl, inv)
        | inr e ↦
            elim (Bool-cases
              (leb (length input) start || ends_at_gap s (slice input s.pos start))) [
                | inl e1 ↦ (s, rw (scan_words, e, e1) refl, inv)
                | inr e1 ↦ elim (Option-cases (accept_word u input skip_prefixes s start stop)) [
                  | inl e2 ↦ (s, rw (scan_words, e, e1, e2) refl, inv)
                  | inr (t, e2) ↦
                      let before_end : start < length input = ground arith in
                      let grows = word_grows input s.pos before_end in
                      let from_pos = scan_letters-ge input s.pos false in
                      let (inv1, at_stop) =
                        accept_word-IsScan from input skip_prefixes s t start stop inv from_pos
                          grows (scan_letters-le input start true (omega (arith, before_end))) e2 in
                      let (inv2, later) = after_word-IsScan from input issuer_numbers t inv1 in
                      let (end, done, inv3) =
                        scan_words-IsScan fuel from input max_words skip_prefixes issuer_numbers
                          (after_word u input issuer_numbers t) inv2
                          (omega (
                            arith, h, from_pos, grows, at_stop, later, inv2.inside, inv1.inside,
                          )) in
                      (end, rw (scan_words, e, e1, e2) done, inv3)
                ]
              ]
      ]
