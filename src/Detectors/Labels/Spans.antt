-- ===== src/Detectors/Labels/Spans.antt =====
-- Where the value behind a label lies.
use vibe_alfa_gen.Prelude.{
  ℕ, zero, suc, ◌+◌, ◌-◌, ◌≤◌, ◌<◌, ◌≡◌, refl, ap, Bool, not, ◌&&◌, ◌||◌, List, Option, none, some,
  ltb, leb, ◌==◌, nat_eq, text_eq, length, get_or, drop, arith, Bool-cases, inl, inr, length-drop,
  length-take,
}
use vibe_alfa_gen.Text.{Text, Runes}
use vibe_alfa_gen.Text.Unicode.{Unicode}
use vibe_alfa_gen.Text.Utf8.{rune_start}
use vibe_alfa_gen.Detectors.Labels.{
  back_to_rune, bounded_label_input, LabelScanner, label_value_start, scan_words, found_value,
  first_scanner, collect_label_value,
}
use vibe_alfa_gen.Detectors.Labels.Lengths.{span_length-le}
use vibe_alfa_gen.Detectors.Labels.Rounds.{IsScan, scan_words-IsScan, pair-value}

back_to_rune_between :
    (input : Text) (start n : ℕ)
    → (start ≤ back_to_rune input start n) × (back_to_rune input start n ≤ start + n)
unfolding back_to_rune
back_to_rune_between input start zero = (omega arith, omega arith)
back_to_rune_between input start (suc n) =
    let (after, before) = back_to_rune_between input start n in
    elim (Bool-cases (rune_start (get_or input (start + suc n) 0))) [
      | inl e ↦ rw e (omega arith, omega arith)
      | inr e ↦ rw e (after, omega (arith, before))
    ]

-- The input that is looked at ends in the input, 512 bytes behind the label at most, and not before it.
record IsBounded (input : Text) (start : ℕ) (bounded : Text) : Type 0 where
  holds_start : start ≤ length bounded
  inside : length bounded ≤ length input
  near : length bounded ≤ start + 512

bounded_label_input-IsBounded :
    (input : Text) (start : ℕ)
    → start ≤ length input
    → IsBounded input start (bounded_label_input input start)
unfolding bounded_label_input
bounded_label_input-IsBounded input start h = elim (Bool-cases (leb (length input - start) 512)) [
  | inl e ↦
      rw (bounded_label_input, e)
        (record { holds_start = h; inside = omega arith; near = ground (arith, h) })
  | inr e ↦
      let (after, before) = back_to_rune_between input start 512 in
      let cut = length-take (back_to_rune input start 512) input in
      rw (bounded_label_input, e)
        (record {
          holds_start = omega (arith, after, cut, h);
          inside = omega (arith, cut);
          near = omega (arith, before, cut);
        })
]

module _ (u : Unicode) where
  first_scanner-IsScan :
      (input : Text) (start : ℕ)
      → start ≤ length input
      → IsScan start input (first_scanner u input start)
  unfolding label_value_start
  first_scanner-IsScan input start h = record {
    behind = omega arith;
    inside = omega (
      arith,
      h,
      length-drop start input,
      span_length-le
          (λ r. not (r == 0x3B || r == 0x0A) && (u.is_space r || (r == 0x3A || r == 0x2D))) 0
          (drop start input),
    );
    ended = omega arith;
    spans = λ lo none_there. absurd (cc none_there);
  }

  found_value-spans :
      (from lo hi : ℕ) (input : Text) (s : LabelScanner) (start : Option ℕ)
      → IsScan from input s
      → s.start ≡ start
      → found_value u (some s) ≡ some (lo, hi)
      → (from ≤ lo) × ((lo < hi) × (hi ≤ length input))
  found_value-spans from lo hi input s none inv e h = absurd (cc (rw e at h))
  found_value-spans from lo hi input s (some first) inv e h = elim (Bool-cases (ltb 0 s.count)) [
    | inr e1 ↦ absurd (cc (rw (e, e1) at h))
    | inl e1 ↦
        let same : (first, s.stop) ≡ (lo, hi) = pair-value (rw (e, e1) at h) in
        let is_lo : first ≡ lo = ap (λ p. p.0) same in
        let is_hi : s.stop ≡ hi = ap (λ p. p.1) same in
        let (after, before) = inv.spans first e in
        (
          omega (arith, after, is_lo),
          (omega (arith, before, is_lo, is_hi), omega (arith, inv.ended, inv.inside, is_hi)),
        )
  ]

  -- The loop over the words behind a label that ends in the input ends, and a value that is found is not
  -- empty and lies behind the label, in the input, within 512 bytes.
  pub collect_label_value_bounds :
      (input : Text) (start max_words : ℕ) (skip_prefixes : List Runes) (issuer_numbers : Bool)
      → start ≤ length input
      → let bounded = bounded_label_input input start in
        (t : LabelScanner) × (scan_words u
            (suc (length bounded))
            bounded
            max_words
            skip_prefixes
            issuer_numbers
            (first_scanner u bounded start)
          ≡ some t)
        × ((lo hi : ℕ)
            → collect_label_value u input start max_words skip_prefixes issuer_numbers
              ≡ some (lo, hi)
            → (start ≤ lo) × ((lo < hi) × ((hi ≤ length input) × (hi ≤ start + 512))))
  unfolding collect_label_value
  collect_label_value_bounds input start max_words skip_prefixes issuer_numbers h =
      let bounded = bounded_label_input input start in
      let within = bounded_label_input-IsBounded input start h in
      let (t, done, inv) =
        scan_words-IsScan u (suc (length bounded)) start bounded max_words skip_prefixes
          issuer_numbers (first_scanner u bounded start)
          (first_scanner-IsScan bounded start within.holds_start) (omega arith) in
      (
        t,
        done,
        λ lo hi found.
            let (after, (grows, ends)) =
              found_value-spans start lo hi bounded t t.start inv refl
                (rw (collect_label_value, done) at found) in
            (
              after,
              (grows, (omega (arith, ends, within.inside), omega (arith, ends, within.near))),
            ),
      )
