-- ===== src/Detectors/Fields.antt =====
-- internal/pii/detectors/helpers.go: the markers around a candidate.
use vibe_alfa_gen.Prelude.{
  ℕ, zero, suc, ◌+◌, ◌-◌, Bool, false, ◌||◌, List, [], ◌∷◌, Option, none, some, ltb, if◌then◌else◌,
  ◌==◌, nat_eq, take, drop, slice, any_of, max,
}
use vibe_alfa_gen.Text.{Text}
use vibe_alfa_gen.Text.Unicode.{Unicode}
use vibe_alfa_gen.Text.Utf8.{decode_rune, decode_last_rune_rev, runes}
use vibe_alfa_gen.Detectors.Digits.{reversed_onto}

-- A match: its span, and those of its groups.
pub record Match : Type 0 where
  pub start : ℕ
  pub stop : ℕ
  pub groups : List (ℕ × ℕ)

-- A compiled expression: FindAllStringSubmatchIndex with no limit, and MatchString.
pub record Pattern : Type 0 where
  pub find_all : Text → List Match
  pub matches : Text → Bool

abbrev pub context_window : ℕ
context_window = 96

-- The bytes that at most `n` runes take, going back from the end of a text that is given reversed,
-- up to the first rune that stops the walk.
unfoldable pub walk_back : (ℕ → Bool) → ℕ → List ℕ → ℕ
walk_back stop zero back = 0
walk_back stop (suc n) [] = 0
walk_back stop (suc n) (b ∷ back) =
    let (r, size) = decode_last_rune_rev (b ∷ back) in
    let rest = walk_back stop n (drop size (b ∷ back)) in if stop r then 0 else size + rest

unfoldable pub walk_on : ℕ → List ℕ → ℕ
walk_on zero s = 0
walk_on (suc n) [] = 0
walk_on (suc n) (b ∷ s) =
    let (r, size) = decode_rune (b ∷ s) in size + walk_on n (drop size (b ∷ s))

-- The start of the bounded field before `start`.
unfoldable pub field_start : (ℕ → Bool) → Text → ℕ → ℕ
unfolding walk_back
field_start stop input start =
    start - walk_back stop context_window (reversed_onto [] (take start input))

unfoldable pub context_bounds : Text → ℕ → ℕ → ℕ × ℕ
unfolding walk_on field_start
context_bounds input start stop =
    (field_start (λ r. false) input start, stop + walk_on context_window (drop stop input))

unfoldable pub has_context_regex : Text → ℕ → ℕ → List Pattern → Bool
unfolding context_bounds
has_context_regex input start stop markers =
    let (lo, hi) = context_bounds input start stop in
    any_of (λ (m : Pattern). m.matches (slice input lo hi)) markers

abbrev later : Option ℕ → ℕ → Option ℕ
later none e = some e
later (some d) e = some (max d e)

abbrev latest : Option ℕ → List Match → Option ℕ
latest best [] = best
latest best (m ∷ ms) = latest (later best m.stop) ms

-- The loops of lastMarkerEnd: `none` for the -1 of the source.
unfoldable pub last_marker_end_from : Option ℕ → Text → List Pattern → Option ℕ
last_marker_end_from best input [] = best
last_marker_end_from best input (p ∷ ps) =
    last_marker_end_from (latest best (p.find_all input)) input ps

-- The group and the end of a marker, if it ends later than the best so far.
abbrev better : ℕ → Option ℕ → Option (ℕ × ℕ) → Option (ℕ × ℕ)
better group none best = best
better group (some e) none = some (group, e)
better group (some e) (some (g, d)) = if ltb d e then some (group, e) else some (g, d)

unfoldable pub best_group : ℕ → Text → List (List Pattern) → Option (ℕ × ℕ) → Option (ℕ × ℕ)
unfolding last_marker_end_from
best_group group prefix [] best = best
best_group group prefix (markers ∷ groups) best =
    best_group (suc group) prefix groups
      (better group (last_marker_end_from none prefix markers) best)

abbrev ends_field : ℕ → Bool
ends_field r = r == 0x3B || r == 0x0A

-- nearestPrecedingMarkerMatch
unfoldable pub nearest_preceding_marker_match : Text → ℕ → List (List Pattern) → Option (ℕ × ℕ)
unfolding field_start best_group
nearest_preceding_marker_match input start groups =
    let first = field_start ends_field input start in
    elim (best_group 0 (slice input first start) groups none) [
      | none ↦ none
      | some (group, e) ↦ some (group, first + e)
    ]

unfoldable pub nearest_preceding_marker : Text → ℕ → List (List Pattern) → Option ℕ
nearest_preceding_marker input start groups =
    elim (nearest_preceding_marker_match input start groups) [
      | none ↦ none
      | some (group, _) ↦ some group
    ]

unfoldable pub preceding_label : Text → ℕ → Pattern → Bool
unfolding field_start
preceding_label input start p =
    p.matches (slice input (field_start (λ r. ends_field r || r == 0x2C) input start) start)

unfoldable pub contains_letter_or_digit : Unicode → Text → Bool
contains_letter_or_digit u s = any_of (λ r. u.is_letter r || u.is_digit r) (runes s)
