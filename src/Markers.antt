-- ===== src/Markers.antt =====
-- internal/pii/engine: markers in a text. `markerPattern` (processor.go) is the expression
-- `<([A-Z0-9_]+)_([a-f0-9]{32})_([0-9]+)>`; hideMarkerSpans, restoreTokens and tokenBoundary are in
-- tokens.go.
pub mod Spans
pub mod Matches
pub mod Found
pub mod Named
use vibe_alfa_gen.Prelude.{
  ℕ, zero, suc, ◌+◌, ◌-◌, Bool, true, false, not, ◌&&◌, ◌||◌, List, [], ◌∷◌, ◌++◌, Option, none,
  some, ltb, leb, if◌then◌else◌, ◌==◌, nat_eq, text_eq, length, take, drop, replicate, slice,
  all_of, lookup, map,
}
use mathlib.Core.List.{reverse}
use vibe_alfa_gen.Text.{Text}
use vibe_alfa_gen.Text.Unicode.{Unicode}
use vibe_alfa_gen.Text.Utf8.{decode_rune, decode_last_rune_rev, rune_start}

abbrev pub is_decimal : ℕ → Bool
is_decimal c = leb 0x30 c && leb c 0x39

abbrev pub is_hex : ℕ → Bool
is_hex c = is_decimal c || (leb 0x61 c && leb c 0x66)

abbrev pub is_type_char : ℕ → Bool
is_type_char c = c == 0x5F || (is_decimal c || (leb 0x41 c && leb c 0x5A))

abbrev pub is_under : Text → Bool
is_under [] = false
is_under (c ∷ _) = c == 0x5F

-- The number of leading bytes that pass the test.
unfoldable pub prefix_length : (ℕ → Bool) → Text → ℕ
prefix_length p [] = 0
prefix_length p (c ∷ s) = let n = prefix_length p s in if p c then suc n else 0

-- Whether the reversed body of a marker has the three groups. No class of the expression has '>',
-- the last group no '_' and the second neither '_', so there is one way to split a body.
unfoldable pub is_body_rev : Text → Bool
unfolding prefix_length
is_body_rev body =
    let digits = prefix_length is_decimal body in
    let rest = drop digits body in
    let tag = take 32 (drop 1 rest) in
    let before = drop 33 rest in
    ltb 0 digits
    && (is_under rest
        && (length tag == 32
            && (all_of is_hex tag
                && (is_under before
                    && (ltb 1 (length before) && all_of is_type_char (drop 1 before))))))

abbrev pub not_close : ℕ → Bool
not_close c = not (c == 0x3E)

-- The length of the marker that the text begins with, or 0.
unfoldable pub marker_length : Text → ℕ
marker_length [] = 0
marker_length (c ∷ s) =
    let n = prefix_length not_close s in
    if c == 0x3C && (ltb n (length s) && is_body_rev (reverse (take n s))) then n + 2 else 0

-- FindAllStringIndex(text, -1): the markers from left to right, past each other. `skip` bytes of the
-- last marker are left.
unfoldable pub markers_from : ℕ → ℕ → Text → List (ℕ × ℕ)
markers_from pos skip [] = []
markers_from pos (suc skip) (c ∷ s) = markers_from (suc pos) skip s
markers_from pos zero (c ∷ s) =
    let n = marker_length (c ∷ s) in
    let rest = markers_from (suc pos) (n - 1) s in if n == 0 then rest else (pos, pos + n) ∷ rest

unfoldable pub find_markers : Text → List (ℕ × ℕ)
find_markers text = markers_from 0 0 text

-- The spans of a text, blanked.
unfoldable pub hide_from : ℕ → List (ℕ × ℕ) → Text → Text
hide_from pos spans [] = []
hide_from pos [] (c ∷ s) = c ∷ s
hide_from pos ((lo, hi) ∷ spans) (c ∷ s) =
    (if leb lo pos && ltb pos hi then 0x20 else c)
    ∷ hide_from (suc pos) (if leb hi (suc pos) then spans else (lo, hi) ∷ spans) s

unfoldable pub hide_marker_spans : Text → List (ℕ × ℕ) → Text
hide_marker_spans text spans = hide_from 0 spans text

unfoldable pub hide_markers : Text → Text
hide_markers text = hide_marker_spans text (find_markers text)

module _ (u : Unicode) where
  open u use {is_letter, is_digit, is_mark}

  abbrev joins : ℕ → Bool
  joins r = r == 0x3C || (r == 0x3E || (r == 0x5F || (is_letter r || (is_digit r || is_mark r))))

  -- tokenBoundary at a byte of the text: `back` holds the bytes up to and with it, reversed.
  unfoldable pub boundary_at : Text → Text → Bool
  unfolding rune_start decode_rune decode_last_rune_rev
  boundary_at back [] = true
  boundary_at back (c ∷ s) = not (
      joins (if not (rune_start c) then (decode_last_rune_rev back).0 else (decode_rune (c ∷ s)).0))

  -- `none` is an index before the text or behind it.
  unfoldable pub token_boundary : Text → Option ℕ → Bool
  unfolding boundary_at
  token_boundary text none = true
  token_boundary text (some i) = boundary_at (reverse (take (suc i) text)) (drop i text)

  abbrev before : ℕ → Option ℕ
  before zero = none
  before (suc i) = some i

  -- The loop of restoreTokens: the text from `cursor` on, with the saved markers replaced.
  unfoldable pub restore_from : Text → List (Text × Text) → ℕ → List (ℕ × ℕ) → Text
  unfolding token_boundary
  restore_from text mapping cursor [] = drop cursor text
  restore_from text mapping cursor ((lo, hi) ∷ spans) =
      let kept = restore_from text mapping cursor spans in
      let after = restore_from text mapping hi spans in
      elim (lookup (slice text lo hi) mapping) [
        | none ↦ kept
        | some value ↦
            if token_boundary text (before lo) && token_boundary text (some hi)
            then slice text cursor lo ++ value ++ after
            else kept
      ]

  unfoldable pub restore_tokens : Text → List (Text × Text) → Text
  restore_tokens text mapping = restore_from text mapping 0 (find_markers text)
