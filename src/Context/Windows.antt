-- ===== src/Context/Windows.antt =====
-- internal/pii/context.go: the window of a finding, within its record and sentence.
use vibe_alfa_gen.Prelude.{
  ℕ, zero, suc, ◌+◌, ◌-◌, Bool, true, false, not, ◌&&◌, ◌||◌, List, [], ◌∷◌, Option, none, some,
  map, ltb, leb, if◌then◌else◌, ◌==◌, nat_eq, string_eq, text_eq, length, take, drop, slice, get_or,
  contains,
}
use mathlib.Core.List.{reverse}
use vibe_alfa_gen.Domain.{Finding}
use vibe_alfa_gen.Text.{Text, Runes, codes}
use vibe_alfa_gen.Text.Unicode.{Unicode}
use vibe_alfa_gen.Text.Utf8.{decode_rune, decode_last_rune_rev, rune_start, runes}
use vibe_alfa_gen.Context.Records.{
  TextRecord, context_window_bytes, is_break, index_any, last_index_any,
}

-- sort.Search with a test that stays true once it is true: what is left from the first success on.
unfoldable pub search {ℓ} : {A : Type ℓ} → (A → Bool) → List A → List A
search test [] = []
search test (x ∷ xs) = let rest = search test xs in if test x then x ∷ xs else rest

-- The loop of recordWindow that moves `lo` up to the start of a rune, in `rounds` rounds at most.
unfoldable pub rune_up : Text → ℕ → ℕ → ℕ
unfolding rune_start
rune_up text zero lo = lo
rune_up text (suc rounds) lo =
    let up = rune_up text rounds (suc lo) in if rune_start (get_or text lo 0) then lo else up

-- The loop that moves `hi` down to the start of a rune; the end of the text is one.
unfoldable pub rune_down : Text → ℕ → ℕ → ℕ
unfolding rune_start
rune_down text zero hi = hi
rune_down text (suc rounds) hi =
    let down = rune_down text rounds (hi - 1) in
    if leb (length text) hi || rune_start (get_or text hi 0) then hi else down

-- The record of the finding, if there is one that begins no later than it, or else its own span.
unfoldable pub window_of : Finding → List TextRecord → ℕ × ℕ
window_of f [] = (f.start, f.stop)
window_of f (r ∷ _) = if leb r.start f.start then (r.start, r.stop) else (f.start, f.stop)

unfoldable pub trim_window : Text → Finding → ℕ × ℕ → ℕ × ℕ
unfolding rune_up rune_down
trim_window text f (lo, hi) = (
  if ltb context_window_bytes (f.start - lo)
      then rune_up text context_window_bytes (f.start - context_window_bytes)
      else lo,
  if ltb context_window_bytes (hi - f.stop)
      then rune_down text context_window_bytes (f.stop + context_window_bytes)
      else hi,
)

unfoldable pub record_window : Text → Finding → List TextRecord → ℕ × ℕ
record_window text f records =
    trim_window text f (window_of f (search (λ r. leb f.stop r.stop) records))

abbrev pub abbreviations : List Runes
abbreviations =
    codes "г"
    ∷ codes "гор"
    ∷ codes "ул"
    ∷ codes "д"
    ∷ codes "кв"
    ∷ codes "стр"
    ∷ codes "пер"
    ∷ codes "пр"
    ∷ codes "наб"
    ∷ []

abbrev is_field_end : Text → Bool
is_field_end [] = false
is_field_end (c ∷ s) = c == 0x2C || (c == 0x3B || is_break (c ∷ s))

abbrev shift : ℕ → Option ℕ → Text → ℕ → ℕ
shift lo none text start = lo
shift lo (some j) text start = lo + j + (decode_rune (drop (lo + j) text)).1

module _ (u : Unicode) where
  open u use {is_letter, is_space, to_lower}

  -- The letters that end at `start`, five at most: where they begin.
  unfoldable pub word_start : Text → ℕ → ℕ → ℕ
  unfolding decode_last_rune_rev
  word_start text zero start = start
  word_start text (suc n) start =
      let (r, size) = decode_last_rune_rev (reverse (take start text)) in
      let more = word_start text n (start - size) in
      if ltb 0 start && is_letter r then more else start

  unfoldable pub full_stop : Text → ℕ → Bool
  unfolding word_start runes decode_rune
  full_stop text i =
      if ltb (suc i) (length text) && not (is_space (decode_rune (drop (suc i) text)).0)
      then false
      else not (contains abbreviations (map to_lower (runes (slice text (word_start text 5 i) i))))

  unfoldable pub sentence_boundary : Text → ℕ → Bool
  unfolding full_stop
  sentence_boundary text i =
      let c = get_or text i 0 in
      if c == 0x21 || (c == 0x3F || (c == 0x7C || (c == 0x7B || c == 0x7D)))
      then true
      else if c == 0x2E
      then full_stop text i
      else false

  -- The two loops of contextWindow, over `lo + rounds - 1` down to `lo` and over `j` up to `hi`.
  unfoldable pub sentence_start : Text → ℕ → ℕ → ℕ
  sentence_start text lo zero = lo
  sentence_start text lo (suc rounds) =
      let before = sentence_start text lo rounds in
      if sentence_boundary text (lo + rounds) then suc (lo + rounds) else before

  unfoldable pub sentence_end : Text → ℕ → ℕ → ℕ → ℕ
  sentence_end text hi zero j = hi
  sentence_end text hi (suc rounds) j =
      let later = sentence_end text hi rounds (suc j) in
      if sentence_boundary text j then j else later

  unfoldable pub context_window : Text → Finding → List TextRecord → ℕ × ℕ
  unfolding sentence_start sentence_end
  context_window text f records =
      let (lo, hi) = record_window text f records in
      (sentence_start text lo (f.start - lo), sentence_end text hi (hi - f.stop) f.stop)

  unfoldable pub narrow : Text → Finding → ℕ × ℕ → ℕ × ℕ
  unfolding index_any last_index_any is_break decode_rune
  narrow text f (lo, hi) = (
    shift lo (last_index_any is_field_end (slice text lo f.start)) text f.start,
    f.stop + index_any is_field_end (slice text f.stop hi),
  )

  -- localWindow: the field of the finding within its window.
  unfoldable pub local_window : Text → Finding → List TextRecord → ℕ × ℕ
  local_window text f records = narrow text f (context_window text f records)
