-- ===== src/Context/Records.antt =====
-- internal/pii/context.go: the records of a text, runs of lines that belong together.
use vibe_alfa_gen.Prelude.{
  ℕ, zero, suc, ◌+◌, ◌-◌, Bool, false, not, ◌&&◌, ◌||◌, List, [], ◌∷◌, Option, none, some, ltb, leb,
  if◌then◌else◌, ◌==◌, nat_eq, string_eq, text_eq, length, take, drop, slice, get_or,
}
use vibe_alfa_gen.Text.{Text}
use vibe_alfa_gen.Text.Utf8.{decode_rune}

abbrev pub context_window_bytes : ℕ
context_window_bytes = 512

abbrev pub max_structured_record_bytes : ℕ
max_structured_record_bytes = 2048

abbrev pub max_structured_record_lines : ℕ
max_structured_record_lines = 8

-- The compiled expressions personHeader, fieldHeader and negativeContext, as tests on a text.
pub record Patterns : Type 0 where
  pub person_header : Text → Bool
  pub field_header : Text → Bool
  pub negative_context : Text → Bool

pub record TextRecord : Type 0 where
  pub start : ℕ
  pub stop : ℕ

-- U+2028 and U+2029 are the bytes E2 80 A8 and E2 80 A9.
unfoldable pub is_separator : Text → Bool
is_separator (a ∷ b ∷ c ∷ _) = a == 0xE2 && (b == 0x80 && (c == 0xA8 || c == 0xA9))
is_separator _ = false

unfoldable pub is_break : Text → Bool
unfolding is_separator
is_break [] = false
is_break (c ∷ s) = c == 0x0A || (c == 0x0D || is_separator (c ∷ s))

-- strings.IndexAny of a set of runes: the bytes before the first, or all.
unfoldable pub index_any : (Text → Bool) → Text → ℕ
index_any p [] = 0
index_any p (c ∷ s) = let n = index_any p s in if p (c ∷ s) then 0 else suc n

-- strings.LastIndexAny
unfoldable pub last_index_any : (Text → Bool) → Text → Option ℕ
last_index_any p [] = none
last_index_any p (c ∷ s) = elim (last_index_any p s) [
  | some i ↦ some (suc i)
  | none ↦ if p (c ∷ s) then some 0 else none
]

-- The start of the line after the break at `stop`: "\r\n" is one break.
unfoldable pub next_line : Text → ℕ → ℕ
unfolding decode_rune
next_line text stop =
    if ltb stop (length text)
    then (let after = stop + (decode_rune (drop stop text)).1 in
        if get_or text stop 0 == 0x0D && (ltb after (length text) && get_or text after 0 == 0x0A)
        then suc after
        else after)
    else stop

module _ (p : Patterns) where
  open p use {person_header, field_header}

  -- Whether the line joins the last record, which begins at `start`.
  unfoldable pub joins : Bool → ℕ → ℕ → ℕ → Text → Bool
  joins active lines start stop prefix =
      active
      && (not (person_header prefix)
          && (field_header prefix
              && (ltb lines max_structured_record_lines
                  && leb (stop - start) max_structured_record_bytes)))

  -- The loop of logicalRecords from the line at `pos`, with the last record of `out` still open.
  unfoldable pub records_from : ℕ → Text → ℕ → TextRecord → Bool → ℕ → List TextRecord
  unfolding index_any next_line joins
  records_from zero text pos last active lines = last ∷ []
  records_from (suc fuel) text pos last active lines =
      let stop = pos + index_any is_break (drop pos text) in
      let prefix = take context_window_bytes (slice text pos stop) in
      let joined =
        records_from fuel text (next_line text stop) (record last { stop = stop }) active
          (suc lines) in
      let opened =
        last
        ∷ records_from fuel text (next_line text stop) (record { start = pos; stop = stop })
            (person_header prefix) 1 in
      if not (ltb pos (length text))
      then last ∷ []
      else if joins active lines last.start stop prefix
      then joined
      else opened

  -- Every line is longer than nothing, so the length of the text is fuel enough.
  unfoldable pub logical_records : Text → List TextRecord
  logical_records text =
      let stop = index_any is_break text in
      let prefix = take context_window_bytes (take stop text) in
      if length text == 0
      then []
      else records_from (length text) text (next_line text stop) (record { start = 0; stop = stop })
          (person_header prefix) 1
