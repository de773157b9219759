-- ===== src/Text/Utf8.antt =====
-- `unicode/utf8`: decoding with its treatment of invalid bytes, and encoding.
use vibe_alfa_gen.Prelude.{
  ℕ, zero, suc, ◌+◌, ◌-◌, ◌*◌, ◌/◌, ◌%◌, Bool, true, false, not, ◌&&◌, ◌||◌, List, [], ◌∷◌, ◌++◌,
  ltb, leb, if◌then◌else◌, ◌==◌, nat_eq, length,
}

abbrev pub rune_error : ℕ
rune_error = 0xFFFD

abbrev in_range : ℕ → ℕ → ℕ → Bool
in_range lo hi b = leb lo b && leb b hi

-- A continuation byte, 10xxxxxx.
abbrev is_continuation : ℕ → Bool
is_continuation = in_range 0x80 0xBF

-- utf8.RuneStart
unfoldable pub rune_start : ℕ → Bool
rune_start b = not (is_continuation b)

abbrev invalid : ℕ × ℕ
invalid = (rune_error, 1)

decode_two : ℕ → List ℕ → ℕ × ℕ
decode_two a (b ∷ _) = if is_continuation b then ((a - 0xC0) * 64 + (b - 0x80), 2) else invalid
decode_two a _ = invalid

decode_three : ℕ → List ℕ → ℕ × ℕ
decode_three a (b ∷ c ∷ _) =
    let lo = if a == 0xE0 then 0xA0 else 0x80 in
    let hi = if a == 0xED then 0x9F else 0xBF in
    if in_range lo hi b && is_continuation c
    then ((a - 0xE0) * 4096 + (b - 0x80) * 64 + (c - 0x80), 3)
    else invalid
decode_three a _ = invalid

decode_four : ℕ → List ℕ → ℕ × ℕ
decode_four a (b ∷ c ∷ d ∷ _) =
    let lo = if a == 0xF0 then 0x90 else 0x80 in
    let hi = if a == 0xF4 then 0x8F else 0xBF in
    if in_range lo hi b && is_continuation c && is_continuation d
    then ((a - 0xF0) * 262144 + (b - 0x80) * 4096 + (c - 0x80) * 64 + (d - 0x80), 4)
    else invalid
decode_four a _ = invalid

-- utf8.DecodeRuneInString: the first rune and its width; an invalid byte is U+FFFD of width 1.
unfoldable pub decode_rune : List ℕ → ℕ × ℕ
unfolding decode_two decode_three decode_four
decode_rune [] = (rune_error, 0)
decode_rune (a ∷ s) =
    if ltb a 0x80
    then (a, 1)
    else if in_range 0xC2 0xDF a
    then decode_two a s
    else if in_range 0xE0 0xEF a
    then decode_three a s
    else if in_range 0xF0 0xF4 a
    then decode_four a s
    else invalid

-- The bytes that belong to the last rune, 4 at most, from the reversed string: the start of the
-- candidate is the nearest byte, going back, that starts a rune.
last_start : ℕ → List ℕ → List ℕ → List ℕ
unfolding rune_start
last_start zero back s = s
last_start (suc k) [] s = s
last_start (suc k) (b ∷ back) s = elim (rune_start b) [
  | true ↦ b ∷ s
  | false ↦ last_start k back (b ∷ s)
]

last_of : List ℕ → ℕ × ℕ
unfolding decode_rune
last_of s = let (r, size) = decode_rune s in if size == length s then (r, size) else invalid

-- utf8.DecodeLastRuneInString, of the reversed string.
unfoldable pub decode_last_rune_rev : List ℕ → ℕ × ℕ
unfolding last_start last_of
decode_last_rune_rev [] = (rune_error, 0)
decode_last_rune_rev (b ∷ back) =
    if ltb b 0x80 then (b, 1) else last_of (last_start 4 (b ∷ back) [])

-- `range s`: each rune beside its byte position; `skip` bytes of the current rune are left.
unfoldable pub positions_from : ℕ → ℕ → List ℕ → List (ℕ × ℕ)
unfolding decode_rune
positions_from pos skip [] = []
positions_from pos (suc skip) (b ∷ s) = positions_from (suc pos) skip s
positions_from pos zero (b ∷ s) =
    let (r, size) = decode_rune (b ∷ s) in (pos, r) ∷ positions_from (suc pos) (size - 1) s

unfoldable pub runes_from : ℕ → List ℕ → List ℕ
unfolding decode_rune
runes_from skip [] = []
runes_from (suc skip) (b ∷ s) = runes_from skip s
runes_from zero (b ∷ s) = let (r, size) = decode_rune (b ∷ s) in r ∷ runes_from (size - 1) s

-- []rune(s)
unfoldable pub runes : List ℕ → List ℕ
unfolding runes_from
runes s = runes_from 0 s

-- utf8.AppendRune: a surrogate or a number above U+10FFFF is encoded as U+FFFD.
unfoldable pub encode_rune : ℕ → List ℕ
encode_rune r =
    if ltb r 0x80
    then r ∷ []
    else if ltb r 0x800
    then (0xC0 + r / 64) ∷ (0x80 + r % 64) ∷ []
    else if ltb 0x10FFFF r || (leb 0xD800 r && leb r 0xDFFF)
    then 0xEF ∷ 0xBF ∷ 0xBD ∷ []
    else if ltb r 0x10000
    then (0xE0 + r / 4096) ∷ (0x80 + r / 64 % 64) ∷ (0x80 + r % 64) ∷ []
    else (0xF0 + r / 262144) ∷ (0x80 + r / 4096 % 64) ∷ (0x80 + r / 64 % 64) ∷ (0x80 + r % 64) ∷ []

-- string(runes)
unfoldable pub of_runes : List ℕ → List ℕ
unfolding encode_rune
of_runes [] = []
of_runes (r ∷ rs) = encode_rune r ++ of_runes rs

valid_from : ℕ → List ℕ → Bool
unfolding decode_rune
valid_from skip [] = true
valid_from (suc skip) (b ∷ s) = valid_from skip s
valid_from zero (b ∷ s) =
    let (r, size) = decode_rune (b ∷ s) in
    not (r == rune_error && size == 1) && valid_from (size - 1) s

-- utf8.ValidString: an invalid byte is the only rune U+FFFD of width 1.
unfoldable pub valid_string : List ℕ → Bool
unfolding valid_from
valid_string s = valid_from 0 s
