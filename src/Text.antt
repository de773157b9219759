-- ===== src/Text.antt =====
-- Go strings as lists of bytes, and what the program uses of Go's `unicode/utf8`, `unicode` and
-- `strings` packages.
pub mod Utf8
pub mod Unicode
use Prim.Native.Char.{code}
use Prim.Native.String.{[] as nil, ◌∷◌ as cons}
use vibe_alfa_gen.Prelude.{ℕ, List, [], ◌∷◌, String}

-- The bytes of a Go string.
abbrev pub Text : Type 0
Text = List ℕ

-- The code points of a Go string, `[]rune(s)`.
abbrev pub Runes : Type 0
Runes = List ℕ

-- The code points of a literal, which are its bytes where it is ASCII.
abbrev pub codes : String → Runes
codes nil = []
codes (cons c s) = code c ∷ codes s
