-- ===== src/Tokens.antt =====
-- internal/pii/engine/tokens.go: the table that gives each value of a request its token.
pub mod Decimal
pub mod Fresh
pub mod Table
use vibe_alfa_gen.Prelude.{
  ℕ, zero, suc, ◌+◌, ◌-◌, ◌*◌, ◌/◌, ◌%◌, ◌^◌, ◌≡◌, Bool, true, false, not, ◌&&◌, List, [], ◌∷◌,
  ◌++◌, String, Option, none, some, ltb, leb, if◌then◌else◌, ◌==◌, nat_eq, text_eq, string_eq,
  pair_eq, length, lookup, insert, contains, map, slice, all_of,
}
use vibe_alfa_gen.Domain.{PiiType}
use vibe_alfa_gen.Text.{Text, codes}
use vibe_alfa_gen.Markers.{find_markers}

-- The first 16 bytes of HMAC-SHA-256 in hexadecimal, keyed by the nonce, over the category, a zero
-- byte, the value and the counter: `crypto/hmac` is not in the repository. Its tag has 32 digits.
pub record Mac : Type 0 where
  pub tag : Text → PiiType → Text → ℕ → Text
  pub length-tag :
      (nonce : Text) (typ : PiiType) (value : Text) (counter : ℕ)
      → length (tag nonce typ value counter) ≡ 32

-- strings.ToUpper on ASCII, which the names of categories are.
unfoldable pub upper : Text → Text
upper = map (λ c. if leb 0x61 c && leb c 0x7A then c - 32 else c)

-- `%d`; the fuel bounds the number of digits.
unfoldable pub decimal_fuel : ℕ → ℕ → Text
decimal_fuel zero n = []
decimal_fuel (suc f) n =
    let rest = decimal_fuel f (n / 10) ++ (0x30 + n % 10) ∷ [] in
    if ltb n 10 then (0x30 + n) ∷ [] else rest

unfoldable pub decimal : ℕ → Text
decimal n = decimal_fuel (suc n) n

pub record TokenTable : Type 0 where
  pub nonce : Text
  pub next : ℕ
  pub reserved : List Text
  pub values : List ((PiiType × Text) × Text)

-- A nonce that is empty means no tokens: nothing is reserved then.
unfoldable pub new_token_table : Text → Text → TokenTable
new_token_table input nonce = record {
  nonce = nonce;
  next = 0;
  reserved = if length nonce == 0 then [] else map (λ p. slice input p.0 p.1) (find_markers input);
  values = [];
}

module _ (mac : Mac) where
  -- The token of a value at a counter; the MAC reads the counter as a uint64.
  unfoldable pub token_text : Text → PiiType → Text → ℕ → Text
  token_text nonce typ value n =
      0x3C ∷ upper (codes typ)
      ++ (0x5F ∷ mac.tag nonce typ value (n % 2 ^ 64) ++ (0x5F ∷ decimal n ++ 0x3E ∷ []))

  -- The loop of `token`: the first counter from `n` on whose token is not reserved.
  unfoldable pub search_token : ℕ → Text → List Text → PiiType → Text → ℕ → Option ℕ
  search_token zero nonce reserved typ value n = none
  search_token (suc fuel) nonce reserved typ value n =
      let later = search_token fuel nonce reserved typ value (suc n) in
      if contains reserved (token_text nonce typ value n) then later else some n

  abbrev store_token : TokenTable → PiiType → Text → ℕ → Text × TokenTable
  store_token t typ value n =
      let made = token_text t.nonce typ value n in
      (
        made,
        record t {
          next = suc n;
          reserved = made ∷ t.reserved;
          values = insert (typ, value) made t.values;
        },
      )

  -- `none` would mean that the loop does not end within one round more than there are reserved tokens.
  unfoldable pub token : TokenTable → PiiType → Text → Option (Text × TokenTable)
  token t typ value = elim (lookup (typ, value) t.values) [
    | some known ↦ some (known, t)
    | none ↦ elim (search_token (suc (length t.reserved)) t.nonce t.reserved typ value t.next) [
      | none ↦ none
      | some n ↦ some (store_token t typ value n)
    ]
  ]
