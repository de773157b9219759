-- ===== src/Proxy/Decode.antt =====
-- internal/proxy/decode.go: the strict decoding of a JSON object of strings.
pub mod Ends
use vibe_alfa_gen.Prelude.{
  ℕ, zero, suc, ◌+◌, Bool, true, false, not, ◌||◌, List, [], ◌∷◌, Option, none, some, map, ltb,
  if◌then◌else◌, ◌==◌, text_eq, nat_eq, length, take,
}
use vibe_alfa_gen.Domain.{
  Error, Result, ok, err, ◌>>=◌, invalid_json, missing_field, extra_field, body_too_large,
}
use vibe_alfa_gen.Text.{Text, codes}
use vibe_alfa_gen.Text.Utf8.{valid_string}
use vibe_alfa_gen.Proxy.{HttpRequest}

-- What a Token of `encoding/json` is: a delimiter, a string, another value, the end of the input
-- (io.EOF), or an error.
pub data Token : Type 0 where
  delim : ℕ → Token
  str : Text → Token
  another : Token
  eof : Token
  broken : Token

-- json.Decoder over its state `S`. Decoding into a *string gives a string, or nil for null; it fails
-- on other values.
pub record Decoder (S : Type 0) : Type 0 where
  pub start : Text → S
  pub token : S → Token × S
  pub more : S → Bool
  pub decode : S → Option (Option Text) × S

-- One of the names that an object may have, its bit of `seen` and the pointer that it sets.
pub record Slot : Type 0 where
  pub name : Text
  pub seen : Bool
  pub value : Option Text

unfoldable pub fresh_slots : List Text → List Slot
fresh_slots = map (λ name. record { name = name; seen = false; value = none })

-- Whether a name is allowed and was not seen, and the slots once it has its value.
unfoldable pub is_free : Text → List Slot → Bool
is_free name [] = false
is_free name (s ∷ slots) = if s.name == name then not s.seen else is_free name slots

unfoldable pub put : Text → Option Text → List Slot → List Slot
put name value [] = []
put name value (s ∷ slots) =
    let rest = s ∷ put name value slots in
    if s.name == name then record s { seen = true; value = value } ∷ slots else rest

-- The name that a token is.
abbrev pub name_of : Token → Option Text
name_of (str name) = some name
name_of _ = none

abbrev is_open : Token → Bool
is_open (delim c) = c == 0x7B
is_open _ = false

abbrev is_error : Token → Bool
is_error broken = true
is_error eof = true
is_error _ = false

abbrev is_eof : Token → Bool
is_eof eof = true
is_eof _ = false

abbrev read_error : Option Error → Error
read_error none = invalid_json
read_error (some e) = e

unfoldable pub slot_value : Text → List Slot → Option Text
slot_value name [] = none
slot_value name (s ∷ slots) =
    let rest = slot_value name slots in if s.name == name then s.value else rest

-- The payload and its ID.
abbrev required : Option Text → Option Text → Result (Text × Text)
required (some payload) (some id) = if length id == 0 then err missing_field else ok (payload, id)
required _ _ = err missing_field

module _ {S : Type 0} (dec : Decoder S) where
  -- decodeFields. The fuel bounds the rounds, and `none` would mean that the loop goes on.
  unfoldable pub decode_fields : ℕ → List Slot → S → Option (Result (List Slot) × S)
  decode_fields zero slots s = none
  decode_fields (suc fuel) slots s =
      let (tok, s1) = dec.token s in
      let (value, s2) = dec.decode s1 in
      if not (dec.more s) then some (ok slots, s) else elim (name_of tok) [
        | none ↦ some (err invalid_json, s1)
        | some name ↦ elim (is_free name slots) [
          | false ↦ some (err extra_field, s1)
          | true ↦ elim value [
            | none ↦ some (err invalid_json, s2)
            | some v ↦ decode_fields fuel (put name v slots) s2
          ]
        ]
      ]

  -- After the fields: the end of the object, then that of the input.
  unfoldable pub finish : List Slot → S → Result (List Slot)
  finish slots s =
      let (close, s1) = dec.token s in
      let (end, _) = dec.token s1 in
      if is_error close then err invalid_json else if is_eof end then ok slots else err extra_field

  abbrev then_finish : Option (Result (List Slot) × S) → Result (List Slot)
  then_finish none = err invalid_json
  then_finish (some (err e, _)) = err e
  then_finish (some (ok slots, s)) = finish slots s

  unfoldable pub decode_body : List Text → Text → Result (List Slot)
  unfolding decode_fields
  decode_body allowed body =
      let (open_token, s) = dec.token (dec.start body) in
      if not (is_open open_token)
      then err invalid_json
      else then_finish (decode_fields (suc (length allowed)) (fresh_slots allowed) s)

  unfoldable pub decode_object : HttpRequest → ℕ → List Text → Result (List Slot)
  decode_object req max_bytes allowed =
      let body = take (max_bytes + 1) req.body in
      if req.broken
      then err (read_error req.reading)
      else if ltb max_bytes (length body)
      then err body_too_large
      else if not (valid_string body)
      then err invalid_json
      else decode_body allowed body

  unfoldable pub decode_request : HttpRequest → ℕ → Result (Text × Text)
  decode_request req max_bytes =
      decode_object req max_bytes (codes "payload" ∷ codes "payload_id" ∷ []) >>= λ slots.
      required (slot_value (codes "payload") slots) (slot_value (codes "payload_id") slots)
