-- ===== src/Markers/Named.antt =====
-- The tokens of configured types are markers: what validCustomTypeName of
-- internal/platform/config/config.go is for.
use vibe_alfa_gen.Prelude.{
  ℕ, zero, suc, ◌+◌, ◌%◌, ◌/◌, ◌^◌, ◌<◌, ◌≡◌, refl, sym, ap, ◌∙◌, true, [], ◌∷◌, ◌++◌, ltb, nat_eq,
  length, all_of, arith, Bool-cases, inl, inr, append_assoc, length-append, all_of-append,
}
use vibe_alfa_gen.Text.{Text, codes}
use vibe_alfa_gen.Domain.{PiiType}
use vibe_alfa_gen.Tokens.{Mac, upper, decimal_fuel, decimal, token_text}
use vibe_alfa_gen.Config.Validate.{valid_custom_type_name, is_name_byte}
use vibe_alfa_gen.Markers.Matches.{IsBody, body_of}
use vibe_alfa_gen.Markers.Found.{find_markers-IsMarker}
use vibe_alfa_gen.Markers.{is_decimal, is_hex, is_type_char, find_markers}

is_type_char-upper :
    (s : Text) → all_of is_name_byte s ≡ true → all_of is_type_char (upper s) ≡ true
unfolding upper
is_type_char-upper [] h = refl
is_type_char-upper (c ∷ s) h = ground (arith, is_type_char-upper s)

decimal_fuel-digits : (f n : ℕ) → all_of is_decimal (decimal_fuel f n) ≡ true
unfolding decimal_fuel
decimal_fuel-digits zero n = refl
decimal_fuel-digits (suc f) n = elim (Bool-cases (ltb n 10)) [
  | inl e ↦ rw e (ground arith)
  | inr e ↦ rw e (
      all_of-append is_decimal (decimal_fuel f (n / 10)) ((0x30 + n % 10) ∷ [])
        (decimal_fuel-digits f (n / 10)) (ground arith))
]

decimal_fuel-filled : (f n : ℕ) → 0 < length (decimal_fuel (suc f) n)
unfolding decimal_fuel
decimal_fuel-filled f n = elim (Bool-cases (ltb n 10)) [
  | inl e ↦ rw e (omega arith)
  | inr e ↦ rw e (omega (arith, length-append (decimal_fuel f (n / 10)) ((0x30 + n % 10) ∷ [])))
]

token_text-body_of :
    (mac : Mac) (nonce : Text) (typ : PiiType) (value : Text) (n : ℕ)
    → token_text mac nonce typ value n
      ≡ 0x3C ∷ body_of (upper (codes typ)) (mac.tag nonce typ value (n % 2 ^ 64)) (decimal n)
        ++ (0x3E ∷ [])
unfolding token_text
token_text-body_of mac nonce typ value n =
    let tag = mac.tag nonce typ value (n % 2 ^ 64) in
    let name = upper (codes typ) in
    ap (λ rest. 0x3C ∷ name ++ (0x5F ∷ rest))
      (sym (append_assoc tag (0x5F ∷ decimal n) (0x3E ∷ [])))
    ∙ ap (◌∷◌ 0x3C) (sym (append_assoc name (0x5F ∷ tag ++ (0x5F ∷ decimal n)) (0x3E ∷ [])))

valid_name-bytes :
    (s : Text) → valid_custom_type_name s ≡ true → (all_of is_name_byte s ≡ true) × (0 < length s)
unfolding valid_custom_type_name
valid_name-bytes [] h = absurd (cc h)
valid_name-bytes (c ∷ s) h = (ground arith, omega arith)

length-upper : (s : Text) → length (upper s) ≡ length s
unfolding upper
length-upper [] = refl
length-upper (c ∷ s) = ap suc (length-upper s)

-- A token of a type whose name validCustomTypeName accepts, with a tag in hexadecimal, is one marker:
-- the engine finds it.
pub find_markers-token_text :
    (mac : Mac) (nonce : Text) (typ : PiiType) (value : Text) (n : ℕ)
    → valid_custom_type_name (codes typ) ≡ true
    → all_of is_hex (mac.tag nonce typ value (n % 2 ^ 64)) ≡ true
    → find_markers (token_text mac nonce typ value n)
      ≡ (0, length (token_text mac nonce typ value n)) ∷ []
unfolding decimal
find_markers-token_text mac nonce typ value n valid hex =
    let tag = mac.tag nonce typ value (n % 2 ^ 64) in
    let name = upper (codes typ) in
    let (bytes, filled) = valid_name-bytes (codes typ) valid in
    let marker = token_text mac nonce typ value n in
    let body : IsBody name tag (decimal n) = record {
      named = is_type_char-upper (codes typ) bytes;
      has_name = omega (arith, filled, length-upper (codes typ));
      tagged = hex;
      sized = mac.length-tag nonce typ value (n % 2 ^ 64);
      counted = decimal_fuel-digits (suc n) n;
      has_digits = decimal_fuel-filled n n;
    } in
    find_markers-IsMarker marker (record {
      name = name;
      tag = tag;
      digits = decimal n;
      body = body;
      spelled = token_text-body_of mac nonce typ value n;
    })
