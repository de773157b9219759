-- ===== src/Tests/Tokens.antt =====
-- A text that is masked with tokens.
use vibe_alfa_gen.Prelude.{
  ℕ, ◌≤◌, ◌≡◌, refl, false, List, [], ◌∷◌, ◌++◌, some, arith, replicate, length, ◌==◌, nat_eq,
  lookup, text_eq,
}
use vibe_alfa_gen.Domain.{ok}
use vibe_alfa_gen.Text.{Text, codes}
use vibe_alfa_gen.Engine.{Masking, write_masked, write_findings, verify}
use vibe_alfa_gen.Engine.Pieces.{splice, values_of, Restores, write_masked-Restores}
use vibe_alfa_gen.Tokens.{token, new_token_table}
use vibe_alfa_gen.Markers.{hide_markers}
use vibe_alfa_gen.Registry.{collect}
use vibe_alfa_gen.Tests.Findings.{phones_only}
use vibe_alfa_gen.Tests.Requests.{machine, registry, call_at, message, found}

abbrev phone_token : Text
phone_token = codes "<PHONE_" ++ (replicate 32 0x61 ++ codes "_0>")

abbrev token_mask : Text
token_mask = phone_token ++ codes " x"

abbrev token_made : Masking
token_made = record {
  masked = token_mask;
  mapping = (phone_token, codes "1234567") ∷ [];
  findings = found ∷ [];
  nonce = codes "n";
}

written_with_tokens :
    write_masked machine registry (call_at 1) message phones_only (found ∷ []) (codes "n")
    ≡ ok token_made
unfolding write_masked write_findings token new_token_table vibe_alfa_gen.Tokens.search_token
    vibe_alfa_gen.Tokens.token_text vibe_alfa_gen.Tokens.upper vibe_alfa_gen.Tokens.decimal
    vibe_alfa_gen.Tokens.decimal_fuel vibe_alfa_gen.Prelude.contains vibe_alfa_gen.Prelude.lookup
    vibe_alfa_gen.Prelude.insert verify vibe_alfa_gen.Context.filter_confidence collect
    vibe_alfa_gen.Text.Utf8.valid_string hide_markers vibe_alfa_gen.Markers.hide_marker_spans
    vibe_alfa_gen.Markers.hide_from vibe_alfa_gen.Markers.find_markers
    vibe_alfa_gen.Markers.markers_from vibe_alfa_gen.Markers.marker_length
    vibe_alfa_gen.Registry.collect_loop vibe_alfa_gen.Registry.new_registry
    vibe_alfa_gen.Registry.requested_types vibe_alfa_gen.Normalize.normalize_text
    vibe_alfa_gen.Text.Utf8.positions_from vibe_alfa_gen.Normalize.normalize_rune
    vibe_alfa_gen.Registry.require_all vibe_alfa_gen.Markers.prefix_length
    vibe_alfa_gen.Markers.is_body_rev
written_with_tokens = refl

write_masked-Restores_example :
    (pieces : List Text) × (token_made.masked ≡ splice message 0 (found ∷ []) pieces)
    × Restores token_made.mapping pieces (values_of message (found ∷ []))
    × (splice message 0 (found ∷ []) (values_of message (found ∷ [])) ≡ message)
write_masked-Restores_example =
    write_masked-Restores machine registry message (call_at 1) phones_only (found ∷ []) (codes "n")
      token_made refl (omega arith, omega arith, tt) written_with_tokens
