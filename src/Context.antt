-- ===== src/Context.antt =====
-- internal/pii/context.go: the confidence of names and addresses, resolved by what stands near them.
pub mod Records
pub mod Windows
pub mod Kept
use vibe_alfa_gen.Prelude.{
  ℕ, zero, suc, ◌+◌, ◌-◌, Bool, true, false, not, ◌&&◌, ◌||◌, List, [], ◌∷◌, String, Option, none,
  some, map, min, ltb, leb, if◌then◌else◌, ◌==◌, nat_eq, string_eq, text_eq, length, take, drop,
  slice, get_or, contains, keep, bit_and,
}
use mathlib.Core.List.{reverse}
use vibe_alfa_gen.Domain.{
  PiiType, Confidence, Finding, confidence_high, confidence_medium, evidence_label, evidence_trap,
  evidence_requires_anchor, type_full_name, type_address, type_phone, type_email,
  type_passport_number, type_card_number, type_inn,
}
use vibe_alfa_gen.Text.{Text, Runes, codes}
use vibe_alfa_gen.Text.Unicode.{Unicode}
use vibe_alfa_gen.Text.Utf8.{decode_rune, decode_last_rune_rev, rune_start, runes}
use vibe_alfa_gen.Overlap.{stable_sort}
use vibe_alfa_gen.Context.Records.{
  Patterns, TextRecord, logical_records, context_window_bytes, max_structured_record_bytes,
  max_structured_record_lines,
}
use vibe_alfa_gen.Context.Windows.{
  search, rune_up, rune_down, window_of, trim_window, record_window, sentence_start, sentence_end,
  context_window, narrow, local_window,
}

abbrev pub name_candidate_confidence : Confidence
name_candidate_confidence = 60

abbrev pub anchor_promotion : Confidence
anchor_promotion = 22

abbrev pub multiple_types_promotion : Confidence
multiple_types_promotion = 8

abbrev pub negative_penalty : Confidence
negative_penalty = 100

-- Threshold
unfoldable pub threshold : String → PiiType → Confidence
threshold profile typ =
    if profile == "strict"
    then 55
    else if profile == "conservative"
    then 95
    else if typ == type_full_name || typ == type_address
    then 80
    else confidence_medium

unfoldable pub filter_confidence : List Finding → String → List Finding
filter_confidence all profile = keep (λ f. leb (threshold profile f.typ) f.confidence) all

unfoldable pub anchor_type : PiiType → Bool
anchor_type t =
    t == type_full_name
    || (t == type_phone
        || (t == type_email
            || (t == type_passport_number || (t == type_card_number || t == type_inn))))

unfoldable pub has_evidence : Finding → ℕ → Bool
has_evidence f bit = not (bit_and f.evidence bit == 0)

-- nearbyAnchorTypes: the types of other anchors in the window that do not overlap the finding.
unfoldable pub nearby_anchor_types : Finding → List Finding → ℕ → ℕ → List PiiType
nearby_anchor_types f [] lo hi = []
nearby_anchor_types f (a ∷ anchors) lo hi =
    let rest = nearby_anchor_types f anchors lo hi in
    let counts =
      leb a.stop hi && (not (a.typ == f.typ) && (leb a.stop f.start || leb f.stop a.start)) in
    if not (ltb a.start hi)
    then []
    else if counts && not (contains rest a.typ)
    then a.typ ∷ rest
    else rest

-- promoteContext, once the types of the anchors nearby are known.
unfoldable pub promote_by : List PiiType → Finding → Finding
promote_by [] f = if has_evidence f evidence_requires_anchor then record f { confidence = 0 } else f
promote_by (_ ∷ []) f = record f {
  confidence = min (f.confidence + anchor_promotion) confidence_high;
}
promote_by (_ ∷ _ ∷ _) f = record f {
  confidence = min (f.confidence + anchor_promotion + multiple_types_promotion) confidence_high;
}

-- A finding that context can change.
abbrev pub is_candidate : Finding → Bool
is_candidate f = f.typ == type_full_name || f.typ == type_address

module _ (u : Unicode) (p : Patterns) where
  open p use {negative_context}

  unfoldable pub negative_outside_value : Text → Finding → ℕ → ℕ → Bool
  negative_outside_value text f lo hi =
      negative_context (slice text lo f.start) || negative_context (slice text f.stop hi)

  -- The loop of negativeOutsideNames over the findings from the first in the window on.
  unfoldable pub negative_between : Text → ℕ → ℕ → List Finding → Bool
  negative_between text cursor hi [] = negative_context (slice text cursor hi)
  negative_between text cursor hi (f ∷ fs) =
      let passed = negative_between text cursor hi fs in
      let beyond = negative_between text (min hi f.stop) hi fs in
      if not (ltb f.start hi)
      then negative_context (slice text cursor hi)
      else if not (f.typ == type_full_name)
          || (ltb f.confidence name_candidate_confidence || leb f.stop cursor)
      then passed
      else if ltb cursor f.start && negative_context (slice text cursor f.start)
      then true
      else beyond

  -- The findings from one before the first that starts at `lo` or later: `last` is the one before.
  unfoldable pub from_window : ℕ → List Finding → List Finding
  from_window lo [] = []
  from_window lo (f ∷ []) = f ∷ []
  from_window lo (f ∷ g ∷ fs) =
      let later = from_window lo (g ∷ fs) in
      if leb lo f.start || leb lo g.start then f ∷ g ∷ fs else later

  unfoldable pub negative_outside_names : Text → ℕ → ℕ → List Finding → Bool
  negative_outside_names text lo hi findings = negative_between text lo hi (from_window lo findings)

  -- suppressContext on one finding. The clamp at 0 is the truncation of the subtraction.
  unfoldable pub suppress : Text → List TextRecord → Finding → Finding
  suppress text records f =
      let (lo, hi) = local_window u text f records in
      let negative =
        has_evidence f evidence_trap
        || (not (has_evidence f evidence_label) && negative_outside_value text f lo hi) in
      if not (is_candidate f)
      then f
      else if negative
      then record f { confidence = f.confidence - negative_penalty }
      else f

  unfoldable pub is_anchor : Text → List TextRecord → List Finding → Finding → Bool
  is_anchor text records out f =
      let (lo, hi) = local_window u text f records in
      (leb confidence_high f.confidence && anchor_type f.typ)
      && not (not (has_evidence f evidence_label) && negative_outside_names text lo hi out)

  unfoldable pub context_anchors : Text → List TextRecord → List Finding → List Finding
  context_anchors text records out = keep (is_anchor text records out) out

  unfoldable pub promote : Text → List TextRecord → List Finding → Finding → Finding
  unfolding promote_by
  promote text records anchors f =
      let (lo, hi) = context_window u text f records in
      let seen = nearby_anchor_types f (search (λ a. leb lo a.start) anchors) lo hi in
      if f.confidence == 0 || (leb confidence_high f.confidence || not (is_candidate f))
      then f
      else promote_by seen f

  unfoldable pub resolve_context : Text → List Finding → List Finding
  resolve_context text all =
      let sorted = stable_sort (λ f g. ltb f.start g.start) all in
      let records = logical_records p text in
      let suppressed = map (suppress text records) sorted in
      map (promote text records (context_anchors text records suppressed)) suppressed
