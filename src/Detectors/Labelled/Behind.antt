-- ===== src/Detectors/Labelled/Behind.antt =====
-- What stands in the findings of the detectors of values behind a label.
use vibe_alfa_gen.Prelude.{
  ℕ, ◌+◌, ◌≤◌, ◌<◌, ◌≡◌, refl, Bool, true, false, List, [], ◌∷◌, String, Option, none, some, All,
  All-append, All-IsIn, IsIn, here, there, length, slice, Bool-cases, Option-cases, inl, inr,
  text_eq,
}
use vibe_alfa_gen.Domain.{PiiType, Finding}
use vibe_alfa_gen.Text.{Text, Runes}
use vibe_alfa_gen.Text.Unicode.{Unicode}
use vibe_alfa_gen.Detectors.Fields.{Match, Pattern}
use vibe_alfa_gen.Detectors.Numbers.{accept}
use vibe_alfa_gen.Detectors.Labels.{collect_label_value}
use vibe_alfa_gen.Detectors.Labels.Spans.{collect_label_value_bounds}
use vibe_alfa_gen.Detectors.Labelled.{
  known_citizenship, any_value, place_prefixes, known_place, is_passport_authority, each_marker,
  span_finding, labelled, detect_citizenship, detect_card_holder, detect_place_of_birth,
  detect_issuer,
}

-- The matches of an expression lie in the text.
abbrev pub MatchesIn : Text → Pattern → Type 0
MatchesIn input p = All (λ (m : Match). m.stop ≤ length input) (p.find_all input)

-- A finding of a type whose span is not empty, lies in the input, within 512 bytes behind a match of one
-- of the expressions, and whose value is the text there.
pub record IsBehindLabel (typ : PiiType) (markers : List Pattern) (input : Text) (x : Finding)
    : Type 0 where
  pub marker : Pattern
  pub label : Match
  pub listed : IsIn marker markers
  pub matched : IsIn label (marker.find_all input)
  pub typed : x.typ ≡ typ
  pub behind : label.stop ≤ x.start
  pub filled : x.start < x.stop
  pub inside : x.stop ≤ length input
  pub near : x.stop ≤ label.stop + 512
  pub holds : x.value ≡ slice input x.start x.stop

some-finding : {x y : Finding} → some x ≡ some y → x ≡ y
some-finding p = cc p

-- A finding of a span is the span's, whatever the test on its value.
span_finding-some :
    (typ : PiiType) (detector : String) (keep : Text → Bool) (input : Text) (span : Option (ℕ × ℕ))
    (x : Finding)
    → span_finding typ detector keep input span ≡ some x
    → (span ≡ some (x.start, x.stop)) × ((x.typ ≡ typ) × (x.value ≡ slice input x.start x.stop))
span_finding-some typ detector keep input none x h = absurd (cc h)
span_finding-some typ detector keep input (some (start, stop)) x h =
    elim (Bool-cases (keep (slice input start stop))) [
      | inl e ↦ rw (← some-finding (rw e at h)) (refl, (refl, refl))
      | inr e ↦ absurd (cc (rw e at h))
    ]

-- What holds of every finding that is accepted for one of the matches.
All-accept_from :
    (P : Finding → Type 0) (f : Match → Option Finding) (ms : List Match)
    → ((m : Match) (x : Finding) → IsIn m ms → f m ≡ some x → P x)
    → All P (accept f ms)
All-accept_from P f [] h = tt
All-accept_from P f (m ∷ ms) h =
    let rest = All-accept_from P f ms (λ n x in_rest e. h n x (there in_rest) e) in
    elim (Option-cases (f m)) [
      | inl e ↦ rw (e, All) rest
      | inr (x, e) ↦ rw (e, All) (h m x here e, rest)
    ]

module _ (u : Unicode) (input : Text) where
  each_marker-IsBehindLabel :
      (typ : PiiType) (detector : String) (max_words : ℕ) (skip_prefixes : List Runes)
      (issuer_numbers : Bool) (keep : Text → Bool) (all_markers markers : List Pattern)
      → ((p : Pattern) → IsIn p markers → IsIn p all_markers)
      → All (MatchesIn input) markers
      → All (IsBehindLabel typ all_markers input) (
          each_marker
            (labelled u typ detector max_words skip_prefixes issuer_numbers keep input)
            input
            markers)
  unfolding each_marker labelled
  each_marker-IsBehindLabel typ detector max_words skip_prefixes issuer_numbers keep all_markers []
        among within =
      tt
  each_marker-IsBehindLabel typ detector max_words skip_prefixes issuer_numbers keep all_markers
        (p ∷ ps) among within =
      let found = labelled u typ detector max_words skip_prefixes issuer_numbers keep input in
      All-append (IsBehindLabel typ all_markers input) (accept found (p.find_all input))
        (each_marker found input ps)
        (All-accept_from (IsBehindLabel typ all_markers input) found (p.find_all input)
          (λ m x matched h.
            let (span, (typed, holds)) =
              span_finding-some typ detector keep input
                (collect_label_value u input m.stop max_words skip_prefixes issuer_numbers) x h in
            let (_, _, bounds) =
              collect_label_value_bounds u input m.stop max_words skip_prefixes issuer_numbers
                (All-IsIn (λ (n : Match). n.stop ≤ length input) matched within.0) in
            let (behind, (filled, (in_input, near))) = bounds x.start x.stop span in
            record {
              marker = p;
              label = m;
              listed = among p here;
              matched = matched;
              typed = typed;
              behind = behind;
              filled = filled;
              inside = in_input;
              near = near;
              holds = holds;
            }))
        (each_marker-IsBehindLabel typ detector max_words skip_prefixes issuer_numbers keep
          all_markers ps (λ q later. among q (there later)) within.1)

  -- Where the expressions of labels match in the input, every citizenship, card holder, place of birth
  -- and passport issuer that is found is of this type, is not empty, lies in the input, within 512
  -- bytes behind a match of one of its expressions, and carries the text at its span.
  pub detect_labels-IsBehindLabel :
      (citizenships holders places issuers : List Pattern)
      → All (MatchesIn input) citizenships
      → All (MatchesIn input) holders
      → All (MatchesIn input) places
      → All (MatchesIn input) issuers
      → All
          (IsBehindLabel "citizenship" citizenships input)
          (detect_citizenship u citizenships input)
        × (All (IsBehindLabel "card_holder" holders input) (detect_card_holder u holders input)
            × (All
                  (IsBehindLabel "place_of_birth" places input)
                  (detect_place_of_birth u places input)
                × All
                    (IsBehindLabel "passport_issuer" issuers input)
                    (detect_issuer u issuers input)))
  unfolding detect_citizenship detect_card_holder detect_place_of_birth detect_issuer
  detect_labels-IsBehindLabel citizenships holders places issuers c h p i = (
    each_marker-IsBehindLabel "citizenship" "citizenship" 3 [] false (known_citizenship u)
        citizenships citizenships (λ p given. given) c,
    (
      each_marker-IsBehindLabel "card_holder" "card_holder" 3 [] false any_value holders holders
          (λ p given. given) h,
      (
        each_marker-IsBehindLabel "place_of_birth" "place_of_birth" 4 place_prefixes false
            (known_place u) places places (λ p given. given) p,
        each_marker-IsBehindLabel "passport_issuer" "passport_issuer" 8 [] true
            (is_passport_authority u) issuers issuers (λ p given. given) i,
      ),
    ),
  )
