-- ===== src/Engine.antt =====
-- internal/pii/engine: Processor, whose operations Process, Mask and Demask share one store, and
-- the checks of verify.go. Metrics and logs are left out: nothing reads them back.
pub mod Processor
pub mod Steps
pub mod Replay
pub mod Pieces
pub mod Plain
pub mod Clean
use vibe_alfa_gen.Prelude.{
  ℕ, suc, Bool, true, false, not, ◌&&◌, ◌||◌, List, [], ◌∷◌, ◌++◌, String, Option, none, some, map,
  ltb, leb, if◌then◌else◌, ◌==◌, nat_eq, string_eq, text_eq, length, drop, slice, contains, any_of,
  insert,
}
use vibe_alfa_gen.Domain.{
  PiiType, Finding, PolicyRule, Policy, Scope, Error, Result, ok, err, ◌>>=◌, ◌>>◌, conflict,
  demask_denied, store_unavailable, detection_unavailable, invalid_request,
}
use vibe_alfa_gen.Text.{Text, codes}
use vibe_alfa_gen.Text.Unicode.{Unicode}
use vibe_alfa_gen.Masking.{mask_value}
use vibe_alfa_gen.Overlap.{resolve_overlaps}
use vibe_alfa_gen.Registry.{Registry, Context, collect, unless_stopped}
use vibe_alfa_gen.Context.{resolve_context, filter_confidence}
use vibe_alfa_gen.Context.Records.{Patterns}
use vibe_alfa_gen.Policy.{FilterPolicy, validate_contract, apply}
use vibe_alfa_gen.Store.{Record, Time, passed}
use vibe_alfa_gen.Markers.{hide_markers}
use vibe_alfa_gen.Tokens.{Mac, TokenTable, new_token_table, token}

-- What a Processor is given and does not implement: `digest` is the hexadecimal SHA-256 of the JSON
-- of a list of names.
pub record Machine : Type 0 where
  pub unicode : Unicode
  pub patterns : Patterns
  pub mac : Mac
  pub digest : List String → String

-- What one call meets: the time, the nonce (`none` where rand.Read fails), and what ctx.Err()
-- returns at each place where it is looked at.
pub record Call : Type 0 where
  pub now : Time
  pub nonce : Option Text
  pub before_read : Option Error
  pub after_read : Option Error
  pub collecting : Context
  pub after_collect : Option Error
  pub after_filter : Option Error
  pub masking : Context
  pub verifying : Context
  pub after_verify : Option Error
  pub before_save : Option Error
  pub after_save : Option Error
  pub before_restore : Option Error

unfoldable pub key : Machine → Scope → String → String
key m scope namespace = m.digest (scope.tenant_id ∷ namespace ∷ scope.context_id ∷ [])

unfoldable pub validate : Registry → Scope → Result (Unit {0})
validate r scope =
    if scope.tenant_id == "" || scope.context_id == ""
    then err invalid_request
    else validate_contract scope.policy r.supported_set

-- A store that fails is reported as unavailable, whatever its error.
abbrev pub or_unavailable {ℓ} : {A : Type ℓ} → Result A → Result A
or_unavailable (ok a) = ok a
or_unavailable (err e) = err store_unavailable

-- A record that has expired by the time it is read is absent.
abbrev pub unexpired : Time → Option Record → Option Record
unexpired now none = none
unexpired now (some rec) = if passed now rec.expires_at then none else some rec

-- A record that has expired by the time it is saved cannot be used.
abbrev pub usable : Time → Record × Bool → Result (Record × Bool)
usable now (rec, created) =
    if passed now rec.expires_at then err store_unavailable else ok (rec, created)

-- The policy's filter, as `detect` builds it.
unfoldable pub request_filter : Policy → FilterPolicy
request_filter pol = record {
  enabled = true;
  types = elim pol.mask_types [ none ↦ none | some types ↦ some (map (λ typ. (typ, true)) types) ];
  rules = pol.rules;
}

-- The types that the mask of a policy leaves to be verified.
abbrev pub critical_types : List PiiType
critical_types =
    "phone" ∷ "email" ∷ "card_number" ∷ "cvv" ∷ "card_pin" ∷ "inn" ∷ "passport_number"
    ∷ "driver_license" ∷ []

unfoldable pub selected_type : Option (List PiiType) → PiiType → Bool
selected_type types typ = elim types [ none ↦ true | some list ↦ contains list typ ]

abbrev pub is_conditional : Policy → PiiType → Bool
is_conditional pol typ =
    any_of (λ (r : PolicyRule). r.typ == typ && not (length r.requires == 0)) pol.rules

unfoldable pub is_verified : Policy → List PiiType → PiiType → Bool
unfolding selected_type
is_verified pol accepted typ =
    not (is_conditional pol typ && not (contains accepted typ))
    && (selected_type pol.detect_types typ && selected_type pol.mask_types typ)

abbrev pub types_of : List Finding → List PiiType
types_of = map (λ f. f.typ)

abbrev pub select_types : (PiiType → Bool) → List PiiType → List PiiType
select_types p [] = []
select_types p (typ ∷ types) = let rest = select_types p types in if p typ then typ ∷ rest else rest

unfoldable pub verification_types : Policy → List Finding → List PiiType
unfolding is_verified
verification_types pol applied = select_types (is_verified pol (types_of applied)) critical_types

-- The state of the masking loop: what was written, and the table and mapping of tokens.
pub record Writer : Type 0 where
  pub out : Text
  pub cursor : ℕ
  pub table : TokenTable
  pub mapping : List (Text × Text)

-- What `mask` returns: the masked text, the mapping, the findings and the nonce.
pub record Masking : Type 0 where
  pub masked : Text
  pub mapping : List (Text × Text)
  pub findings : List Finding
  pub nonce : Text

abbrev pub wants_tokens : Policy → Bool → Bool
wants_tokens pol force = force || (pol.mode == "tokens" || pol.detection_profile == "strict")

-- The loop of findingsCrossMarkers: the spans from the first that has not ended yet on.
unfoldable pub skip_ended : ℕ → List (ℕ × ℕ) → List (ℕ × ℕ)
skip_ended start [] = []
skip_ended start ((lo, hi) ∷ spans) =
    let rest = skip_ended start spans in if leb hi start then rest else (lo, hi) ∷ spans

abbrev pub crosses : Finding → List (ℕ × ℕ) → Bool
crosses f [] = false
crosses f ((lo, hi) ∷ _) = ltb f.start hi && ltb lo f.stop

unfoldable pub findings_cross_markers : List Finding → List (ℕ × ℕ) → Bool
unfolding skip_ended
findings_cross_markers [] spans = false
findings_cross_markers (f ∷ fs) spans =
    let ahead = skip_ended f.start spans in crosses f ahead || findings_cross_markers fs ahead

-- The text with each finding that the provider added replaced.
unfoldable pub redact_from : Text → ℕ → List Finding → Text
redact_from text cursor [] = drop cursor text
redact_from text cursor (f ∷ fs) =
    slice text cursor f.start ++ (codes "[REDACTED]" ++ redact_from text f.stop fs)

-- What is done with the record of an ID on a later call of Process.
unfoldable pub process_existing : Record → Text → Bool → Result Text
process_existing rec text allow =
    if rec.original == text
    then ok rec.masked
    else if rec.masked == text
    then (if not allow then err demask_denied else ok rec.original)
    else err conflict

module _ (m : Machine) (r : Registry) where
  open m use {unicode, patterns, mac}

  unfoldable pub detect : Call → Text → Policy → Result (List Finding)
  unfolding request_filter
  detect c text pol = elim (collect unicode r c.collecting text pol.detect_types true) [
    | err _ ↦ unless_stopped c.after_collect (err detection_unavailable)
    | ok found ↦
        let all =
          filter_confidence (resolve_context unicode patterns text found) pol.detection_profile in
        unless_stopped c.after_filter
          (ok (resolve_overlaps (apply (request_filter pol) all (types_of all))))
  ]

  -- One finding: what stands before it is copied, and its value is masked or replaced by a token. The
  -- token loop always ends, so its `none` never shows.
  unfoldable pub write_finding : Text → Bool → Finding → Writer → Result Writer
  write_finding text tokens f w =
      let value = slice text f.start f.stop in
      let before = w.out ++ slice text w.cursor f.start in
      if tokens
      then (elim (token mac w.table f.typ value) [
        | none ↦ err detection_unavailable
        | some (made, table) ↦ ok (record {
          out = before ++ made;
          cursor = f.stop;
          table = table;
          mapping = insert made value w.mapping;
        })
      ])
      else ok (record w { out = before ++ mask_value unicode f.typ value; cursor = f.stop })

  unfoldable pub write_findings : Context → ℕ → Text → Bool → List Finding → Writer → Result Writer
  unfolding write_finding
  write_findings ctx n text tokens [] w = ok w
  write_findings ctx n text tokens (f ∷ fs) w =
      unless_stopped (ctx n)
        (write_finding text tokens f w >>= write_findings ctx (suc n) text tokens fs)

  -- verify: the exact recognizers find nothing more in what is returned.
  unfoldable pub verify : Call → Text → Policy → List Finding → Result (Unit {0})
  unfolding verification_types
  verify c masked pol applied =
      let types = verification_types pol applied in
      let found = collect unicode r c.verifying (hide_markers masked) (some types) false in
      unless_stopped c.after_verify (
        if length types == 0 then ok tt else elim found [
          | err _ ↦ err detection_unavailable
          | ok findings ↦
              if length (filter_confidence findings pol.detection_profile) == 0
              then ok tt
              else err detection_unavailable
        ])

  abbrev pub finish : Call → Text → Policy → List Finding → Text → Writer → Result Masking
  finish c text pol findings nonce w =
      let masked = w.out ++ drop w.cursor text in
      let result =
        ok (record { masked = masked; mapping = w.mapping; findings = findings; nonce = nonce }) in
      if length findings == 0 then result else verify c masked pol findings >> result

  unfoldable pub write_masked : Call → Text → Policy → List Finding → Text → Result Masking
  write_masked c text pol findings nonce =
      let start : Writer = record {
        out = [];
        cursor = 0;
        table = new_token_table text nonce;
        mapping = [];
      } in
      write_findings c.masking 0 text (not (length nonce == 0)) findings start
      >>= finish c text pol findings nonce

  unfoldable pub mask : Call → Text → Policy → Bool → Result Masking
  unfolding write_masked
  mask c text pol force = detect c text pol >>= λ findings.
      if wants_tokens pol force
      then (elim c.nonce [
        | none ↦ err detection_unavailable
        | some nonce ↦ write_masked c text pol findings nonce
      ])
      else write_masked c text pol findings []
