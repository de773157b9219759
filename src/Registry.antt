-- ===== src/Registry.antt =====
-- internal/pii/registry.go: the registry of detectors, and what it collects from them.
pub mod Found
use vibe_alfa_gen.Prelude.{
  ℕ, zero, suc, ◌+◌, ◌-◌, Bool, true, false, not, ◌&&◌, ◌||◌, List, [], ◌∷◌, ◌++◌, String, Option,
  none, some, map, ltb, leb, if◌then◌else◌, ◌==◌, nat_eq, string_eq, length, get_or, slice,
  contains, all_of, get_elem?,
}
use vibe_alfa_gen.Domain.{PiiType, Finding, Error, Result, ok, err, other, ◌>>=◌}
use vibe_alfa_gen.Text.{Text}
use vibe_alfa_gen.Text.Unicode.{Unicode}
use vibe_alfa_gen.Text.Utf8.{rune_start, valid_string}
use vibe_alfa_gen.Normalize.{NormalizedText, normalize_text, original_offset}

-- A Detector, with the optional interfaces for several types and for candidates. A detection that
-- panics is `none`.
pub record Detector : Type 0 where
  pub typ : PiiType
  pub multi : Option (List PiiType)
  pub detect : Text → Option (List Finding)
  pub candidates : Option (Text → Option (List Finding))

-- SupportedTypes
unfoldable pub supported_types : Detector → List PiiType
supported_types d = elim d.multi [ none ↦ d.typ ∷ [] | some types ↦ types ]

-- `supported_set` holds the keys of the two maps that cache the union, which are the same names.
pub record Registry : Type 0 where
  pub detectors : List Detector
  pub supported : List (List PiiType)
  pub supported_set : List PiiType

abbrev pub union : List (List PiiType) → List PiiType
union [] = []
union (types ∷ rest) = types ++ union rest

unfoldable pub new_registry : List Detector → Registry
unfolding supported_types
new_registry detectors =
    let supported = map supported_types detectors in
    record { detectors = detectors; supported = supported; supported_set = union supported }

-- A request's context: what the n-th call of ctx.Err() during the operation returns.
abbrev pub Context : Type 0
Context = ℕ → Option Error

-- `if err := ctx.Err(); err != nil { return err }` before the rest.
abbrev pub unless_stopped {ℓ} : {A : Type ℓ} → Option Error → Result A → Result A
unless_stopped (some e) m = err e
unless_stopped none m = m

unfoldable pub requested_types : Registry → Option (List PiiType) → List PiiType
requested_types r none = r.supported_set
requested_types r (some types) = types

-- coverRequested: whether the detector runs, and the covered types after it.
unfoldable pub cover_requested : List PiiType → List PiiType → List PiiType → Bool × List PiiType
cover_requested [] wanted covered = (false, covered)
cover_requested (typ ∷ types) wanted covered =
    let hit = contains wanted typ in
    let (run, covered') = cover_requested types wanted (if hit then typ ∷ covered else covered) in
    (hit || run, covered')

-- The spans of the model are never negative, and a confidence is a number of hundredths, never NaN
-- or negative: the tests of the source on these are not needed.
unfoldable pub valid_finding : Text → Finding → Bool
unfolding rune_start
valid_finding text f =
    ltb f.start f.stop
    && (leb f.stop (length text)
        && (rune_start (get_or text f.start 0)
            && ((leb (length text) f.stop || rune_start (get_or text f.stop 0))
                && leb f.confidence 100)))

-- A finding of the view, moved to the input.
unfoldable pub to_original : Text → NormalizedText → Finding → Finding
unfolding original_offset
to_original input view f =
    let start = original_offset view f.start in
    let stop = original_offset view f.stop in
    record f { start = start; stop = stop; value = slice input start stop }

unfoldable pub append_original_findings :
    List Finding → Text → NormalizedText → List PiiType → List Finding → Result (List Finding)
unfolding valid_finding to_original
append_original_findings out input view wanted [] = ok out
append_original_findings out input view wanted (f ∷ fs) =
    let skipped = append_original_findings out input view wanted fs in
    let kept =
      append_original_findings (out ++ to_original input view f ∷ []) input view wanted fs in
    if not (contains wanted f.typ)
    then skipped
    else if not (valid_finding view.text f)
    then err other
    else kept

unfoldable pub detector_findings : Detector → Text → Bool → Option (List Finding)
detector_findings d text candidates = elim d.candidates [
  | none ↦ d.detect text
  | some f ↦ if candidates then f text else d.detect text
]

-- One round of the loop, between its two looks at the context; a panic is caught, and fails.
unfoldable pub run_detector :
    Text
    → NormalizedText
    → List PiiType
    → Bool
    → Option Error
    → Detector
    → List Finding
    → Result (List Finding)
unfolding append_original_findings detector_findings
run_detector input view wanted candidates late d out =
    elim (detector_findings d view.text candidates) [
      | none ↦ err other
      | some findings ↦
          unless_stopped late (append_original_findings out input view wanted findings)
    ]

-- The loop over the detectors: what was found, and the covered types.
unfoldable pub collect_loop :
    Context
    → Text
    → NormalizedText
    → List PiiType
    → Bool
    → ℕ
    → List Detector
    → List (List PiiType)
    → List PiiType
    → List Finding
    → Result (List Finding × List PiiType)
unfolding cover_requested run_detector
collect_loop ctx input view wanted candidates n [] supported covered out = ok (out, covered)
collect_loop ctx input view wanted candidates n (d ∷ ds) [] covered out = err other
collect_loop ctx input view wanted candidates n (d ∷ ds) (types ∷ supported) covered out =
    let (run, covered') = cover_requested types wanted covered in
    let skipped = collect_loop ctx input view wanted candidates (n + 1) ds supported covered' out in
    let found = run_detector input view wanted candidates (ctx (n + 1)) d out in
    let ran = found >>= λ out'.
    collect_loop ctx input view wanted candidates (n + 2) ds supported covered' out' in
    unless_stopped (ctx n) (if run then ran else skipped)

unfoldable pub require_all : List PiiType → List Finding × List PiiType → Result (List Finding)
require_all wanted (out, covered) = if all_of (contains covered) wanted then ok out else err other

unfoldable pub collect :
    Unicode → Registry → Context → Text → Option (List PiiType) → Bool → Result (List Finding)
collect u r ctx input types candidates =
    let wanted = requested_types r types in
    let found =
      collect_loop ctx input (normalize_text u input) wanted candidates 0 r.detectors r.supported []
        [] in
    if not (valid_string input) then err other else found >>= require_all wanted
