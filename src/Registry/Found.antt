-- ===== src/Registry/Found.antt =====
-- Every finding that Collect returns is of a wanted type and describes a part of the input.
use vibe_alfa_gen.Prelude.{
  ℕ, ◌+◌, ◌≤◌, ◌≡◌, refl, Bool, true, false, not, List, [], ◌∷◌, ◌++◌, Option, none, some,
  if◌then◌else◌, string_eq, length, slice, contains, All, All-append, arith, Bool-cases, inl, inr,
  Option-cases, all_of,
}
use vibe_alfa_gen.Domain.{PiiType, Finding, Error, Result, ok, err, ◌>>=◌}
use vibe_alfa_gen.Text.{Text}
use vibe_alfa_gen.Text.Unicode.{Unicode}
use vibe_alfa_gen.Text.Utf8.{valid_string}
use vibe_alfa_gen.Normalize.{NormalizedText, normalize_text}
use vibe_alfa_gen.Normalize.Offsets.{original_offset_mono}
use vibe_alfa_gen.Registry.{
  Detector, Registry, Context, unless_stopped, requested_types, cover_requested, valid_finding,
  to_original, append_original_findings, detector_findings, run_detector, collect_loop, require_all,
  collect,
}

-- A finding of a wanted type whose span lies in the input and whose value is that part of it.
pub record IsFound (input : Text) (wanted : List PiiType) (f : Finding) : Type 0 where
  pub is_wanted : contains wanted f.typ ≡ true
  pub ordered : f.start ≤ f.stop
  pub inside : f.stop ≤ length input
  pub is_value : f.value ≡ slice input f.start f.stop
  pub is_confidence : f.confidence ≤ 100

-- The property of a successful result.
abbrev pub OnOk {ℓ κ} : {A : Type ℓ} → (A → Type κ) → Result A → Type κ
OnOk P (ok a) = P a
OnOk P (err e) = Unit

module _ {ℓ κ} {A : Type ℓ} (P : A → Type κ) where
  OnOk-unless_stopped :
      (stop : Option Error) (m : Result A) → OnOk P m → OnOk P (unless_stopped stop m)
  OnOk-unless_stopped none m h = h
  OnOk-unless_stopped (some e) m h = tt

  OnOk-if : (b : Bool) (m n : Result A) → OnOk P m → OnOk P n → OnOk P (if b then m else n)
  OnOk-if true m n h k = h
  OnOk-if false m n h k = k

  OnOk-bind {μ ν} :
      {B : Type μ} (Q : B → Type ν) (m : Result B) (f : B → Result A)
      → OnOk Q m
      → ((b : B) → Q b → OnOk P (f b))
      → OnOk P (m >>= f)
  OnOk-bind Q (ok b) f h k = k b h
  OnOk-bind Q (err e) f h k = tt

module _ (u : Unicode) (input : Text) (wanted : List PiiType) where
  abbrev view : NormalizedText
  view = normalize_text u input

  to_original-IsFound :
      (f : Finding)
      → contains wanted f.typ ≡ true
      → valid_finding view.text f ≡ true
      → IsFound input wanted (to_original input view f)
  unfolding to_original valid_finding
  to_original-IsFound f w v =
      let bounds = original_offset_mono u input f.start f.stop (ground arith) (ground arith) in
      record {
        is_wanted = w;
        ordered = bounds.0;
        inside = bounds.1;
        is_value = refl;
        is_confidence = ground arith;
      }

  append-IsFound :
      (out fs : List Finding)
      → All (IsFound input wanted) out
      → OnOk (All (IsFound input wanted)) (append_original_findings out input view wanted fs)
  unfolding append_original_findings
  append-IsFound out [] h = h
  append-IsFound out (f ∷ fs) h = elim (Bool-cases (contains wanted f.typ)) [
    | inr no_want ↦ rw no_want (append-IsFound out fs h)
    | inl want ↦ elim (Bool-cases (valid_finding view.text f)) [
      | inr bad ↦ rw (want, bad) tt
      | inl good ↦
          rw (want, good)
            (append-IsFound (out ++ to_original input view f ∷ []) fs
              (All-append (IsFound input wanted) out _ h (to_original-IsFound f want good, tt)))
    ]
  ]

  run_detector-IsFound :
      (candidates : Bool) (late : Option Error) (d : Detector) (out : List Finding)
      → All (IsFound input wanted) out
      → OnOk (All (IsFound input wanted)) (run_detector input view wanted candidates late d out)
  unfolding run_detector
  run_detector-IsFound candidates late d out h =
      elim (Option-cases (detector_findings d view.text candidates)) [
        | inl panic ↦ rw (panic, run_detector) tt
        | inr (findings, e) ↦
            rw (e, run_detector)
              (OnOk-unless_stopped (All (IsFound input wanted)) late _
                (append-IsFound out findings h))
      ]

  abbrev FirstFound : List Finding × List PiiType → Type 0
  FirstFound p = All (IsFound input wanted) p.0

  collect_loop-IsFound :
      (ctx : Context) (candidates : Bool) (n : ℕ) (ds : List Detector)
      (supported : List (List PiiType)) (covered : List PiiType) (out : List Finding)
      → All (IsFound input wanted) out
      → OnOk FirstFound (collect_loop ctx input view wanted candidates n ds supported covered out)
  unfolding collect_loop
  collect_loop-IsFound ctx candidates n [] supported covered out h = h
  collect_loop-IsFound ctx candidates n (d ∷ ds) [] covered out h = tt
  collect_loop-IsFound ctx candidates n (d ∷ ds) (types ∷ supported) covered out h =
      let covered' = (cover_requested types wanted covered).1 in
      OnOk-unless_stopped FirstFound (ctx n) _ (
        OnOk-if FirstFound (cover_requested types wanted covered).0 _ _
          (OnOk-bind FirstFound (All (IsFound input wanted))
            (run_detector input view wanted candidates (ctx (n + 1)) d out) _
            (run_detector-IsFound candidates (ctx (n + 1)) d out h)
            (λ out' found.
              collect_loop-IsFound ctx candidates (n + 2) ds supported covered' out' found))
          (collect_loop-IsFound ctx candidates (n + 1) ds supported covered' out h))

require_all-OnOk :
    (P : Finding → Type 0) (wanted : List PiiType) (p : List Finding × List PiiType)
    → All P p.0
    → OnOk (All P) (require_all wanted p)
unfolding require_all
require_all-OnOk P wanted (out, covered) h =
    OnOk-if (All P) (all_of (contains covered) wanted) _ _ h tt

collect-OnOk :
    (u : Unicode) (r : Registry) (ctx : Context) (input : Text) (types : Option (List PiiType))
    (candidates : Bool)
    → OnOk (All (IsFound input (requested_types r types))) (collect u r ctx input types candidates)
unfolding collect
collect-OnOk u r ctx input types candidates =
    let wanted = requested_types r types in
    let P = IsFound input wanted in
    OnOk-if (All P) (not (valid_string input)) _ _ tt (
      OnOk-bind (All P) (FirstFound u input wanted) _ (require_all wanted)
        (collect_loop-IsFound u input wanted ctx candidates 0 r.detectors r.supported [] [] tt)
        (λ p found. require_all-OnOk P wanted p found))

-- What Collect and CollectCandidates return is of the requested types, lies in the input, carries
-- the text at its span, and has a confidence of 1 at most.
pub collect-IsFound :
    (u : Unicode) (r : Registry) (ctx : Context) (input : Text) (types : Option (List PiiType))
    (candidates : Bool) (out : List Finding)
    → collect u r ctx input types candidates ≡ ok out
    → All (IsFound input (requested_types r types)) out
collect-IsFound u r ctx input types candidates out h =
    rw h at (collect-OnOk u r ctx input types candidates)
