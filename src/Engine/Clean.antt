-- ===== src/Engine/Clean.antt =====
-- What the check of verify.go leaves in a mask.
use vibe_alfa_gen.Prelude.{
  ◌<◌, ◌≡◌, refl, Bool, false, not, List, [], ◌∷◌, ◌++◌, some, inl, inr, Bool-cases, arith, All,
  keep, leb, length, drop, nat_eq, ◌==◌, if◌then◌else◌,
}
use vibe_alfa_gen.Domain.{Finding, Policy, Result, ok, err, detection_unavailable}
use vibe_alfa_gen.Text.{Text}
use vibe_alfa_gen.Markers.{hide_markers}
use vibe_alfa_gen.Context.{threshold, filter_confidence}
use vibe_alfa_gen.Registry.{Registry, collect}
use vibe_alfa_gen.Engine.{
  Machine, Call, Masking, verify, verification_types, write_masked, write_findings,
}
use vibe_alfa_gen.Engine.Steps.{unless_stopped-eq-ok}
use vibe_alfa_gen.Domain.Results.{>>=-eq-ok}
use vibe_alfa_gen.Engine.Pieces.{finish-made, start}

module _ {A : Type 0} (p : A → Bool) where
  none_kept : (xs : List A) → length (keep p xs) ≡ 0 → All (λ x. p x ≡ false) xs
  none_kept [] h = tt
  none_kept (x ∷ xs) h = elim (Bool-cases (p x)) [
    | inl e ↦ absurd (omega (arith, rw e at h))
    | inr e ↦ (e, none_kept xs (rw e at h))
  ]

All-weaken :
    (P Q : Finding → Type 0) (fs : List Finding) → ((f : Finding) → P f → Q f) → All P fs → All Q fs
All-weaken P Q [] h k = tt
All-weaken P Q (f ∷ fs) h (k, rest) = (h f k, All-weaken P Q fs h rest)

-- The finding is too uncertain for the profile.
abbrev pub IsUncertain : Policy → Finding → Type 0
IsUncertain pol f = f.confidence < threshold pol.detection_profile f.typ

few-IsUncertain :
    (pol : Policy) (fs : List Finding)
    → length (filter_confidence fs pol.detection_profile) ≡ 0
    → All (IsUncertain pol) fs
unfolding filter_confidence
few-IsUncertain pol fs h =
    All-weaken _ (IsUncertain pol) fs (λ f e. ground (arith, e))
      (none_kept (λ f. leb (threshold pol.detection_profile f.typ) f.confidence) fs h)

-- The recognizers ran on the text without its markers, and found nothing that is certain enough.
abbrev pub IsClean : Machine → Registry → Call → Policy → List Finding → Text → Type 0
IsClean m r c pol fs text =
    (found : List Finding) × (collect m.unicode r c.verifying (hide_markers text)
        (some (verification_types pol fs)) false
      ≡ ok found)
    × All (IsUncertain pol) found

checked :
    (pol : Policy) (answer : Result (List Finding))
    → ◌≡◌ {A = Result (Unit {0})}
        (elim answer [
          | err _ ↦ err detection_unavailable
          | ok found ↦
              if length (filter_confidence found pol.detection_profile) == 0
              then ok tt
              else err detection_unavailable
        ])
        (ok tt)
    → (found : List Finding) × (answer ≡ ok found) × All (IsUncertain pol) found
checked pol (err e) h = absurd (cc h)
checked pol (ok found) h =
    elim (Bool-cases (length (filter_confidence found pol.detection_profile) == 0)) [
      | inl e ↦ (found, refl, few-IsUncertain pol found (ground (arith, e)))
      | inr e ↦ absurd (cc (rw e at h))
    ]

module _ (m : Machine) (r : Registry) where
  verify-IsClean :
      (c : Call) (text : Text) (pol : Policy) (fs : List Finding)
      → (length (verification_types pol fs) == 0) ≡ false
      → verify m r c text pol fs ≡ ok tt
      → IsClean m r c pol fs text
  unfolding verify
  verify-IsClean c text pol fs some_type h =
      checked pol _ (rw some_type at (unless_stopped-eq-ok c.after_verify _ tt h))

  -- Where a mask of some findings was made, and the policy leaves a type to be verified, the exact
  -- recognizers of these types ran on the masked text without its markers, and each finding that
  -- they had there is below the threshold of the profile.
  pub write_masked-IsClean :
      (c : Call) (text : Text) (pol : Policy) (fs : List Finding) (nonce : Text) (made : Masking)
      → (length fs == 0) ≡ false
      → (length (verification_types pol fs) == 0) ≡ false
      → write_masked m r c text pol fs nonce ≡ ok made
      → IsClean m r c pol fs made.masked
  unfolding write_masked
  write_masked-IsClean c text pol fs nonce made some_finding some_type h =
      let (w, written, last) =
        >>=-eq-ok
          (write_findings m r c.masking 0 text (not (length nonce == 0)) fs (start m r text nonce))
          _ made h in
      let (u, verified, _) =
        >>=-eq-ok (verify m r c (w.out ++ drop w.cursor text) pol fs) _ made
          (rw some_finding at last) in
      rw ((finish-made m r text c pol fs nonce w made last).0)
        (verify-IsClean c (w.out ++ drop w.cursor text) pol fs some_type verified)
