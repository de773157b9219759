-- ===== src/Context/Kept.antt =====
-- What ResolveContext leaves as it is: of a finding it changes the confidence alone.
use vibe_alfa_gen.Prelude.{
  ℕ, ◌-◌, ◌≤◌, ◌≡◌, refl, sym, ap, ◌∙◌, Bool, true, false, not, ◌&&◌, ◌||◌, List, [], ◌∷◌, map, max,
  Bool-cases, inl, inr, arith, if◌then◌else◌, ltb, leb, ◌==◌, nat_eq,
}
use vibe_alfa_gen.Domain.{
  PiiType, Finding, confidence_high, evidence_requires_anchor, evidence_trap, evidence_label,
}
use vibe_alfa_gen.Text.{Text}
use vibe_alfa_gen.Text.Unicode.{Unicode}
use vibe_alfa_gen.Overlap.{stable_sort}
use vibe_alfa_gen.Context.Records.{Patterns, TextRecord, logical_records}
use vibe_alfa_gen.Context.Windows.{local_window}
use vibe_alfa_gen.Context.{
  is_candidate, has_evidence, negative_penalty, negative_outside_value, suppress, promote_by,
  promote, resolve_context,
}

-- A finding with another confidence: `b` is `a` but for it, and is not more confident than `a` and
-- the cap of a promotion.
pub record OnlyConfidence (a b : Finding) : Type 0 where
  pub same : record b { confidence = 0 } ≡ record a { confidence = 0 }
  pub capped : b.confidence ≤ max a.confidence confidence_high
  pub fixed : is_candidate a ≡ false → b ≡ a

-- Two lists that are so related, element by element.
abbrev pub Pairwise : (Finding → Finding → Type 0) → List Finding → List Finding → Type 0
Pairwise R [] [] = Unit
Pairwise R (f ∷ fs) (g ∷ gs) = R f g × Pairwise R fs gs
Pairwise R _ _ = ⊥

unchanged : (f : Finding) → OnlyConfidence f f
unchanged f = record { same = refl; capped = omega arith; fixed = λ _. refl }

is_candidate-same :
    (a b : Finding)
    → record b { confidence = 0 } ≡ record a { confidence = 0 }
    → is_candidate b ≡ is_candidate a
is_candidate-same a b h = ap is_candidate h

then_only : (a b c : Finding) → OnlyConfidence a b → OnlyConfidence b c → OnlyConfidence a c
then_only a b c h g = record {
  same = g.same ∙ h.same;
  capped = omega (arith, h.capped, g.capped);
  fixed = λ e. g.fixed (is_candidate-same a b h.same ∙ e) ∙ h.fixed e;
}

-- A candidate with another confidence.
recast :
    (f : Finding) (n : ℕ)
    → is_candidate f ≡ true
    → n ≤ max f.confidence confidence_high
    → OnlyConfidence f (record f { confidence = n })
recast f n e h = record { same = refl; capped = h; fixed = λ g. absurd (cc (sym e ∙ g)) }

promote_by-OnlyConfidence :
    (seen : List PiiType) (f : Finding)
    → is_candidate f ≡ true
    → OnlyConfidence f (promote_by seen f)
unfolding promote_by
promote_by-OnlyConfidence [] f e = elim (Bool-cases (has_evidence f evidence_requires_anchor)) [
  | inl needed ↦ rw (needed, promote_by) (recast f 0 e (omega arith))
  | inr free ↦ rw (free, promote_by) (unchanged f)
]
promote_by-OnlyConfidence (a ∷ []) f e = recast f _ e (omega arith)
promote_by-OnlyConfidence (a ∷ b ∷ seen) f e = recast f _ e (omega arith)

OnlyConfidence-if :
    (b : Bool) (f x y : Finding)
    → (b ≡ true → OnlyConfidence f x)
    → (b ≡ false → OnlyConfidence f y)
    → OnlyConfidence f (if b then x else y)
OnlyConfidence-if true f x y h g = h refl
OnlyConfidence-if false f x y h g = g refl

negated : (b : Bool) → not b ≡ false → b ≡ true
negated true e = refl
negated false e = cc e

last_of_three : (b c d : Bool) → (b || (c || not d)) ≡ false → d ≡ true
last_of_three false false d e = negated d e
last_of_three true c d e = cc e
last_of_three false true d e = cc e

module _ (u : Unicode) (p : Patterns) (text : Text) (records : List TextRecord) where
  suppress-OnlyConfidence : (f : Finding) → OnlyConfidence f (suppress u p text records f)
  unfolding suppress
  suppress-OnlyConfidence f =
      let window = local_window u text f records in
      OnlyConfidence-if (not (is_candidate f)) f f _ (λ _. unchanged f)
        (λ e.
          OnlyConfidence-if
            (has_evidence f evidence_trap
              || (not (has_evidence f evidence_label)
                  && negative_outside_value u p text f window.0 window.1))
            f (record f { confidence = f.confidence - negative_penalty }) f
            (λ _.
              recast f (f.confidence - negative_penalty) (negated (is_candidate f) e) (omega arith))
            (λ _. unchanged f))

  promote-OnlyConfidence :
      (anchors : List Finding) (f : Finding) → OnlyConfidence f (promote u p text records anchors f)
  unfolding promote
  promote-OnlyConfidence anchors f =
      OnlyConfidence-if
        (f.confidence == 0 || (leb confidence_high f.confidence || not (is_candidate f))) f f _
        (λ _. unchanged f)
        (λ e.
          promote_by-OnlyConfidence _ f (
            last_of_three (f.confidence == 0) (leb confidence_high f.confidence) (is_candidate f)
              e))

  Pairwise-map :
      (g : Finding → Finding) (fs gs : List Finding)
      → ((f : Finding) → OnlyConfidence f (g f))
      → Pairwise OnlyConfidence fs gs
      → Pairwise OnlyConfidence fs (map g gs)
  Pairwise-map g [] [] h k = tt
  Pairwise-map g (a ∷ fs) (b ∷ gs) h (k, rest) =
      (then_only a b (g b) k (h b), Pairwise-map g fs gs h rest)
  Pairwise-map g [] (b ∷ gs) h k = absurd k
  Pairwise-map g (a ∷ fs) [] h k = absurd k

all_unchanged : (fs : List Finding) → Pairwise OnlyConfidence fs fs
all_unchanged [] = tt
all_unchanged (f ∷ fs) = (unchanged f, all_unchanged fs)

-- ResolveContext gives the findings in the order of their starts, with no other change than in
-- their confidences: those of names and addresses alone change, and none comes out above the
-- greater of its own and 0.95.
pub resolve_context-OnlyConfidence :
    (u : Unicode) (p : Patterns) (text : Text) (all : List Finding)
    → Pairwise OnlyConfidence
        (stable_sort (λ f g. ltb f.start g.start) all)
        (resolve_context u p text all)
unfolding resolve_context
resolve_context-OnlyConfidence u p text all =
    let sorted = stable_sort (λ f g. ltb f.start g.start) all in
    let records = logical_records p text in
    let suppressed = map (suppress u p text records) sorted in
    Pairwise-map u p text records _ sorted suppressed (promote-OnlyConfidence u p text records _) (
      Pairwise-map u p text records _ sorted sorted (suppress-OnlyConfidence u p text records)
        (all_unchanged sorted))
