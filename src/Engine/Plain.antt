-- ===== src/Engine/Plain.antt =====
-- The masking loop without tokens: each finding is replaced by the mask of its value.
use vibe_alfa_gen.Prelude.{
  ℕ, suc, ◌≡◌, sym, ap, ◌∙◌, false, List, [], ◌∷◌, ◌++◌, append_assoc, nat_eq, slice, drop,
}
use vibe_alfa_gen.Domain.{Finding, Policy, ok}
use vibe_alfa_gen.Text.{Text}
use vibe_alfa_gen.Masking.{mask_value}
use vibe_alfa_gen.Registry.{Registry, Context}
use vibe_alfa_gen.Engine.{
  Machine, Call, Writer, Masking, write_finding, write_findings, write_masked,
}
use vibe_alfa_gen.Engine.Steps.{ok-injective, unless_stopped-eq-ok}
use vibe_alfa_gen.Domain.Results.{>>=-eq-ok}
use vibe_alfa_gen.Engine.Pieces.{splice, finish-made, start}

module _ (m : Machine) (r : Registry) (text : Text) where
  -- The masks of the values of the findings.
  abbrev pub masks_of : List Finding → List Text
  masks_of [] = []
  masks_of (f ∷ fs) = mask_value m.unicode f.typ (slice text f.start f.stop) ∷ masks_of fs

  write_findings-splice :
      (ctx : Context) (n : ℕ) (fs : List Finding) (w w' : Writer)
      → write_findings m r ctx n text false fs w ≡ ok w'
      → w'.out ++ drop w'.cursor text ≡ w.out ++ splice text w.cursor fs (masks_of fs)
  unfolding write_findings write_finding
  write_findings-splice ctx n [] w w' e =
      ap (λ (x : Writer). x.out ++ drop x.cursor text) (sym (ok-injective e))
  write_findings-splice ctx n (f ∷ fs) w w' e =
      let piece = mask_value m.unicode f.typ (slice text f.start f.stop) in
      let (w1, first, rest) =
        >>=-eq-ok (write_finding m r text false f w) (write_findings m r ctx (suc n) text false fs)
          w' (unless_stopped-eq-ok (ctx n) _ w' e) in
      let is_next : w1
          ≡ record w { out = (w.out ++ slice text w.cursor f.start) ++ piece; cursor = f.stop } =
        sym (ok-injective first) in
      write_findings-splice ctx (suc n) fs w1 w' rest
      ∙ ap (λ (x : Writer). x.out ++ splice text x.cursor fs (masks_of fs)) is_next
      ∙ append_assoc (w.out ++ slice text w.cursor f.start) piece
          (splice text f.stop fs (masks_of fs))
      ∙ append_assoc w.out (slice text w.cursor f.start)
          (piece ++ splice text f.stop fs (masks_of fs))

  -- Without a nonce, a mask that was made is the text with the mask of its value in place of each
  -- finding.
  pub write_masked-splice :
      (c : Call) (pol : Policy) (fs : List Finding) (made : Masking)
      → write_masked m r c text pol fs [] ≡ ok made
      → made.masked ≡ splice text 0 fs (masks_of fs)
  unfolding write_masked
  write_masked-splice c pol fs made h =
      let (w, written, last) =
        >>=-eq-ok (write_findings m r c.masking 0 text false fs (start m r text [])) _ made h in
      (finish-made m r text c pol fs [] w made last).0
      ∙ write_findings-splice c.masking 0 fs (start m r text []) w written
