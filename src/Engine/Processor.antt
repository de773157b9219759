-- ===== src/Engine/Processor.antt =====
-- internal/pii/engine/processor.go: the operations of the Processor over its store.
use vibe_alfa_gen.Prelude.{
  ◌+◌, Bool, true, false, not, ◌&&◌, [], String, Option, none, some, if◌then◌else◌, ◌==◌, text_eq,
}
use vibe_alfa_gen.Domain.{
  Policy, Scope, Error, Result, ok, err, ◌>>=◌, conflict, context_gone, detection_unavailable,
}
use vibe_alfa_gen.Text.{Text}
use vibe_alfa_gen.Registry.{Registry, unless_stopped}
use vibe_alfa_gen.Store.{Record}
use vibe_alfa_gen.Store.Interface.{StoreOps}
use vibe_alfa_gen.Markers.{find_markers, hide_marker_spans, restore_tokens}
use vibe_alfa_gen.Engine.{
  Machine, Call, Masking, key, validate, or_unavailable, unexpired, usable, detect, mask,
  findings_cross_markers, redact_from, process_existing,
}

-- contracts.Masked
pub record Masked : Type 0 where
  pub text : Text
  pub context_id : String
  pub policy_version : String

-- The record of a new context.
unfoldable pub new_record : Call → Text → Policy → Masking → Record
new_record c text pol made = record {
  original = text;
  masked = made.masked;
  findings = [];
  transform_map = made.mapping;
  token_nonce = made.nonce;
  created_at = c.now;
  expires_at = c.now + pol.ttl;
  policy_version = pol.version;
}

-- A step on the store, then a step on its result, which an error skips.
infixl 5 ◌>>>◌
abbrev pub ◌>>>◌ : {S A B : Type 0} → Result A × S → (A → S → Result B × S) → Result B × S
(ok a, s) >>> f = f a s
(err e, s) >>> f = (err e, s)

abbrev pub stop_or : {S A : Type 0} → Option Error → S → Result A × S → Result A × S
stop_or none s rest = rest
stop_or (some e) s rest = (err e, s)

module _ (m : Machine) (r : Registry) {S : Type 0} (ops : StoreOps S) where
  unfoldable pub read : Call → S → String → Result (Option Record) × S
  read c s id =
      let (found, s') = ops.get s c.now id in
      stop_or c.before_read s
        (unless_stopped c.after_read (or_unavailable found >>= λ rec. ok (unexpired c.now rec)), s')

  unfoldable pub save : Call → S → String → Record → Result (Record × Bool) × S
  save c s id rec =
      let (saved, s') = ops.create_if_absent s c.now id rec in
      stop_or c.before_save s
        (unless_stopped c.after_save (or_unavailable saved >>= usable c.now), s')

  unfoldable pub create : Call → S → String → Scope → Text → Bool → Result Record × S
  create c s id scope text force = (mask m r c text scope.policy force, s) >>> λ made s1.
      save c s1 id (new_record c text scope.policy made) >>> λ saved s2. (ok saved.0, s2)

  abbrev pub or_create : Call → String → Scope → Text → Bool → Option Record → S → Result Record × S
  or_create c id scope text force (some rec) s = (ok rec, s)
  or_create c id scope text force none s = create c s id scope text force

  -- The record of the ID, made by masking the text and saved if there is none.
  unfoldable pub find_or_create : Call → S → String → Scope → Text → Bool → Result Record × S
  find_or_create c s id scope text force = read c s id >>> or_create c id scope text force

  unfoldable pub process : Call → S → Scope → Text → Result Text × S
  process c s scope text = (validate r scope, s) >>> λ _ s0.
      find_or_create c s0 (key m scope "process") scope text false >>> λ rec s1.
      (process_existing rec text scope.policy.allow_demask, s1)

  unfoldable pub mask_text : Call → S → Scope → Text → Result Masked × S
  mask_text c s scope text = (validate r scope, s) >>> λ _ s0.
      find_or_create c s0 (key m scope "generate") scope text true >>> λ rec s1. (
        if not (rec.original == text)
            then err conflict
            else ok (record {
              text = rec.masked;
              context_id = scope.context_id;
              policy_version = rec.policy_version;
            }),
        s1,
      )

  -- What Demask does with text that is not the saved mask.
  unfoldable pub sanitize : Call → Scope → Record → Text → Result Text
  sanitize c scope rec text =
      let spans = find_markers text in
      detect m r c (hide_marker_spans text spans) scope.policy >>= λ findings.
      if findings_cross_markers findings spans
      then err detection_unavailable
      else (let result = redact_from text 0 findings in
          unless_stopped c.before_restore (
            if not scope.policy.allow_demask
            then ok result
            else ok (restore_tokens m.unicode result rec.transform_map)))

  unfoldable pub demask : Call → S → Scope → Text → Result Text × S
  demask c s scope text = (validate r scope, s) >>> λ _ s0.
      read c s0 (key m scope "generate") >>> λ found s1. elim found [
        | none ↦ (err context_gone, s1)
        | some rec ↦
            if scope.policy.allow_demask && text == rec.masked
            then (ok rec.original, s1)
            else (sanitize c scope rec text, s1)
      ]
