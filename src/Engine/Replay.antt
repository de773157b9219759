-- ===== src/Engine/Replay.antt =====
-- The contexts of the Processor: what later calls with the same ID return.
use vibe_alfa_gen.Prelude.{
  ℕ, true, String, ◌+◌, ◌≤◌, ◌<◌, ◌≡◌, refl, sym, ap, ◌∙◌, Bool, false, not, none, some,
  if◌then◌else◌, ◌==◌, string_eq, text_eq, nat_eq, arith, beq_refl,
}
use vibe_alfa_gen.Domain.{Scope, Result, ok, err, demask_denied, conflict}
use vibe_alfa_gen.Text.{Text}
use vibe_alfa_gen.Registry.{Registry}
use vibe_alfa_gen.Policy.Contract.{validate_contract-IsSound}
use vibe_alfa_gen.Store.{Record, passed}
use vibe_alfa_gen.Store.Interface.{StoreOps, IsStore}
use vibe_alfa_gen.Engine.{Machine, Call, key, validate, process_existing}
use vibe_alfa_gen.Engine.Processor.{Masked, find_or_create, process, mask_text, demask}
use vibe_alfa_gen.Engine.Steps.{
  IsQuiet, >>>-eq-ok, IsCreated, find_or_create-IsCreated, find_or_create_found, ok-injective,
  read_quiet,
}

validate-ttl : (r : Registry) (scope : Scope) → validate r scope ≡ ok tt → 0 < scope.policy.ttl
unfolding validate
validate-ttl r scope h =
    (validate_contract-IsSound scope.policy r.supported_set (ground arith)).keeps

not_passed :
    (now now' ttl expires : ℕ)
    → expires ≡ now + ttl
    → now' < now + ttl
    → passed now' expires ≡ false
unfolding passed
not_passed now now' ttl expires e h = ground arith

process_existing_own :
    (rec : Record) (text : Text) (allow : Bool)
    → rec.original ≡ text
    → process_existing rec text allow ≡ ok rec.masked
unfolding process_existing
process_existing_own rec text allow h = rw (← h, beq_refl rec.original) refl

shown_mask :
    (rec : Record) (scope : Scope) (text : Text) (shown : Masked)
    → rec.original ≡ text
    → ◌≡◌ {A = Result Masked}
        (if not (rec.original == text)
          then err conflict
          else ok (record {
            text = rec.masked;
            context_id = scope.context_id;
            policy_version = rec.policy_version;
          }))
        (ok shown)
    → rec.masked ≡ shown.text
shown_mask rec scope text shown holds h =
    let full = rw (← holds, beq_refl rec.original) at h in
    ap (λ (x : Masked). x.text) (ok-injective full)

module _ (m : Machine) (r : Registry) {S : Type 0} (ops : StoreOps S) (st : IsStore ops) where
  open st use {view}

  -- The first successful call of Process or Mask on a free ID.
  record IsFirst (c : Call) (s : S) (scope : Scope) (namespace : String) (text : Text)
      (result : Text) (s' : S) : Type 0 where
    rec : Record
    created : IsCreated m r ops st c s (key m scope namespace) scope text rec s'
    shows : rec.masked ≡ result
    is_valid : validate r scope ≡ ok tt

  first_seen :
      (c c' : Call) (s s' : S) (scope : Scope) (namespace : String) (text result : Text)
      → (first : IsFirst c s scope namespace text result s') → c.now ≤ c'.now
      → c'.now < c.now + scope.policy.ttl
      → (passed c'.now first.rec.expires_at ≡ false)
        × (view s' c'.now (key m scope namespace) ≡ some first.rec)
  first_seen c c' s s' scope namespace text result first later lasts =
      let alive =
        not_passed c.now c'.now scope.policy.ttl first.rec.expires_at first.created.lasts lasts in
      (
        alive,
        first.created.seen c'.now (key m scope namespace) later
            ∙ rw (beq_refl (key m scope namespace), alive) refl,
      )

  process-IsFirst :
      (c : Call) (s : S) (scope : Scope) (text result : Text) (s' : S)
      → view s c.now (key m scope "process") ≡ none
      → process m r ops c s scope text ≡ (ok result, s')
      → IsFirst c s scope "process" text result s'
  unfolding process
  process-IsFirst c s scope text result s' free h =
      let (u, s0, valid, rest) = >>>-eq-ok (validate r scope, s) _ result s' h in
      let same : s ≡ s0 = ap (λ p. p.1) valid in
      let is_valid : validate r scope ≡ ok tt = ap (λ p. p.0) valid in
      let (rec, s1, found, last) =
        >>>-eq-ok (find_or_create m r ops c s0 (key m scope "process") scope text false) _ result s'
          rest in
      let free0 : view s0 c.now (key m scope "process") ≡ none = rw (← same) free in
      let made =
        find_or_create-IsCreated m r ops st c s0 (key m scope "process") scope text false rec s1
          (validate-ttl r scope is_valid) free0 found in
      let state : s1 ≡ s' = ap (λ p. p.1) last in
      record {
        rec = rec;
        created = rw (same, ← state) made;
        shows = ok-injective (
            sym (process_existing_own rec text scope.policy.allow_demask made.holds)
            ∙ ap (λ p. p.0) last);
        is_valid = is_valid;
      }

  -- After a first successful call of Process on a free ID, and while its context lasts, a call with the
  -- same ID returns the same mask for the same text, the text for the mask if the policy allows it
  -- (the refusal is demask_denied), and a conflict for any other text.
  pub process-process :
      (c c' : Call) (s s' : S) (scope : Scope) (text result t : Text)
      → view s c.now (key m scope "process") ≡ none
      → process m r ops c s scope text ≡ (ok result, s')
      → IsQuiet c'
      → c.now ≤ c'.now
      → c'.now < c.now + scope.policy.ttl
      → (process m r ops c' s' scope t).0 ≡ (
          if text == t
          then ok result
          else if result == t
          then (if not scope.policy.allow_demask then err demask_denied else ok text)
          else err conflict)
  unfolding process
  process-process c c' s s' scope text result t free h q later lasts =
      let first = process-IsFirst c s scope text result s' free h in
      let (alive, here) = first_seen c c' s s' scope "process" text result first later lasts in
      rw
        (
          first.is_valid,
          find_or_create_found m r ops st c' s' (key m scope "process") scope t false first.rec q
              here alive,
          ← first.created.holds,
          ← first.shows,
        )
        (unfold process_existing in refl)

  mask_text_new :
      (c : Call) (s : S) (scope : Scope) (text : Text) (shown : Masked) (s' : S)
      → view s c.now (key m scope "generate") ≡ none
      → mask_text m r ops c s scope text ≡ (ok shown, s')
      → IsFirst c s scope "generate" text shown.text s'
  unfolding mask_text
  mask_text_new c s scope text shown s' free h =
      let (u, s0, valid, rest) = >>>-eq-ok (validate r scope, s) _ shown s' h in
      let same : s ≡ s0 = ap (λ p. p.1) valid in
      let is_valid : validate r scope ≡ ok tt = ap (λ p. p.0) valid in
      let (rec, s1, found, last) =
        >>>-eq-ok (find_or_create m r ops c s0 (key m scope "generate") scope text true) _ shown s'
          rest in
      let free0 : view s0 c.now (key m scope "generate") ≡ none = rw (← same) free in
      let made =
        find_or_create-IsCreated m r ops st c s0 (key m scope "generate") scope text true rec s1
          (validate-ttl r scope is_valid) free0 found in
      let state : s1 ≡ s' = ap (λ p. p.1) last in
      record {
        rec = rec;
        created = rw (same, ← state) made;
        shows = shown_mask rec scope text shown made.holds (ap (λ p. p.0) last);
        is_valid = is_valid;
      }

  -- After a first successful Mask of a text on a free ID, and while its context lasts, Demask with the same
  -- ID and a policy that allows it returns the text for the mask that Mask returned.
  pub demask-mask_text :
      (c c' : Call) (s s' : S) (scope : Scope) (text : Text) (shown : Masked)
      → view s c.now (key m scope "generate") ≡ none
      → mask_text m r ops c s scope text ≡ (ok shown, s')
      → IsQuiet c'
      → c.now ≤ c'.now
      → c'.now < c.now + scope.policy.ttl
      → scope.policy.allow_demask ≡ true
      → (demask m r ops c' s' scope shown.text).0 ≡ ok text
  unfolding demask
  demask-mask_text c c' s s' scope text shown free h q later lasts allow =
      let first = mask_text_new c s scope text shown s' free h in
      let (alive, here) = first_seen c c' s s' scope "generate" text shown.text first later lasts in
      rw
        (
          first.is_valid,
          read_quiet m r ops st c' s' (key m scope "generate") q,
          here,
          alive,
          allow,
          ← first.shows,
          beq_refl first.rec.masked,
          first.created.holds,
        )
        refl
