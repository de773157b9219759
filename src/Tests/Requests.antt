-- ===== src/Tests/Requests.antt =====
-- Calls of the Processor, over the TTL store and one detector.
use vibe_alfa_gen.Prelude.{
  length, ℕ, ◌+◌, ◌<◌, ◌≤◌, ◌≡◌, refl, sym, ◌∙◌, true, false, List, [], ◌∷◌, ◌++◌, String, Option,
  some, none, arith, if◌then◌else◌, ◌==◌, nat_eq, get_or,
}
use vibe_alfa_gen.Markers.{hide_markers}
use vibe_alfa_gen.Tokens.{new_token_table}
use vibe_alfa_gen.Domain.{Finding, Scope, ok}
use vibe_alfa_gen.Text.{Text, codes}
use vibe_alfa_gen.Text.Unicode.{ascii}
use vibe_alfa_gen.Registry.{
  Detector, Registry, new_registry, collect, collect_loop, requested_types,
}
use vibe_alfa_gen.Context.{resolve_context, filter_confidence}
use vibe_alfa_gen.Overlap.{resolve_overlaps}
use vibe_alfa_gen.Policy.{validate_contract, apply}
use vibe_alfa_gen.Store.{TtlStore, new_ttl_store}
use vibe_alfa_gen.Store.Interface.{ttl_ops, ttl_ops-IsStore}
use vibe_alfa_gen.Engine.{
  Machine, Call, Masking, verification_types, key, validate, mask, detect, write_masked,
  write_findings, verify, process_existing,
}
use vibe_alfa_gen.Engine.Processor.{
  Masked, process, mask_text, demask, find_or_create, read, save, create, new_record,
}
use vibe_alfa_gen.Engine.Steps.{ok-injective}
use vibe_alfa_gen.Engine.Pieces.{splice}
use vibe_alfa_gen.Engine.Clean.{IsClean, write_masked-IsClean}
use vibe_alfa_gen.Engine.Plain.{masks_of, write_masked-splice}
use vibe_alfa_gen.Engine.Replay.{process-process, demask-mask_text}
use vibe_alfa_gen.Tests.Masks.{constant_mac}
use vibe_alfa_gen.Tests.Findings.{finding, phones_only}

abbrev joined : List String → String
joined [] = ""
joined (s ∷ []) = s
joined (s ∷ ss) = joined ss

abbrev pub machine : Machine
machine = record {
  unicode = ascii;
  patterns = record {
    person_header = λ t. false;
    field_header = λ t. false;
    negative_context = λ t. false;
  };
  mac = constant_mac;
  digest = joined;
}

-- A detector of seven bytes at the start whose second one is '2'.
abbrev seven_digits : Detector
seven_digits = record {
  typ = "phone";
  multi = none;
  detect = λ text. some (if get_or text 1 0 == 0x32 then finding 0 7 [] ∷ [] else []);
  candidates = none;
}

abbrev pub registry : Registry
registry = new_registry (seven_digits ∷ [])

abbrev pub call_at : ℕ → Call
call_at now = record {
  now = now;
  nonce = some (codes "n");
  before_read = none;
  after_read = none;
  collecting = λ n. none;
  after_collect = none;
  after_filter = none;
  masking = λ n. none;
  verifying = λ n. none;
  after_verify = none;
  before_save = none;
  after_save = none;
  before_restore = none;
}

abbrev pub scope : Scope
scope = record { tenant_id = "acme"; context_id = "c1"; policy = phones_only }

abbrev pub message : Text
message = codes "1234567 x"

abbrev pub empty_store : TtlStore
empty_store = new_ttl_store 10

abbrev pub masked_message : Text
masked_message = codes "1****67 x"

abbrev made : Masking
made = record {
  masked = masked_message;
  mapping = [];
  findings = finding 0 7 (codes "1234567") ∷ [];
  nonce = [];
}

abbrev pub after_process : TtlStore
after_process =
    (ttl_ops.create_if_absent empty_store 1 (key machine scope "process")
      (new_record (call_at 1) message phones_only made)).1

nothing_stored : (id : String) → (ttl_ops.get empty_store 1 id).0 ≡ ok none
unfolding vibe_alfa_gen.Store.get vibe_alfa_gen.Prelude.lookup new_ttl_store
nothing_stored id = refl

pub free : (id : String) → ttl_ops-IsStore.view empty_store 1 id ≡ none
free id = ok-injective (sym (ttl_ops-IsStore.get-view empty_store 1 id) ∙ nothing_stored id)

abbrev pub found : Finding
found = finding 0 7 (codes "1234567")

collected_message :
    collect ascii registry (λ n. none) message phones_only.detect_types true ≡ ok (found ∷ [])
unfolding collect vibe_alfa_gen.Text.Utf8.valid_string collect_loop new_registry
    vibe_alfa_gen.Prelude.contains requested_types vibe_alfa_gen.Normalize.normalize_text
    vibe_alfa_gen.Text.Utf8.positions_from vibe_alfa_gen.Normalize.normalize_rune
    vibe_alfa_gen.Registry.require_all
collected_message = refl

detected_message : detect machine registry (call_at 1) message phones_only ≡ ok (found ∷ [])
unfolding detect resolve_context filter_confidence resolve_overlaps apply
    vibe_alfa_gen.Overlap.sweep vibe_alfa_gen.Overlap.sweep_all collect
    vibe_alfa_gen.Text.Utf8.valid_string collect_loop new_registry vibe_alfa_gen.Prelude.contains
    requested_types vibe_alfa_gen.Normalize.normalize_text vibe_alfa_gen.Text.Utf8.positions_from
    vibe_alfa_gen.Normalize.normalize_rune vibe_alfa_gen.Registry.require_all
    vibe_alfa_gen.Overlap.stable_sort vibe_alfa_gen.Context.threshold vibe_alfa_gen.Context.promote
    vibe_alfa_gen.Context.suppress vibe_alfa_gen.Prelude.lookup
detected_message = rw collected_message refl

collected_mask :
    collect ascii registry (λ n. none) (hide_markers masked_message) (some ("phone" ∷ [])) false
    ≡ ok []
unfolding collect vibe_alfa_gen.Text.Utf8.valid_string hide_markers
    vibe_alfa_gen.Markers.hide_marker_spans vibe_alfa_gen.Markers.hide_from
    vibe_alfa_gen.Markers.find_markers vibe_alfa_gen.Markers.markers_from
    vibe_alfa_gen.Markers.marker_length collect_loop new_registry vibe_alfa_gen.Prelude.contains
    requested_types vibe_alfa_gen.Normalize.normalize_text vibe_alfa_gen.Text.Utf8.positions_from
    vibe_alfa_gen.Normalize.normalize_rune vibe_alfa_gen.Registry.require_all
collected_mask = refl

verified_mask : verify machine registry (call_at 1) masked_message phones_only (found ∷ []) ≡ ok tt
unfolding verify vibe_alfa_gen.Prelude.contains filter_confidence
verified_mask = rw collected_mask refl

written : write_masked machine registry (call_at 1) message phones_only (found ∷ []) [] ≡ ok made
unfolding write_masked write_findings vibe_alfa_gen.Masking.mask_value
    vibe_alfa_gen.Text.Utf8.of_runes vibe_alfa_gen.Masking.mask_phone
    vibe_alfa_gen.Masking.keep_edges vibe_alfa_gen.Text.Utf8.runes new_token_table verify
    vibe_alfa_gen.Prelude.contains filter_confidence collect vibe_alfa_gen.Text.Utf8.valid_string
    hide_markers vibe_alfa_gen.Markers.hide_marker_spans vibe_alfa_gen.Markers.hide_from
    vibe_alfa_gen.Markers.find_markers vibe_alfa_gen.Markers.markers_from
    vibe_alfa_gen.Markers.marker_length collect_loop new_registry requested_types
    vibe_alfa_gen.Normalize.normalize_text vibe_alfa_gen.Text.Utf8.positions_from
    vibe_alfa_gen.Normalize.normalize_rune vibe_alfa_gen.Registry.require_all
written = refl

masked : mask machine registry (call_at 1) message phones_only false ≡ ok made
unfolding mask
masked = rw detected_message written

pub processed :
    process machine registry ttl_ops (call_at 1) empty_store scope message
    ≡ (ok masked_message, after_process)
unfolding process find_or_create read save create new_record validate validate_contract
    process_existing vibe_alfa_gen.Prelude.contains vibe_alfa_gen.Store.create_if_absent
    new_registry vibe_alfa_gen.Prelude.lookup vibe_alfa_gen.Store.get new_ttl_store
processed = rw masked refl

process-process_example :
    (process machine registry ttl_ops (call_at 2) after_process scope masked_message).0 ≡ ok message
process-process_example =
    process-process machine registry ttl_ops ttl_ops-IsStore (call_at 1) (call_at 2) empty_store
      after_process scope message masked_message masked_message (free (key machine scope "process"))
      processed (record { before = refl; after = refl }) (omega arith) (omega arith)

-- Mask works with tokens, even where the policy asks for none; a scope without personal data keeps its
-- text.
abbrev pub plain : Text
plain = codes "hello"

abbrev plain_made : Masking
plain_made = record { masked = plain; mapping = []; findings = []; nonce = codes "n" }

abbrev pub after_mask : TtlStore
after_mask =
    (ttl_ops.create_if_absent empty_store 1 (key machine scope "generate")
      (new_record (call_at 1) plain phones_only plain_made)).1

abbrev pub shown : Masked
shown = record { text = plain; context_id = "c1"; policy_version = "v1" }

collected_plain : collect ascii registry (λ n. none) plain phones_only.detect_types true ≡ ok []
unfolding collect vibe_alfa_gen.Text.Utf8.valid_string collect_loop new_registry
    vibe_alfa_gen.Prelude.contains requested_types vibe_alfa_gen.Normalize.normalize_text
    vibe_alfa_gen.Text.Utf8.positions_from vibe_alfa_gen.Normalize.normalize_rune
    vibe_alfa_gen.Registry.require_all
collected_plain = refl

detected_plain : detect machine registry (call_at 1) plain phones_only ≡ ok []
unfolding detect resolve_context filter_confidence resolve_overlaps apply
    vibe_alfa_gen.Overlap.sweep vibe_alfa_gen.Overlap.sweep_all collect
    vibe_alfa_gen.Text.Utf8.valid_string collect_loop new_registry vibe_alfa_gen.Prelude.contains
    requested_types vibe_alfa_gen.Normalize.normalize_text vibe_alfa_gen.Text.Utf8.positions_from
    vibe_alfa_gen.Normalize.normalize_rune vibe_alfa_gen.Registry.require_all
    vibe_alfa_gen.Overlap.stable_sort
detected_plain = rw collected_plain refl

plain_masked : mask machine registry (call_at 1) plain phones_only true ≡ ok plain_made
unfolding mask write_masked write_findings new_token_table
plain_masked = rw detected_plain refl

pub mask_done :
    mask_text machine registry ttl_ops (call_at 1) empty_store scope plain ≡ (ok shown, after_mask)
unfolding mask_text find_or_create read save create new_record validate validate_contract
    vibe_alfa_gen.Prelude.contains vibe_alfa_gen.Store.create_if_absent new_registry
    vibe_alfa_gen.Prelude.lookup vibe_alfa_gen.Store.get new_ttl_store
mask_done = rw plain_masked refl

demask-mask_text_example :
    (demask machine registry ttl_ops (call_at 2) after_mask scope shown.text).0 ≡ ok plain
demask-mask_text_example =
    demask-mask_text machine registry ttl_ops ttl_ops-IsStore (call_at 1) (call_at 2) empty_store
      after_mask scope plain shown (free (key machine scope "generate")) mask_done
      (record { before = refl; after = refl }) (omega arith) (omega arith) refl

write_masked-splice_example :
    made.masked ≡ splice message 0 (found ∷ []) (masks_of machine registry message (found ∷ []))
write_masked-splice_example =
    write_masked-splice machine registry message (call_at 1) phones_only (found ∷ []) made written

phone_verified : (length (verification_types phones_only (found ∷ [])) == 0) ≡ false
unfolding verification_types vibe_alfa_gen.Prelude.contains
phone_verified = refl

write_masked-IsClean_example :
    IsClean machine registry (call_at 1) phones_only (found ∷ []) made.masked
write_masked-IsClean_example =
    write_masked-IsClean machine registry (call_at 1) message phones_only (found ∷ []) [] made refl
      phone_verified written
