-- ===== src/Proxy/Policies.antt =====
-- The policies of the clients that the server admits, from the snapshots of a manager.
use vibe_alfa_gen.Prelude.{
  ◌≡◌, refl, sym, ap, ◌∙◌, true, false, not, ◌&&◌, List, [], ◌∷◌, ◌++◌, String, Option, none, some,
  inl, inr, Bool-cases, ◌==◌, string_eq, text_eq, nat_eq, length, contains, map, eq_of_beq,
  and-left, and-right,
}
use vibe_alfa_gen.Domain.{ok}
use vibe_alfa_gen.Text.{Text}
use vibe_alfa_gen.Registry.{Registry}
use vibe_alfa_gen.Engine.{validate}
use vibe_alfa_gen.Policy.{validate_contract}
use vibe_alfa_gen.Policy.Same.{SameTypes, validate_contract-SameTypes}
use vibe_alfa_gen.Policy.System.{builtin_types}
use vibe_alfa_gen.Config.{Config, CustomPiiType}
use vibe_alfa_gen.Config.Validate.{all_valid_types, typ_of}
use vibe_alfa_gen.Config.Manager.{Decoders, Manager, resolve_snapshot}
use vibe_alfa_gen.Config.Manager.Equal.{same_list, same_custom, immutable_equal}
use vibe_alfa_gen.Config.Manager.Reloads.{Reach, HasFixed, Reach-IsServing}
use vibe_alfa_gen.Proxy.{Consumer, HttpRequest}
use vibe_alfa_gen.Proxy.Handlers.{Server, pass, authenticate, requested_id, consumer, scope_of}

-- Lists of configured types that compare as equal have the same names.
same_list-types :
    (a b : List CustomPiiType) → same_list same_custom a b ≡ true → map typ_of a ≡ map typ_of b
unfolding same_list
same_list-types [] [] h = refl
same_list-types [] (y ∷ b) h = absurd (cc h)
same_list-types (x ∷ a) [] h = absurd (cc h)
same_list-types (x ∷ a) (y ∷ b) h =
    let same_name = eq_of_beq x.typ y.typ (
      and-left (x.typ == y.typ) (x.pattern == y.pattern && x.confidence == y.confidence)
        (and-left (same_custom x y) (same_list same_custom a b) h)) in
    rw (same_name, same_list-types a b (and-right (same_custom x y) (same_list same_custom a b) h))
      refl

-- A reload does not change the types that policies may name.
HasFixed-all_valid_types :
    (c initial : Config) → HasFixed c initial → all_valid_types c ≡ all_valid_types initial
unfolding all_valid_types immutable_equal
HasFixed-all_valid_types c initial (inl same) = ap all_valid_types same
HasFixed-all_valid_types c initial (inr equal) =
    let customs = same_list same_custom c.custom_pii_types initial.custom_pii_types in
    let last = customs && c.default_system == initial.default_system in
    ap (λ types. builtin_types ++ types)
      (same_list-types c.custom_pii_types initial.custom_pii_types (
        and-left customs (c.default_system == initial.default_system)
          (and-right _ last (and-right _ _ equal))))

guard-value : {x y : Consumer} → pass x ≡ pass y → x ≡ y
guard-value p = cc p

authenticate-pass :
    (req : HttpRequest) (found : Option Consumer) (c : Consumer)
    → authenticate req found ≡ pass c
    → found ≡ some c
authenticate-pass req none c h = absurd (cc h)
authenticate-pass req (some x) c h = elim (Bool-cases (not x.enabled)) [
  | inl e ↦ absurd (cc (rw e at h))
  | inr e ↦ elim (Bool-cases (not (length x.api_key == 0) && not (req.api_key == x.api_key))) [
    | inl e1 ↦ absurd (cc (rw (e, e1) at h))
    | inr e1 ↦ ap some (guard-value (rw (e, e1) at h))
  ]
]

-- A client that is admitted was resolved.
consumer-pass :
    (s : Server) (req : HttpRequest) (resolve : String → Option Consumer) (c : Consumer)
    → s.systems ≡ some resolve
    → consumer s req ≡ pass c
    → resolve (requested_id s req) ≡ some c
unfolding consumer
consumer-pass s req resolve c systems h = elim (Bool-cases s.draining) [
  | inl e ↦ absurd (cc (rw (consumer, e) at h))
  | inr e ↦ elim (Bool-cases (not (req.method == "POST"))) [
    | inl e1 ↦ absurd (cc (rw (consumer, e, e1) at h))
    | inr e1 ↦ elim (Bool-cases (not s.has_processor)) [
      | inl e2 ↦ absurd (cc (rw (consumer, e, e1, e2) at h))
      | inr e2 ↦
          authenticate-pass req (resolve (requested_id s req)) c
            (rw (consumer, e, e1, e2, systems) at h)
    ]
  ]
]

-- Where a server takes its clients from a manager, after any reloads, and its registry supports the types
-- of the configuration that the manager was started with: the policy of every client that is admitted is one that the
-- Processor accepts, for every context ID that is not empty.
pub validate-consumer :
    (decoders : Decoders) (start m : Manager) (r : Registry) (s : Server) (req : HttpRequest)
    (c : Consumer) (id : Text)
    → Reach decoders start m
    → SameTypes r.supported_set (all_valid_types start.initial)
    → s.systems ≡ some (resolve_snapshot m)
    → consumer s req ≡ pass c
    → (s.name id == "") ≡ false
    → validate r (scope_of s c id) ≡ ok tt
unfolding validate
validate-consumer decoders start m r s req c id reached types systems admitted filled =
    let serving = Reach-IsServing decoders start m reached in
    let resolved = consumer-pass s req (resolve_snapshot m) c systems admitted in
    let built = serving.snapshot.built (requested_id s req) c resolved in
    let system = built.system in
    let fixed = HasFixed-all_valid_types serving.config start.initial serving.fixed in
    let same : SameTypes r.supported_set (all_valid_types serving.config) =
      λ t. types t ∙ ap (λ valid. contains valid t) (sym fixed) in
    let has_id : (c.id == "") ≡ false = rw built.made.named built.checked.named in
    let accepted =
      ap (λ pol. validate_contract pol r.supported_set) built.made.policy
      ∙ validate_contract-SameTypes _ r.supported_set (all_valid_types serving.config) same
      ∙ built.checked.accepted in
    rw (has_id, filled) accepted
