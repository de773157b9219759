-- ===== src/Config/Manager/Keyed.antt =====
-- Whose access must be resolved for a snapshot to be built.
use vibe_alfa_gen.Prelude.{
  ◌≡◌, refl, Bool, true, false, not, ◌&&◌, List, [], ◌∷◌, String, none, some, All, arith,
  Bool-cases, Option-cases, inl, inr, string_eq, insert,
}
use vibe_alfa_gen.Domain.{ok}
use vibe_alfa_gen.Domain.Results.{>>-eq-ok}
use vibe_alfa_gen.Proxy.{Consumer}
use vibe_alfa_gen.Config.{Config, SystemConfig}
use vibe_alfa_gen.Config.Secrets.{Host, resolve_secret}
use vibe_alfa_gen.Config.Validate.{require}
use vibe_alfa_gen.Config.Validate.Systems.{find_system, is_on_unless}
use vibe_alfa_gen.Config.Validate.Sound.{IsChecked, require-eq-ok}
use vibe_alfa_gen.Config.Manager.{build_consumer, build_systems, has_access}

-- The access to a system, if it is enabled, is by a secret that is found, or anonymous.
abbrev pub IsKeyed : Host → SystemConfig → Type 0
IsKeyed host s =
    is_on_unless s.enabled ≡ true
    → has_access s.allow_anonymous (resolve_secret host s.api_key s.api_key_file) ≡ true

abbrev closed : Host → SystemConfig → Bool
closed host s =
    is_on_unless s.enabled
    && not (has_access s.allow_anonymous (resolve_secret host s.api_key s.api_key_file))

abbrev AllChecked : Config → List SystemConfig → Type 0
AllChecked c = All (λ s. (find_system s.id c.systems ≡ some s) × IsChecked c s)

module _ (host : Host) (c : Config) (s : SystemConfig) (checked : IsChecked c s) where
  build_consumer-closed : closed host s ≡ true → build_consumer host s c.version c.store.ttl ≡ none
  unfolding build_consumer
  build_consumer-closed e = rw (build_consumer, checked.built, e) refl

  build_consumer-open :
      closed host s ≡ false
      → (consumer : Consumer) × (build_consumer host s c.version c.store.ttl ≡ some consumer)
  unfolding build_consumer
  build_consumer-open e = elim (Option-cases (build_consumer host s c.version c.store.ttl)) [
    | inl absent ↦ absurd (cc (rw (build_consumer, checked.built, e) at absent))
    | inr there_now ↦ there_now
  ]

open-keyed : (host : Host) (s : SystemConfig) → closed host s ≡ false → IsKeyed host s
open-keyed host s e on = ground arith

closed-on : (host : Host) (s : SystemConfig) → closed host s ≡ true → is_on_unless s.enabled ≡ true
closed-on host s e = ground arith

closed-keyed : (host : Host) (s : SystemConfig) → closed host s ≡ true → IsKeyed host s → ⊥
closed-keyed host s e k = let access = k (closed-on host s e) in ground arith

-- Where the snapshot is built, the access to every system was resolved.
pub build_systems-keyed :
    (host : Host) (c : Config) (systems : List SystemConfig) (built out : List (String × Consumer))
    → AllChecked c systems
    → build_systems host c systems built ≡ ok out
    → All (IsKeyed host) systems
unfolding build_systems
build_systems-keyed host c [] built out valid h = tt
build_systems-keyed host c (s ∷ more) built out ((_, checked), valid) h =
    elim (Bool-cases (closed host s)) [
      | inl e ↦
          let absent = build_consumer-closed host c s checked e in
          let (off, _) =
            >>-eq-ok (require (not (is_on_unless s.enabled))) (build_systems host c more built) out
              (rw (build_systems, absent) at h) in
          let is_off = require-eq-ok _ off in let on = closed-on host s e in absurd (ground arith)
      | inr e ↦
          let (consumer, made) = build_consumer-open host c s checked e in
          (
            open-keyed host s e,
            build_systems-keyed host c more (insert s.id consumer built) out valid
                (rw (build_systems, made) at h),
          )
    ]

-- Where the access to every system is resolved, the snapshot is built.
pub keyed-build_systems :
    (host : Host) (c : Config) (systems : List SystemConfig) (built : List (String × Consumer))
    → AllChecked c systems
    → All (IsKeyed host) systems
    → (out : List (String × Consumer)) × (build_systems host c systems built ≡ ok out)
unfolding build_systems
keyed-build_systems host c [] built valid keyed = (built, refl)
keyed-build_systems host c (s ∷ more) built ((_, checked), valid) (k, keyed) =
    elim (Bool-cases (closed host s)) [
      | inl e ↦ absurd (closed-keyed host s e k)
      | inr e ↦
          let (consumer, made) = build_consumer-open host c s checked e in
          let (out, rest) =
            keyed-build_systems host c more (insert s.id consumer built) valid keyed in
          (out, rw (build_systems, made) rest)
    ]
