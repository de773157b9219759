-- ===== src/Config/Validate/Sound.antt =====
-- What a validated configuration guarantees of its systems.
use vibe_alfa_gen.Prelude.{
  ◌≡◌, refl, sym, ap, ◌∙◌, Bool, true, false, not, List, [], ◌∷◌, String, some, All, ◌==◌,
  string_eq, contains, beq_refl, arith,
}
use vibe_alfa_gen.Domain.{Result, ok, err, ◌>>=◌}
use vibe_alfa_gen.Domain.Results.{>>=-eq-ok, >>-eq-ok, ok-value}
use vibe_alfa_gen.Policy.{validate_contract}
use vibe_alfa_gen.Policy.Contract.{IsSound, validate_contract-IsSound}
use vibe_alfa_gen.Policy.System.{SystemPolicy, contract, validate_policy}
use vibe_alfa_gen.Config.{Config, SystemConfig}
use vibe_alfa_gen.Config.Secrets.{Host}
use vibe_alfa_gen.Config.Validate.{require, all_valid_types}
use vibe_alfa_gen.Config.Validate.Systems.{
  drafted, build_policy, find_system, with_contract, policy_for, validate_system, or_other,
  validate_each, validate_systems,
}

-- A system of the configuration: the first with its ID, with a policy whose contract is sound.
pub record IsChecked (c : Config) (s : SystemConfig) : Type 0 where
  pub built : build_policy s ≡ ok (drafted s)
  pub named : (s.id == "") ≡ false
  pub accepted :
      validate_contract (contract (with_contract c (drafted s))) (all_valid_types c) ≡ ok tt
  pub sound : IsSound (contract (with_contract c (drafted s))) (all_valid_types c)

-- No ID comes twice, or was seen before.
abbrev Unrepeated : List String → List SystemConfig → Type 0
Unrepeated seen [] = Unit
Unrepeated seen (s ∷ systems) = (contains seen s.id ≡ false) × Unrepeated (s.id ∷ seen) systems

-- The policy of an ID was found, and its contract accepted.
abbrev HasContract : Config → SystemConfig → Type 0
HasContract c s =
    ((s.id == "") ≡ false)
    × (p : SystemPolicy) × (policy_for c s.id ≡ ok p)
    × (validate_contract (contract p) (all_valid_types c) ≡ ok tt)

pub require-eq-ok : (b : Bool) → require b ≡ ok tt → b ≡ true
require-eq-ok true h = refl
require-eq-ok false h = absurd (cc h)

or_other-eq-ok : (x : Result (Unit {0})) → or_other x ≡ ok tt → x ≡ ok tt
or_other-eq-ok (ok u) h = refl
or_other-eq-ok (err e) h = absurd (cc h)

validate_each-HasContract :
    (host : Host) (c : Config) (seen : List String) (systems : List SystemConfig)
    (out : List String)
    → validate_each host c seen systems ≡ ok out
    → Unrepeated seen systems × All (HasContract c) systems
unfolding validate_each
validate_each-HasContract host c seen [] out h = (tt, tt)
validate_each-HasContract host c seen (s ∷ systems) out h =
    let (front, rest) = >>-eq-ok _ (validate_each host c (s.id ∷ seen) systems) out h in
    let (front1, checked) =
      >>-eq-ok _
        (policy_for c s.id >>= λ p. or_other (validate_contract (contract p) (all_valid_types c)))
        tt front in
    let (front2, system) = >>-eq-ok _ (validate_system host s (all_valid_types c)) tt front1 in
    let (named, fresh) =
      >>-eq-ok (require (not (s.id == ""))) (require (not (contains seen s.id))) tt front2 in
    let (p, found, accepted) =
      >>=-eq-ok (policy_for c s.id)
        (λ p. or_other (validate_contract (contract p) (all_valid_types c))) tt checked in
    let (unrepeated, contracts) = validate_each-HasContract host c (s.id ∷ seen) systems out rest in
    (
      (ground (arith, require-eq-ok (not (contains seen s.id)) fresh), unrepeated),
      (
        (
          ground (arith, require-eq-ok (not (s.id == "")) named),
          p,
          found,
          or_other-eq-ok _ accepted,
        ),
        contracts,
      ),
    )

-- A system is the first with its ID.
abbrev IsFirst : List SystemConfig → List String → SystemConfig → Type 0
IsFirst systems seen s = (contains seen s.id ≡ false) × (find_system s.id systems ≡ some s)

-- Behind a system with another ID, the first one is the same.
IsFirst-behind :
    (seen : List String) (s : SystemConfig) (systems more : List SystemConfig)
    → All (IsFirst systems (s.id ∷ seen)) more
    → All (IsFirst (s ∷ systems) seen) more
unfolding contains find_system
IsFirst-behind seen s systems [] h = tt
IsFirst-behind seen s systems (t ∷ more) ((fresh, found), h) =
    let other_id : (s.id == t.id) ≡ false = ground arith in
    ((ground arith, rw other_id found), IsFirst-behind seen s systems more h)

Unrepeated-IsFirst :
    (seen : List String) (systems : List SystemConfig)
    → Unrepeated seen systems
    → All (IsFirst systems seen) systems
Unrepeated-IsFirst seen [] h = tt
Unrepeated-IsFirst seen (s ∷ systems) (fresh, h) = (
  (fresh, unfold find_system in rw (beq_refl s.id) refl),
  IsFirst-behind seen s systems systems (Unrepeated-IsFirst (s.id ∷ seen) systems h),
)

build_policy-drafted : (s : SystemConfig) (p : SystemPolicy) → build_policy s ≡ ok p → p ≡ drafted s
unfolding build_policy
build_policy-drafted s p h =
    let (checked, same) = >>-eq-ok (validate_policy (drafted s)) (ok (drafted s)) p h in
    sym (ok-value same)

-- A system that is the first with its ID, and whose policy has an accepted contract.
HasContract-IsChecked :
    (c : Config) (s : SystemConfig)
    → find_system s.id c.systems ≡ some s
    → HasContract c s
    → IsChecked c s
unfolding policy_for
HasContract-IsChecked c s found (named, p, given, accepted) =
    let here : (build_policy s >>= λ q. ok (with_contract c q)) ≡ ok p =
      rw (policy_for, found) at given in
    let (q, built, same) = >>=-eq-ok (build_policy s) (λ q. ok (with_contract c q)) p here in
    let drawn = build_policy-drafted s q built in
    let final : with_contract c (drafted s) ≡ p =
      ap (with_contract c) (sym drawn) ∙ ok-value same in
    record {
      built = built ∙ ap ok drawn;
      named = named;
      accepted = rw final accepted;
      sound =
          validate_contract-IsSound (contract (with_contract c (drafted s))) (all_valid_types c)
            (rw final accepted);
    }

All-IsChecked :
    (c : Config) (systems more : List SystemConfig)
    → systems ≡ c.systems
    → All (IsFirst systems []) more
    → All (HasContract c) more
    → All (λ s. (find_system s.id c.systems ≡ some s) × IsChecked c s) more
All-IsChecked c systems [] e f h = tt
All-IsChecked c systems (s ∷ more) e ((fresh, found), f) (one, h) =
    let here : find_system s.id c.systems ≡ some s = rw (← e) found in
    ((here, HasContract-IsChecked c s here one), All-IsChecked c systems more e f h)

-- The systems of a configuration that Validate accepts: each is the one that its ID names, and has a sound
-- policy.
abbrev pub IsValid : Config → Type 0
IsValid c = All (λ s. (find_system s.id c.systems ≡ some s) × IsChecked c s) c.systems

pub validate_systems-IsValid :
    (host : Host) (c : Config) → validate_systems host c ≡ ok tt → IsValid c
unfolding validate_systems
validate_systems-IsValid host c h =
    let (front, rest) =
      >>-eq-ok _
        (validate_each host c [] c.systems >>= λ seen. require (contains seen c.default_system)) tt
        h in
    let (out, each, last) =
      >>=-eq-ok (validate_each host c [] c.systems)
        (λ seen. require (contains seen c.default_system)) tt rest in
    let (unrepeated, contracts) = validate_each-HasContract host c [] c.systems out each in
    All-IsChecked c c.systems c.systems refl (Unrepeated-IsFirst [] c.systems unrepeated) contracts
