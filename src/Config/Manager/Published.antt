-- ===== src/Config/Manager/Published.antt =====
-- The consumers of a snapshot.
use vibe_alfa_gen.Prelude.{
  ◌≡◌, refl, sym, ap, ◌∙◌, Bool, true, false, not, ◌&&◌, ◌||◌, List, [], ◌∷◌, String, Option, none,
  some, All, string_eq, nat_eq, inl, inr, Bool-cases, Option-cases, arith, lookup, insert,
  lookup-insert_cases, contains,
}
use vibe_alfa_gen.Domain.{Result, ok, err}
use vibe_alfa_gen.Domain.Results.{>>=-eq-ok, >>-eq-ok, ok-value}
use vibe_alfa_gen.Text.{Text}
use vibe_alfa_gen.Policy.System.{SystemPolicy, contract}
use vibe_alfa_gen.Proxy.{Consumer}
use vibe_alfa_gen.Config.{Config, SystemConfig}
use vibe_alfa_gen.Config.Secrets.{
  Host, is_empty, resolve_secret, read_secret_file, single_line, read_line, trim_newline,
  expand_environment,
}
use vibe_alfa_gen.Config.Validate.{require}
use vibe_alfa_gen.Config.Validate.Systems.{drafted, find_system, with_contract, is_on_unless}
use vibe_alfa_gen.Config.Validate.Sound.{IsChecked, IsValid}
use vibe_alfa_gen.Config.Manager.{
  build_consumer, build_systems, consumer_of, has_access, key_or_empty,
}

or-left : (a b : Bool) → (a || b) ≡ false → a ≡ false
or-left false b h = refl
or-left true b h = h

single_line-filled : (content key : Text) → single_line content ≡ ok key → is_empty key ≡ false
single_line-filled content key h = elim (Bool-cases (is_empty content || contains content 0x0A)) [
  | inl e ↦ absurd (cc (rw e at h))
  | inr e ↦
      let same : content ≡ key = ok-value (rw e at h) in
      ap is_empty (sym same) ∙ or-left (is_empty content) (contains content 0x0A) e
]

read_line-filled :
    (content : Option Text) (key : Text) → read_line content ≡ ok key → is_empty key ≡ false
read_line-filled none key h = absurd (cc h)
read_line-filled (some content) key h = single_line-filled (trim_newline content) key h

read_secret_file-filled :
    (host : Host) (path key : Text) → read_secret_file host path ≡ ok key → is_empty key ≡ false
unfolding read_secret_file
read_secret_file-filled host path key h =
    elim (Bool-cases (is_empty path || not (host.is_abs path))) [
      | inl e ↦ absurd (cc (rw e at h))
      | inr e ↦ elim (Bool-cases (not (host.is_regular path))) [
        | inl e1 ↦ absurd (cc (rw (e, e1) at h))
        | inr e1 ↦ read_line-filled (host.read_file path) key (rw (e, e1) at h)
      ]
    ]

some-value : {A : Type 0} {x y : A} → some x ≡ some y → x ≡ y
some-value p = cc p

-- A secret that was resolved is not empty.
resolve_secret-filled :
    (host : Host) (literal file key : Text)
    → resolve_secret host literal file ≡ ok (some key)
    → is_empty key ≡ false
unfolding resolve_secret
resolve_secret-filled host literal file key h = elim (Bool-cases (not (is_empty literal))) [
  | inl e ↦ elim (Bool-cases (is_empty (expand_environment host literal))) [
    | inl e1 ↦ absurd (cc (rw (e, e1) at h))
    | inr e1 ↦
        let same : expand_environment host literal ≡ key =
          some-value (ok-value (rw (e, e1) at h)) in
        ap is_empty (sym same) ∙ e1
  ]
  | inr e ↦ elim (Bool-cases (not (is_empty file))) [
    | inr e1 ↦ absurd (cc (rw (e, e1) at h))
    | inl e1 ↦
        let (content, found, same) =
          >>=-eq-ok (read_secret_file host file) (λ content. ok (some content)) (some key)
            (rw (e, e1) at h) in
        ap is_empty (sym (some-value (ok-value same)))
        ∙ read_secret_file-filled host file content found
  ]
]

-- What a consumer is that was built for a system of a configuration.
pub record IsConsumerOf (c : Config) (s : SystemConfig) (consumer : Consumer) : Type 0 where
  pub named : consumer.id ≡ s.id
  pub enabled : consumer.enabled ≡ is_on_unless s.enabled
  pub policy : consumer.policy ≡ contract (with_contract c (drafted s))
  pub keyed :
      consumer.enabled ≡ true → s.allow_anonymous ≡ false → is_empty consumer.api_key ≡ false

drafted-enabled :
    (s : SystemConfig) (on : Option Bool) → s.enabled ≡ on → (drafted s).enabled ≡ is_on_unless on
unfolding vibe_alfa_gen.Policy.System.new_policy
drafted-enabled s none e = rw e refl
drafted-enabled s (some b) e = rw e refl

-- The key of a system with access that is not anonymous.
access_keyed :
    (host : Host) (s : SystemConfig) (secret : Result (Option Text))
    → resolve_secret host s.api_key s.api_key_file ≡ secret
    → has_access s.allow_anonymous secret ≡ true
    → s.allow_anonymous ≡ false
    → is_empty (key_or_empty secret) ≡ false
access_keyed host s (err e) r h closed = absurd (cc h)
access_keyed host s (ok none) r h closed = absurd (cc (h, closed))
access_keyed host s (ok (some key)) r h closed =
    resolve_secret-filled host s.api_key s.api_key_file key r

opened : (on access : Bool) → (on && not access) ≡ false → on ≡ true → access ≡ true
opened on access h live = ground arith

consumer_of-IsConsumerOf :
    (host : Host) (c : Config) (s : SystemConfig) (consumer : Consumer)
    → consumer_of host s c.version c.store.ttl (drafted s) ≡ some consumer
    → IsConsumerOf c s consumer
consumer_of-IsConsumerOf host c s consumer h =
    let secret = resolve_secret host s.api_key s.api_key_file in
    let on = drafted-enabled s s.enabled refl in
    elim (Bool-cases (is_on_unless s.enabled && not (has_access s.allow_anonymous secret))) [
      | inl e ↦ absurd (cc (rw e at h))
      | inr e ↦ rw (← some-value (rw e at h)) (record {
        named = refl;
        enabled = on;
        policy = refl;
        keyed = λ live closed.
            access_keyed host s secret refl
              (opened (is_on_unless s.enabled) (has_access s.allow_anonymous secret) e
                (sym on ∙ live))
              closed;
      })
    ]

build_consumer-IsConsumerOf :
    (host : Host) (c : Config) (s : SystemConfig) (consumer : Consumer)
    → IsChecked c s
    → build_consumer host s c.version c.store.ttl ≡ some consumer
    → IsConsumerOf c s consumer
unfolding build_consumer
build_consumer-IsConsumerOf host c s consumer checked h =
    consumer_of-IsConsumerOf host c s consumer (rw (build_consumer, checked.built) at h)

-- A consumer of a snapshot belongs to the system that its ID names.
pub record IsBuilt (c : Config) (id : String) (consumer : Consumer) : Type 0 where
  pub system : SystemConfig
  pub found : find_system id c.systems ≡ some system
  pub checked : IsChecked c system
  pub made : IsConsumerOf c system consumer

abbrev pub AllBuilt : Config → List (String × Consumer) → Type 0
AllBuilt c built =
    (id : String) (consumer : Consumer) → lookup id built ≡ some consumer → IsBuilt c id consumer

insert-AllBuilt :
    (host : Host) (c : Config) (s : SystemConfig) (consumer : Consumer)
    (built : List (String × Consumer))
    → find_system s.id c.systems ≡ some s
    → IsChecked c s
    → build_consumer host s c.version c.store.ttl ≡ some consumer
    → AllBuilt c built
    → AllBuilt c (insert s.id consumer built)
insert-AllBuilt host c s consumer built found checked made old id other h =
    elim (lookup-insert_cases s.id id consumer other built h) [
      | inl (same_id, same) ↦ record {
        system = s;
        found = rw (← same_id) found;
        checked = checked;
        made = rw (← same) (build_consumer-IsConsumerOf host c s consumer checked made);
      }
      | inr before ↦ old id other before
    ]

build_systems-AllBuilt :
    (host : Host) (c : Config) (systems : List SystemConfig) (built out : List (String × Consumer))
    → All (λ s. (find_system s.id c.systems ≡ some s) × IsChecked c s) systems
    → AllBuilt c built
    → build_systems host c systems built ≡ ok out
    → AllBuilt c out
unfolding build_systems
build_systems-AllBuilt host c [] built out valid old h = rw (← ok-value h) old
build_systems-AllBuilt host c (s ∷ more) built out ((found, checked), valid) old h =
    elim (Option-cases (build_consumer host s c.version c.store.ttl)) [
      | inl e ↦
          let (skipped, rest) =
            >>-eq-ok (require (not (is_on_unless s.enabled))) (build_systems host c more built) out
              (rw (build_systems, e) at h) in
          build_systems-AllBuilt host c more built out valid old rest
      | inr (consumer, e) ↦
          build_systems-AllBuilt host c more (insert s.id consumer built) out valid
            (insert-AllBuilt host c s consumer built found checked e old)
            (rw (build_systems, e) at h)
    ]

-- Every consumer that is built for a valid configuration belongs to the system with its ID.
pub build_systems-IsBuilt :
    (host : Host) (c : Config) (out : List (String × Consumer))
    → IsValid c
    → build_systems host c c.systems [] ≡ ok out
    → AllBuilt c out
build_systems-IsBuilt host c out valid h =
    build_systems-AllBuilt host c c.systems [] out valid
      (unfold lookup in λ id consumer none_there. absurd (cc none_there)) h
