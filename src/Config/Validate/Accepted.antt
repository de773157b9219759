-- ===== src/Config/Validate/Accepted.antt =====
-- What Validate asks of a configuration besides its systems.
use vibe_alfa_gen.Prelude.{
  sym, Bool, and-left, and-right, length, ◌≡◌, refl, ap, ◌∙◌, ◌⊎◌, inl, inr, true, false, not, ◌&&◌,
  ◌||◌, List, [], ◌∷◌, String, Option, none, some, if◌then◌else◌, All, ◌==◌, string_eq, nat_eq,
  lookup, contains, is_positive, is_less, arith, Bool-cases, Option-cases, all_of, eq_of_beq,
}
use vibe_alfa_gen.Domain.{PiiType, ok, ◌>>=◌, ◌>>◌}
use vibe_alfa_gen.Domain.Results.{>>=-eq-ok, >>-eq-ok, ok-value}
use vibe_alfa_gen.Text.{Text, codes}
use vibe_alfa_gen.Policy.System.{builtin_types}
use vibe_alfa_gen.Config.{Config, SystemConfig, ServerConfig, ProviderConfig, CustomPiiType}
use vibe_alfa_gen.Config.Secrets.{Host, is_empty, encryption_key_available}
use vibe_alfa_gen.Config.Validate.{
  require, validate_server, validate_runtime, validate_store, validate_redis, validate_key_files,
  validate_custom_types, valid_custom_type_name, is_absent, is_complete, check_detector, not_both,
}
use vibe_alfa_gen.Config.Validate.Systems.{
  find_system, validate_each, validate_systems, validate_config,
}
use vibe_alfa_gen.Config.Validate.Sound.{IsValid, require-eq-ok, validate_systems-IsValid}

-- Timeouts and bounds of the server that are positive, with time to end a request before the server
-- stops.
pub record IsServed (s : ServerConfig) : Type 0 where
  pub read_header : is_positive s.read_header_timeout ≡ true
  pub reads : is_positive s.read_timeout ≡ true
  pub writes : is_positive s.write_timeout ≡ true
  pub idle : is_positive s.idle_timeout ≡ true
  pub body : is_positive s.max_body_bytes ≡ true
  pub slots : is_positive s.concurrency_limit ≡ true
  pub timed : is_positive s.request_timeout ≡ true
  pub rated : is_positive s.rate_limit_rps ≡ true
  pub burst : is_positive s.rate_limit_burst ≡ true
  pub drains : is_positive s.drain_delay ≡ true
  pub stops : is_less s.shutdown_timeout s.request_timeout ≡ false

-- A provider is configured exactly in the mode that asks it.
abbrev pub HasMode : Config → Type 0
HasMode c =
    ((c.runtime_mode ≡ "process_only") × (c.provider ≡ none))
    ⊎ ((c.runtime_mode ≡ "test_generate")
        × (p : ProviderConfig) × (c.provider ≡ some p)
        × ((is_empty p.base_url ≡ false)
            × (is_positive p.timeout ≡ true)
            × ((length p.models == 0) ≡ false)))

-- The store is in memory, or in Redis with an address and a key for encryption.
abbrev pub HasStore : Host → Config → Type 0
HasStore host c =
    (c.store.mode ≡ "memory")
    ⊎ ((c.store.mode ≡ "redis")
        × ((is_empty c.store.redis_addr ≡ false)
            × (encryption_key_available host c.security c.security.active_key_id ≡ ok true)))

abbrev pub IsKeyFile : Host → Config → String × Text → Type 0
IsKeyFile host c p = (lookup p.0 c.security.encryption_keys ≡ none) × (host.is_abs p.1 ≡ true)

abbrev pub IsCustom : CustomPiiType → Type 0
IsCustom ct =
    (valid_custom_type_name (codes ct.typ) ≡ true) × (contains builtin_types ct.typ ≡ false)

-- A configuration that Validate has accepted.
pub record IsAccepted (host : Host) (c : Config) : Type 0 where
  pub version : (c.version == "") ≡ false
  pub server : IsServed c.server
  pub mode : HasMode c
  pub ttl : is_positive c.store.ttl ≡ true
  pub store : HasStore host c
  pub key_files : All (IsKeyFile host c) c.security.encryption_key_files
  pub customs : All IsCustom c.custom_pii_types
  pub systems : IsValid c
  pub default : (s : SystemConfig) × (find_system c.default_system c.systems ≡ some s)

not-false : (b : Bool) → not b ≡ true → b ≡ false
not-false true h = sym h
not-false false h = refl

validate_server-IsServed : (c : Config) → validate_server c ≡ ok tt → IsServed c.server
unfolding validate_server
validate_server-IsServed c h =
    let s = c.server in
    let idles = is_positive s.write_timeout && is_positive s.idle_timeout in
    let reads = is_positive s.read_timeout && idles in
    let times = is_positive s.read_header_timeout && reads in
    let rates = is_positive s.rate_limit_rps && is_positive s.rate_limit_burst in
    let drains = is_positive s.drain_delay && is_positive s.shutdown_timeout in
    let (h1, h_stops) =
      >>-eq-ok _ (require (not (is_less s.shutdown_timeout s.request_timeout))) tt h in
    let (h2, h_drains) = >>-eq-ok _ (require drains) tt h1 in
    let (h3, h_timed) = >>-eq-ok _ (require (is_positive s.request_timeout && rates)) tt h2 in
    let (h4, h_slots) = >>-eq-ok _ (require (is_positive s.concurrency_limit)) tt h3 in
    let (h5, h_body) = >>-eq-ok _ (require (is_positive s.max_body_bytes)) tt h4 in
    let times_on = and-right (is_positive c.store.cleanup_every) times (require-eq-ok _ h5) in
    let reads_on = and-right (is_positive s.read_header_timeout) reads times_on in
    let idles_on = and-right (is_positive s.read_timeout) idles reads_on in
    let timed_on = require-eq-ok (is_positive s.request_timeout && rates) h_timed in
    let rates_on = and-right (is_positive s.request_timeout) rates timed_on in
    record {
      read_header = and-left _ reads times_on;
      reads = and-left _ idles reads_on;
      writes = and-left _ (is_positive s.idle_timeout) idles_on;
      idle = and-right (is_positive s.write_timeout) _ idles_on;
      body = require-eq-ok _ h_body;
      slots = require-eq-ok _ h_slots;
      timed = and-left _ rates timed_on;
      rated = and-left _ (is_positive s.rate_limit_burst) rates_on;
      burst = and-right (is_positive s.rate_limit_rps) _ rates_on;
      drains = and-left _ (is_positive s.shutdown_timeout) (require-eq-ok drains h_drains);
      stops = not-false (is_less s.shutdown_timeout s.request_timeout) (require-eq-ok _ h_stops);
    }

absent-none : (p : Option ProviderConfig) → is_absent p ≡ true → p ≡ none
absent-none none h = refl
absent-none (some p) h = absurd (cc h)

complete-some :
    (o : Option ProviderConfig)
    → is_complete o ≡ true
    → (p : ProviderConfig) × (o ≡ some p)
      × ((is_empty p.base_url ≡ false)
          × (is_positive p.timeout ≡ true)
          × ((length p.models == 0) ≡ false))
complete-some none h = absurd (cc h)
complete-some (some p) h = (p, refl, (ground arith, ground arith, ground arith))

-- What validateRuntime leaves has a mode, and is else what it was given.
abbrev IsSetMode : Config → Config → Type 0
IsSetMode c c1 = (mode : String) × (c1 ≡ record c { runtime_mode = mode })

validate_runtime-HasMode :
    (c c1 : Config) → validate_runtime c ≡ ok c1 → HasMode c1 × IsSetMode c c1
unfolding validate_runtime
validate_runtime-HasMode c c1 h =
    let mode = if c.runtime_mode == "" then "process_only" else c.runtime_mode in
    let checked : Config = record c { runtime_mode = mode } in
    elim (Bool-cases (mode == "process_only")) [
      | inl e ↦
          let (absent, same) =
            >>-eq-ok (require (is_absent c.provider)) (ok checked) c1
              (rw (validate_runtime, e) at h) in
          rw (← ok-value same) (
            inl (eq_of_beq mode "process_only" e, absent-none c.provider (require-eq-ok _ absent)),
            (mode, refl),
          )
      | inr e ↦ elim (Bool-cases (mode == "test_generate")) [
        | inr e1 ↦ absurd (cc (rw (validate_runtime, e, e1) at h))
        | inl e1 ↦
            let (complete, same) =
              >>-eq-ok (require (is_complete c.provider)) (ok checked) c1
                (rw (validate_runtime, e, e1) at h) in
            let (p, given, good) = complete-some c.provider (require-eq-ok _ complete) in
            rw (← ok-value same)
              (inr (eq_of_beq mode "test_generate" e1, p, given, good), (mode, refl))
      ]
    ]

-- The same of validateStore.
abbrev IsSetStore : Config → Config → Type 0
IsSetStore c c1 = (mode : String) × (c1 ≡ record c { store = record c.store { mode = mode } })

validate_redis-keyed :
    (host : Host) (c : Config)
    → validate_redis host c ≡ ok tt
    → (is_empty c.store.redis_addr ≡ false)
      × (encryption_key_available host c.security c.security.active_key_id ≡ ok true)
unfolding validate_redis
validate_redis-keyed host c h =
    let (front, key) =
      >>-eq-ok _ (encryption_key_available host c.security c.security.active_key_id >>= require) tt
        h in
    let (_, given) =
      >>-eq-ok _ (require (not (is_empty c.store.redis_addr || c.security.active_key_id == ""))) tt
        front in
    let (there, available, required) =
      >>=-eq-ok (encryption_key_available host c.security c.security.active_key_id) require tt
        key in
    let named = require-eq-ok _ given in
    (ground arith, available ∙ ap ok (require-eq-ok there required))

validate_store-HasStore :
    (host : Host) (c c1 : Config)
    → validate_store host c ≡ ok c1
    → HasStore host c1 × (is_positive c1.store.ttl ≡ true) × IsSetStore c c1
unfolding validate_store
validate_store-HasStore host c c1 h =
    let mode = if c.store.mode == "" then "memory" else c.store.mode in
    let checked : Config = record c { store = record c.store { mode = mode } } in
    elim (Bool-cases (not (is_positive c.store.ttl))) [
      | inl e ↦ absurd (cc (rw (validate_store, e) at h))
      | inr e ↦
          let lasts : is_positive c.store.ttl ≡ true = ground arith in
          elim (Bool-cases (mode == "redis")) [
            | inl e1 ↦
                let (keyed, same) =
                  >>-eq-ok (validate_redis host checked) (ok checked) c1
                    (rw (validate_store, e, e1) at h) in
                rw (← ok-value same) (
                  inr (eq_of_beq mode "redis" e1, validate_redis-keyed host checked keyed),
                  lasts,
                  (mode, refl),
                )
            | inr e1 ↦
                let (memory, same) =
                  >>-eq-ok (require (mode == "memory")) (ok checked) c1
                    (rw (validate_store, e, e1) at h) in
                rw (← ok-value same)
                  (inl (eq_of_beq mode "memory" (require-eq-ok _ memory)), lasts, (mode, refl))
          ]
    ]

key_files-absent :
    (host : Host) (c : Config) (files : List (String × Text))
    → all_of (not_both host c.security) files ≡ true
    → All (IsKeyFile host c) files
key_files-absent host c [] h = tt
key_files-absent host c ((id, path) ∷ files) h =
    elim (Option-cases (lookup id c.security.encryption_keys)) [
      | inl e ↦
          let both : (host.is_abs path && all_of (not_both host c.security) files) ≡ true =
            rw e at h in
          ((e, ground arith), key_files-absent host c files (ground arith))
      | inr (key, e) ↦ absurd (cc (rw e at h))
    ]

validate_custom_types-IsCustom :
    (host : Host) (seen : List PiiType) (types : List CustomPiiType)
    → validate_custom_types host seen types ≡ ok tt
    → All IsCustom types
unfolding validate_custom_types
validate_custom_types-IsCustom host seen [] h = tt
validate_custom_types-IsCustom host seen (ct ∷ types) h =
    let (h1, rest) = >>-eq-ok _ (validate_custom_types host (ct.typ ∷ seen) types) tt h in
    let (h2, _) = >>-eq-ok _ (check_detector host ct) tt h1 in
    let (h3, _) = >>-eq-ok _ (require (not (contains seen ct.typ))) tt h2 in
    let (h4, other_name) = >>-eq-ok _ (require (not (contains builtin_types ct.typ))) tt h3 in
    let (_, valid) = >>-eq-ok _ (require (valid_custom_type_name (codes ct.typ))) tt h4 in
    let own_name = require-eq-ok _ other_name in
    (
      (require-eq-ok _ valid, ground arith),
      validate_custom_types-IsCustom host (ct.typ ∷ seen) types rest,
    )

-- An ID that validateSystems has seen is one of a system.
validate_each-seen :
    (host : Host) (c : Config) (seen : List String) (systems : List SystemConfig)
    (out : List String) (id : String)
    → validate_each host c seen systems ≡ ok out
    → contains out id ≡ true
    → (contains seen id ≡ true) ⊎ ((s : SystemConfig) × (find_system id systems ≡ some s))
unfolding validate_each
validate_each-seen host c seen [] out id h there_now = inl (rw (ok-value h) there_now)
validate_each-seen host c seen (s ∷ systems) out id h there_now =
    let (_, rest) = >>-eq-ok _ (validate_each host c (s.id ∷ seen) systems) out h in
    elim (Bool-cases (s.id == id)) [
      | inl e ↦ inr (s, unfold find_system in rw e refl)
      | inr e ↦ elim (validate_each-seen host c (s.id ∷ seen) systems out id rest there_now) [
        | inl before ↦ inl (unfold contains in ground arith)
        | inr (t, found) ↦ inr (t, unfold find_system in rw e found)
      ]
    ]

validate_systems-default :
    (host : Host) (c : Config)
    → validate_systems host c ≡ ok tt
    → All IsCustom c.custom_pii_types
      × ((s : SystemConfig) × (find_system c.default_system c.systems ≡ some s))
unfolding validate_systems
validate_systems-default host c h =
    let last = λ (seen : List String). require (contains seen c.default_system) in
    let (front, rest) = >>-eq-ok _ (validate_each host c [] c.systems >>= last) tt h in
    let (_, customs) = >>-eq-ok _ (validate_custom_types host [] c.custom_pii_types) tt front in
    let (out, each, seen) = >>=-eq-ok (validate_each host c [] c.systems) last tt rest in
    let found =
      validate_each-seen host c [] c.systems out c.default_system each (require-eq-ok _ seen) in
    (
      validate_custom_types-IsCustom host [] c.custom_pii_types customs,
      elim found [
        | inl none_yet ↦ absurd (unfold contains in cc none_yet)
        | inr there_now ↦ there_now
      ],
    )

keys_checked :
    (host : Host) (c : Config)
    → validate_key_files host c ≡ ok tt
    → all_of (not_both host c.security) c.security.encryption_key_files ≡ true
unfolding validate_key_files
keys_checked host c h = require-eq-ok _ h

-- What Validate leaves is accepted.
pub validate_config-IsAccepted :
    (host : Host) (c c' : Config) → validate_config host c ≡ ok c' → IsAccepted host c'
unfolding validate_config
validate_config-IsAccepted host c c' h =
    let rest = λ (c1 : Config). validate_store host c1 >>= λ c2.
    validate_key_files host c2 >> validate_systems host c2 >> ok c2 in
    let (front, h1) = >>-eq-ok _ (validate_runtime c >>= rest) c' h in
    let (named, served) = >>-eq-ok (require (not (c.version == ""))) (validate_server c) tt front in
    let (c1, runtime, h2) = >>=-eq-ok (validate_runtime c) rest c' h1 in
    let last = λ (c2 : Config). validate_key_files host c2 >> validate_systems host c2 >> ok c2 in
    let (c2, store, h3) = >>=-eq-ok (validate_store host c1) last c' h2 in
    let (checks, same) =
      >>-eq-ok (validate_key_files host c2 >> validate_systems host c2) (ok c2) c' h3 in
    let (keys, systems) =
      >>-eq-ok (validate_key_files host c2) (validate_systems host c2) tt checks in
    let (mode, (_, set)) = validate_runtime-HasMode c c1 runtime in
    let (kept, lasts, (_, set_store)) = validate_store-HasStore host c1 c2 store in
    let (customs, default) = validate_systems-default host c2 systems in
    let version = require-eq-ok _ named in
    rw (← ok-value same) (record {
      version = rw (set_store, set) (ground arith);
      server = rw (set_store, set) (validate_server-IsServed c served);
      mode = rw set_store mode;
      ttl = lasts;
      store = kept;
      key_files =
          key_files-absent host c2 c2.security.encryption_key_files (keys_checked host c2 keys);
      customs = customs;
      systems = validate_systems-IsValid host c2 systems;
      default = default;
    })
