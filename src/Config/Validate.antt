-- ===== src/Config/Validate.antt =====
-- internal/platform/config/config.go: what a configuration must be, and the policies that it gives.
pub mod Systems
pub mod Sound
pub mod Accepted
use vibe_alfa_gen.Prelude.{
  ℕ, Bool, true, false, not, ◌&&◌, ◌||◌, List, [], ◌∷◌, String, Option, none, some, if◌then◌else◌,
  ◌==◌, string_eq, nat_eq, lookup, length, all_of, map, ◌++◌, leb, ℤ, pos, is_positive, is_negative,
  is_less, contains,
}
use vibe_alfa_gen.Domain.{
  PiiType, PolicyRule, Result, ok, err, other, ◌>>=◌, ◌>>◌, Confidence, confidence_low,
  confidence_medium, confidence_high, all_types,
}
use vibe_alfa_gen.Text.{Text, codes}
use vibe_alfa_gen.Policy.System.{builtin_types}
use vibe_alfa_gen.Config.{
  Config, ServerConfig, StoreConfig, ProviderConfig, SecurityConfig, SystemConfig, CustomPiiType,
}
use vibe_alfa_gen.Config.Secrets.{Host, is_empty, encryption_key_available}

abbrev pub require : Bool → Result (Unit {0})
require b = if b then ok tt else err other

-- Config.validateServer
unfoldable pub validate_server : Config → Result (Unit {0})
validate_server c =
    let s = c.server in
    require (
      is_positive c.store.cleanup_every
      && (is_positive s.read_header_timeout
          && (is_positive s.read_timeout
              && (is_positive s.write_timeout && is_positive s.idle_timeout))))
    >> require (is_positive s.max_body_bytes)
    >> require (is_positive s.concurrency_limit)
    >> require (
        is_positive s.request_timeout
        && (is_positive s.rate_limit_rps && is_positive s.rate_limit_burst))
    >> require (is_positive s.drain_delay && is_positive s.shutdown_timeout)
    >> require (not (is_less s.shutdown_timeout s.request_timeout))

abbrev pub is_complete : Option ProviderConfig → Bool
is_complete none = false
is_complete (some p) =
    not (is_empty p.base_url) && (is_positive p.timeout && not (length p.models == 0))

abbrev pub is_absent : Option ProviderConfig → Bool
is_absent none = true
is_absent (some _) = false

-- Config.validateRuntime, with the mode that it sets.
unfoldable pub validate_runtime : Config → Result Config
validate_runtime c =
    let mode = if c.runtime_mode == "" then "process_only" else c.runtime_mode in
    let checked : Config = record c { runtime_mode = mode } in
    if mode == "process_only"
    then (require (is_absent c.provider) >> ok checked)
    else if mode == "test_generate"
    then (require (is_complete c.provider) >> ok checked)
    else err other

-- Config.validateRedis
unfoldable pub validate_redis : Host → Config → Result (Unit {0})
validate_redis host c =
    let s = c.store in
    require (
      not (
        is_negative s.pool_size
        || (is_negative s.min_idle_conns
            || (is_negative s.pool_timeout
                || (is_positive s.pool_size && is_less s.pool_size s.min_idle_conns)))))
    >> require (not (is_empty s.redis_addr || c.security.active_key_id == ""))
    >> (encryption_key_available host c.security c.security.active_key_id >>= require)

-- Config.validateStore, with the mode that it sets.
unfoldable pub validate_store : Host → Config → Result Config
unfolding validate_redis
validate_store host c =
    let mode = if c.store.mode == "" then "memory" else c.store.mode in
    let checked : Config = record c { store = record c.store { mode = mode } } in
    if not (is_positive c.store.ttl)
    then err other
    else if mode == "redis"
    then (validate_redis host checked >> ok checked)
    else require (mode == "memory") >> ok checked

abbrev pub not_both : Host → SecurityConfig → String × Text → Bool
not_both host security (id, path) =
    (elim (lookup id security.encryption_keys) [ none ↦ true | some _ ↦ false ]) && host.is_abs path

-- Config.validateKeyFiles
unfoldable pub validate_key_files : Host → Config → Result (Unit {0})
validate_key_files host c =
    require (all_of (not_both host c.security) c.security.encryption_key_files)

-- CustomPIIType.confidence
unfoldable pub confidence_of : String → Result Confidence
confidence_of label =
    if label == "low"
    then ok confidence_low
    else if label == "medium"
    then ok confidence_medium
    else if label == "high"
    then ok confidence_high
    else err other

abbrev pub is_lower : ℕ → Bool
is_lower c = leb 0x61 c && leb c 0x7A

abbrev pub is_name_byte : ℕ → Bool
is_name_byte c = is_lower c || ((leb 0x30 c && leb c 0x39) || c == 0x5F)

-- validCustomTypeName
unfoldable pub valid_custom_type_name : Text → Bool
valid_custom_type_name [] = false
valid_custom_type_name (c ∷ s) = is_lower c && all_of is_name_byte s

-- CustomPIIType.detector, as far as it fails: by the confidence, or in NewPatternDetector.
unfoldable pub check_detector : Host → CustomPiiType → Result (Unit {0})
unfolding confidence_of
check_detector host ct = confidence_of ct.confidence >>= λ _.
    require (not (ct.typ == ""))
    >> require (not (is_empty ct.pattern))
    >> require (host.compiles ct.pattern)

-- Config.validateCustomTypes
unfoldable pub validate_custom_types : Host → List PiiType → List CustomPiiType → Result (Unit {0})
unfolding valid_custom_type_name check_detector
validate_custom_types host seen [] = ok tt
validate_custom_types host seen (ct ∷ types) =
    require (not (ct.typ == ""))
    >> require (valid_custom_type_name (codes ct.typ))
    >> require (not (contains builtin_types ct.typ))
    >> require (not (contains seen ct.typ))
    >> check_detector host ct
    >> validate_custom_types host (ct.typ ∷ seen) types

abbrev pub typ_of : CustomPiiType → PiiType
typ_of ct = ct.typ

-- Config.allValidTypes
unfoldable pub all_valid_types : Config → List PiiType
all_valid_types c = builtin_types ++ map typ_of c.custom_pii_types
