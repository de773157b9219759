-- ===== src/Config/Manager/Equal.antt =====
-- internal/platform/config/manager.go: the comparison of consumers and of the parts of a configuration
-- that do not change.
use vibe_alfa_gen.Prelude.{
  Bool, true, false, not, ◌&&◌, List, [], ◌∷◌, String, Option, none, some, ◌==◌, string_eq, text_eq,
  nat_eq, lookup, length, all_of, same_integer,
}
use vibe_alfa_gen.Domain.{PolicyRule, Policy}
use vibe_alfa_gen.Text.{Text}
use vibe_alfa_gen.Proxy.{Consumer}
use vibe_alfa_gen.Config.{
  Config, ServerConfig, StoreConfig, ProviderConfig, SecurityConfig, CustomPiiType,
}

abbrev same_bool : Bool → Bool → Bool
same_bool true b = b
same_bool false b = not b

-- Lists that agree element by element.
unfoldable pub same_list {ℓ} : {A : Type ℓ} → (A → A → Bool) → List A → List A → Bool
same_list same [] [] = true
same_list same (x ∷ xs) (y ∷ ys) = same x y && same_list same xs ys
same_list same _ _ = false

abbrev same_string : String → String → Bool
same_string a b = a == b

-- stringSliceEqual, which tells nil from an empty slice.
unfoldable pub string_slice_equal : Option (List String) → Option (List String) → Bool
unfolding same_list
string_slice_equal none none = true
string_slice_equal (some a) (some b) = same_list same_string a b
string_slice_equal _ _ = false

abbrev same_rule : PolicyRule → PolicyRule → Bool
same_rule a b = a.typ == b.typ && same_list same_string a.requires b.requires

unfoldable pub policy_equal : Policy → Policy → Bool
unfolding string_slice_equal
policy_equal a b =
    (a.detection_profile == b.detection_profile
      && (a.version == b.version
          && (a.mode == b.mode && (same_bool a.allow_demask b.allow_demask && a.ttl == b.ttl))))
    && ((string_slice_equal a.detect_types b.detect_types
          && string_slice_equal a.mask_types b.mask_types)
        && same_list same_rule a.rules b.rules)

-- consumerEqual
unfoldable pub consumer_equal : Consumer → Consumer → Bool
unfolding policy_equal
consumer_equal a b =
    a.id == b.id
    && (same_bool a.enabled b.enabled && (a.api_key == b.api_key && policy_equal a.policy b.policy))

abbrev equals_entry : List (String × Consumer) → String × Consumer → Bool
equals_entry others (id, c) = elim (lookup id others) [ none ↦ false | some o ↦ consumer_equal c o ]

-- systemsEqual
unfoldable pub systems_equal : List (String × Consumer) → List (String × Consumer) → Bool
unfolding consumer_equal
systems_equal a b = length a == length b && all_of (equals_entry b) a

abbrev same_server : ServerConfig → ServerConfig → Bool
same_server a b =
    ((a.addr == b.addr && same_integer a.read_header_timeout b.read_header_timeout)
      && (same_integer a.read_timeout b.read_timeout
          && same_integer a.write_timeout b.write_timeout))
    && (((same_integer a.idle_timeout b.idle_timeout
            && same_integer a.max_body_bytes b.max_body_bytes)
          && (same_integer a.concurrency_limit b.concurrency_limit
              && same_integer a.request_timeout b.request_timeout))
        && ((same_integer a.rate_limit_rps b.rate_limit_rps
              && same_integer a.rate_limit_burst b.rate_limit_burst)
            && (same_integer a.drain_delay b.drain_delay
                && same_integer a.shutdown_timeout b.shutdown_timeout)))

abbrev same_provider : Option ProviderConfig → Option ProviderConfig → Bool
same_provider none none = true
same_provider (some a) (some b) =
    a.base_url == b.base_url
    && (same_integer a.timeout b.timeout && same_list same_string a.models b.models)
same_provider _ _ = false

abbrev same_store : StoreConfig → StoreConfig → Bool
same_store a b =
    ((same_integer a.ttl b.ttl && same_integer a.cleanup_every b.cleanup_every)
      && (a.mode == b.mode
          && (a.redis_addr == b.redis_addr && a.redis_password == b.redis_password)))
    && ((same_integer a.redis_db b.redis_db && same_integer a.pool_size b.pool_size)
        && (same_integer a.min_idle_conns b.min_idle_conns
            && (same_integer a.pool_timeout b.pool_timeout && a.key_prefix == b.key_prefix)))

abbrev has_entry : List (String × Text) → String × Text → Bool
has_entry m (key, value) = elim (lookup key m) [ none ↦ false | some v ↦ v == value ]

-- Maps with the same entries, in any order; a nil map is an empty one.
abbrev same_map : List (String × Text) → List (String × Text) → Bool
same_map a b = length a == length b && all_of (has_entry b) a

abbrev same_security : SecurityConfig → SecurityConfig → Bool
same_security a b =
    (a.log_level == b.log_level && a.active_key_id == b.active_key_id)
    && (same_map a.encryption_keys b.encryption_keys
        && same_map a.encryption_key_files b.encryption_key_files)

abbrev pub same_custom : CustomPiiType → CustomPiiType → Bool
same_custom a b = a.typ == b.typ && (a.pattern == b.pattern && a.confidence == b.confidence)

-- immutableEqual
unfoldable pub immutable_equal : Config → Config → Bool
unfolding same_list
immutable_equal a b =
    (a.runtime_mode == b.runtime_mode
      && (same_server a.server b.server && same_provider a.provider b.provider))
    && ((same_store a.store b.store && same_security a.security b.security)
        && (same_list same_custom a.custom_pii_types b.custom_pii_types
            && a.default_system == b.default_system))
