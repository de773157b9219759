-- ===== src/Config.antt =====
-- internal/platform/config: the configuration of the service. The children have the secrets, the
-- validation and the manager of its snapshots.
pub mod Secrets
pub mod Validate
pub mod Manager
use vibe_alfa_gen.Prelude.{ℕ, Bool, List, [], String, Option, none, ℤ, pos, ◌*◌}
use vibe_alfa_gen.Domain.{PiiType, PolicyRule}
use vibe_alfa_gen.Text.{Text, codes}

-- CustomPIIType
pub record CustomPiiType : Type 0 where
  pub typ : PiiType
  pub pattern : Text
  pub confidence : String

-- ProviderConfig. Durations are in nanoseconds.
pub record ProviderConfig : Type 0 where
  pub base_url : Text
  pub timeout : ℤ
  pub models : List String

-- ServerConfig. The rate is in thousandths of a request per second.
pub record ServerConfig : Type 0 where
  pub addr : Text
  pub read_header_timeout : ℤ
  pub read_timeout : ℤ
  pub write_timeout : ℤ
  pub idle_timeout : ℤ
  pub max_body_bytes : ℤ
  pub concurrency_limit : ℤ
  pub request_timeout : ℤ
  pub rate_limit_rps : ℤ
  pub rate_limit_burst : ℤ
  pub drain_delay : ℤ
  pub shutdown_timeout : ℤ

-- StoreConfig
pub record StoreConfig : Type 0 where
  pub ttl : ℤ
  pub cleanup_every : ℤ
  pub mode : String
  pub redis_addr : Text
  pub redis_password : Text
  pub redis_db : ℤ
  pub pool_size : ℤ
  pub min_idle_conns : ℤ
  pub pool_timeout : ℤ
  pub key_prefix : Text

-- SecurityConfig
pub record SecurityConfig : Type 0 where
  pub log_level : String
  pub active_key_id : String
  pub encryption_keys : List (String × Text)
  pub encryption_key_files : List (String × Text)

-- SystemConfig. A nil slice or pointer is `none`, where the code tells it from an empty one.
pub record SystemConfig : Type 0 where
  pub detection_profile : String
  pub allow_anonymous : Bool
  pub detect_types : Option (List PiiType)
  pub mask_types : Option (List PiiType)
  pub id : String
  pub enabled : Option Bool
  pub types : List PiiType
  pub mask_mode : String
  pub allow_demask : Option Bool
  pub api_key : Text
  pub api_key_file : Text
  pub rules : List PolicyRule

-- Config. `runtime_mode` is the one field of RuntimeConfig.
pub record Config : Type 0 where
  pub version : String
  pub runtime_mode : String
  pub server : ServerConfig
  pub provider : Option ProviderConfig
  pub store : StoreConfig
  pub security : SecurityConfig
  pub systems : List SystemConfig
  pub default_system : String
  pub custom_pii_types : List CustomPiiType

abbrev seconds : ℕ → ℤ
seconds n = pos (n * 1000000000)

-- Default
unfoldable pub default_config : Config
default_config = record {
  version = "v1";
  runtime_mode = "process_only";
  server = record {
    addr = codes ":8080";
    read_header_timeout = seconds 5;
    read_timeout = seconds 30;
    write_timeout = seconds 30;
    idle_timeout = seconds 60;
    max_body_bytes = pos 2097152;
    concurrency_limit = pos 256;
    request_timeout = seconds 10;
    rate_limit_rps = pos 10000000;
    rate_limit_burst = pos 1000;
    drain_delay = seconds 5;
    shutdown_timeout = seconds 15;
  };
  provider = none;
  store = record {
    ttl = seconds 86400;
    cleanup_every = seconds 3600;
    mode = "memory";
    redis_addr = [];
    redis_password = [];
    redis_db = pos 0;
    pool_size = pos 128;
    min_idle_conns = pos 16;
    pool_timeout = seconds 1;
    key_prefix = codes "alfagen:context:";
  };
  security = record {
    log_level = "info";
    active_key_id = "";
    encryption_keys = [];
    encryption_key_files = [];
  };
  systems = [];
  default_system = "benchmark";
  custom_pii_types = [];
}
