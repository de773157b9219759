-- ===== src/Config/Manager.antt =====
-- internal/platform/config/manager.go: the manager of snapshots; and the documents of source.go.
pub mod Equal
pub mod Published
pub mod Keyed
pub mod Reloads
use vibe_alfa_gen.Prelude.{
  Bool, true, false, not, ◌&&◌, ◌||◌, List, [], ◌∷◌, String, Option, none, some, if◌then◌else◌,
  ◌==◌, string_eq, lookup, insert, ℤ, is_positive,
}
use vibe_alfa_gen.Domain.{Error, Result, ok, err, other, ◌>>=◌, ◌>>◌}
use vibe_alfa_gen.Text.{Text}
use vibe_alfa_gen.Policy.System.{SystemPolicy, contract}
use vibe_alfa_gen.Proxy.{Consumer}
use vibe_alfa_gen.Config.{Config, SystemConfig, default_config}
use vibe_alfa_gen.Config.Secrets.{Host, resolve_secret}
use vibe_alfa_gen.Config.Validate.{require}
use vibe_alfa_gen.Config.Validate.Systems.{build_policy, is_on_unless, validate_config}
use vibe_alfa_gen.Config.Manager.Equal.{immutable_equal, systems_equal}

-- Document
pub record Document : Type 0 where
  pub data_bytes : Text
  pub format : String
  pub revision : String

-- The decoding of a document's fields over a configuration that has the defaults.
pub record Decoders : Type 0 where
  pub yaml : Text → Config → Result Config
  pub json : Text → Config → Result Config

unfoldable pub unversioned : Config
unfolding default_config
unversioned = record default_config { version = "" }

-- parseDocument, with what parseYAML and parseJSON do around the decoding.
unfoldable pub parse_document : Host → Decoders → Document → Result Config
parse_document host decoders doc =
    if doc.format == "yaml"
    then (decoders.yaml doc.data_bytes unversioned >>= validate_config host)
    else if doc.format == "json"
    then (decoders.json doc.data_bytes unversioned >>= validate_config host)
    else err other

abbrev pub key_or_empty : Result (Option Text) → Text
key_or_empty (ok (some key)) = key
key_or_empty _ = []

abbrev pub has_access : Bool → Result (Option Text) → Bool
has_access anonymous (ok (some _)) = true
has_access anonymous (ok none) = anonymous
has_access anonymous (err _) = false

abbrev pub consumer_of : Host → SystemConfig → String → ℤ → SystemPolicy → Option Consumer
consumer_of host s version ttl p =
    let secret = resolve_secret host s.api_key s.api_key_file in
    if is_on_unless s.enabled && not (has_access s.allow_anonymous secret)
    then none
    else some (record {
      id = s.id;
      enabled = p.enabled;
      api_key = key_or_empty secret;
      policy = contract (record p { version = version; ttl = ttl });
    })

-- buildConsumer
unfoldable pub build_consumer : Host → SystemConfig → String → ℤ → Option Consumer
build_consumer host s version ttl = elim (build_policy s) [
  | err _ ↦ none
  | ok p ↦ consumer_of host s version ttl p
]

-- snapshot
pub record Snapshot : Type 0 where
  pub version : String
  pub systems : List (String × Consumer)

-- The loop of buildCandidate.
unfoldable pub build_systems :
    Host → Config → List SystemConfig → List (String × Consumer) → Result (List (String × Consumer))
unfolding build_consumer
build_systems host c [] built = ok built
build_systems host c (s ∷ more) built = elim (build_consumer host s c.version c.store.ttl) [
  | some consumer ↦ build_systems host c more (insert s.id consumer built)
  | none ↦ require (not (is_on_unless s.enabled)) >> build_systems host c more built
]

abbrev pub is_unchanged : Option Config → Config → Bool
is_unchanged none c = true
is_unchanged (some initial) c = immutable_equal c initial

abbrev pub snapshot_of : Config → List (String × Consumer) → Snapshot
snapshot_of c systems = record { version = c.version; systems = systems }

abbrev pub candidate_of : Host → Option Config → Config → Result (Snapshot × Config)
candidate_of host initial c =
    require (is_unchanged initial c)
    >> (build_systems host c c.systems [] >>= λ systems. ok (snapshot_of c systems, c))

-- Manager.buildCandidate, after the source was read.
unfoldable pub build_candidate :
    Host → Decoders → Option Config → Result Document → Result (Snapshot × Config)
unfolding parse_document build_systems
build_candidate host decoders initial read =
    read >>= parse_document host decoders >>= candidate_of host initial

-- Manager, without its source, interval and locks.
pub record Manager : Type 0 where
  pub initial : Config
  pub current : Snapshot

abbrev pub first_manager : Snapshot × Config → Manager
first_manager (made, c) = record { initial = c; current = made }

-- NewManagerFromSource
unfoldable pub new_manager : Host → Decoders → ℤ → Result Document → Result Manager
unfolding build_candidate
new_manager host decoders poll_interval read =
    require (is_positive poll_interval)
    >> (build_candidate host decoders none read >>= λ made. ok (first_manager made))

-- How a reload is counted.
pub data Outcome : Type 0 where
  success noop : Outcome
  failed : Error → Outcome

abbrev pub publish : Manager → Snapshot → Manager × Outcome
publish m made =
    if made.version == m.current.version
    then (m, (if systems_equal made.systems m.current.systems then noop else failed other))
    else (record m { current = made }, success)

abbrev pub try_publish : Manager → Result (Snapshot × Config) → Manager × Outcome
try_publish m (err e) = (m, failed e)
try_publish m (ok (made, _)) = publish m made

-- Manager.ReloadContext
unfoldable pub reload_context : Host → Decoders → Manager → Result Document → Manager × Outcome
unfolding build_candidate
reload_context host decoders m read =
    try_publish m (build_candidate host decoders (some m.initial) read)

-- Manager.ResolveSystem. The copy that it returns is the value itself here.
abbrev pub resolve_snapshot : Manager → String → Option Consumer
resolve_snapshot m id = lookup id m.current.systems
