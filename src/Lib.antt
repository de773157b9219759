-- ===== src/Lib.antt =====
-- The PII engine of the service: detection, resolution, masking and restoring of personal data, over
-- a store of contexts (internal/pii and internal/contracts).
--
-- How the parts interact: Processor.Process, Mask and Demask (internal/pii/engine/processor.go) check
-- the request, look the context up in a store.Store, and if there is none they detect findings
-- (Registry.Collect, ResolveContext, FilterConfidence, policy.Apply, ResolveOverlaps), replace each
-- by a mask or a token, verify the result with the exact recognizers, and save a record under the
-- digest of tenant, namespace and context ID. The HTTP server (internal/proxy) admits a request, decodes
-- it, calls Process, or Mask, the provider and Demask, and answers; the policy comes from the snapshot
-- that the manager of the configuration (internal/platform/config) has published.
--
-- Each part, with the files it is about; their paths begin with internal/pii/ where they
-- do not begin with internal/:
--
--   Domain                  pii.go; Policy, Scope and the errors of
--                           internal/contracts/contracts.go
--   Text, Text/Utf8         Go strings as bytes, with the decoding of `unicode/utf8` on every input
--   Text/Unicode            the tables of `unicode`, a parameter with the facts that are used
--   Normalize               normalize.go: normalizeText, normalizeRune, originalOffset
--   Registry, Overlap       registry.go: Collect and CollectCandidates; ResolveOverlaps
--   Context                 context.go: ResolveContext, Threshold, FilterConfidence; Context/Records:
--                           logicalRecords; Context/Windows: localWindow
--   Masking                 masking/transform.go: Mask and its strategies
--   Policy                  policy/contract.go: ValidateContract; policy/policy.go: Apply, Allows
--   Store                   store/store.go: TTLStore. Store/Threads has the interleavings of threads,
--                           Store/Interface the Store interface, which the engine takes as a parameter
--   Store/Codec, Store/Redis  store/codec.go and store/redis.go, over the crypto packages (`Crypto`) and a
--                           Redis client (`RedisClient`)
--   Markers, Tokens         engine/tokens.go and markerPattern of engine/processor.go
--   Detectors               detectors/: helpers.go, card_number.go, inn.go, cvv.go, card_pin.go,
--                           driver_license.go, phone.go, email.go, date.go; Detectors/Labels: the words behind
--                           a label; Detectors/Labelled: citizenship.go, card_holder.go,
--                           place_of_birth.go, passport.go
--   Engine                  engine/verify.go and the steps of engine/processor.go: validate, detect,
--                           mask, verify; Engine/Processor: Process, Mask, Demask, read and save
--   Config                  internal/platform/config/config.go and manager.go: Config/Secrets the secrets,
--                           Config/Validate the checks and policies, Config/Manager the snapshots;
--                           Policy/System has policy.Policy as the configuration builds it
--   Proxy                   internal/proxy/server.go and decode.go: what a request brings, answers and
--                           errors; Proxy/Decode: decodeObject, decodeFields, decodeRequest;
--                           Proxy/Handlers: the handlers and routes; Proxy/Admission: withMiddleware
--   Tests                   concrete inputs
--
-- The other files hold lemmas and proofs about the part whose name they begin with. Prelude has the names,
-- tests, lists and maps that all parts share.
--
-- State and operations: a store is a value that each operation takes and returns. `Store.get` is TTLStore.Get,
-- whose two locked sections are `get_read` and `evict`; `Engine.Processor.process`, `mask_text` and `demask`
-- are Process, Mask and Demask. The time of a call, its nonce and what ctx.Err() returns at each place
-- are fields of `Engine.Call`. An item of the store has an `address`, which stands for the identity of its
-- pointer.
--
-- Numbers: in the engine, the store and the detectors, offsets, times in nanoseconds and confidences in
-- hundredths are natural numbers, so a confidence is never NaN or negative and a duration never negative.
-- The configuration has integers (Prelude/Integers), which its checks test for their sign. The counter
-- of tokens is an int that the MAC reads modulo 2^64. Time 0 is the zero time. A Redis client sends a TTL in
-- whole milliseconds, so a value is taken to live for the TTL less a millisecond at most.
--
-- Fuel: `Tokens.token` searches with one more try than there are reserved tokens; tokens at different
-- counters differ, so that is enough. `decode_fields` has one more round than there are names, and each
-- round ends the loop or sees a new name. `scan_words` has one more round than there are bytes, and each
-- round that goes on takes one. `decimal` has one more step than its number. All other loops
-- are structural.
--
-- Parameters: the Unicode tables, SHA-256 and HMAC (`Machine.digest`, `Mac`), compiled expressions
-- (`Patterns`, `Detectors.Fields.Pattern`, which stands for an expression behind its literal prefilter),
-- the JSON decoder and the provider of the proxy, the decoding of a configuration's fields, the
-- environment and files (`Host`), the crypto packages and encodings of the codec, the Redis client, and
-- detectors where the registry runs them. A failing or panicking detector is `none`. sort.SliceStable is a
-- stable insertion sort, and sort.Search the first success of its test.
--
-- Not modelled: logs, metrics and ContextStats, which nothing reads back; the store's own look at
-- ctx.Err(), which follows that of the Processor; a nil record that a store returns with ok; the nil
-- slices and maps of a configuration, where only reflect.DeepEqual tells them from empty ones; the detectors of names and addresses, the literal
-- prefilter of expressions; the start of the proxy, the strict reading of a JSON configuration, the
-- administration, the provider client and the mock programs.
pub mod Prelude
pub mod Text
pub mod Domain
pub mod Masking
pub mod Overlap
pub mod Normalize
pub mod Registry
pub mod Policy
pub mod Store
pub mod Markers
pub mod Tokens
pub mod Context
pub mod Detectors
pub mod Engine
pub mod Config
pub mod Proxy
pub mod Tests
