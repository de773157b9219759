-- ===== src/Store/Redis.antt =====
-- internal/pii/store/redis.go: the store over a Redis client.
pub mod Winner
use vibe_alfa_gen.Prelude.{
  ℕ, ◌-◌, Bool, true, false, not, List, [], ◌++◌, String, Option, none, some, leb, if◌then◌else◌,
  ◌==◌, nat_eq, length, ℤ, is_positive, to_nat,
}
use vibe_alfa_gen.Domain.{Result, ok, err, other, ◌>>=◌}
use vibe_alfa_gen.Text.{Text, codes}
use vibe_alfa_gen.Store.{Record, Time}
use vibe_alfa_gen.Store.Codec.{Crypto, Codec, seal, open_record}

-- redis.UniversalClient over a state `S`: GET, where `none` is redis.Nil, and SET with NX and a TTL
-- in nanoseconds.
pub record RedisClient (S : Type 0) : Type 0 where
  pub get : S → Time → Text → Result (Option Text) × S
  pub set_nx : S → Time → Text → Text → ℕ → Result Bool × S

-- RedisStore, without its client. The TTL is positive.
pub record RedisStore : Type 0 where
  pub codec : Codec
  pub ttl : ℕ
  pub prefix : Text

-- NewRedisStore, for a client and a codec that are not nil.
unfoldable pub new_redis_store : Codec → ℤ → Text → Result RedisStore
new_redis_store codec ttl prefix =
    if not (is_positive ttl)
    then err other
    else ok (record {
      codec = codec;
      ttl = to_nat ttl;
      prefix = if length prefix == 0 then codes "alfagen:context:" else prefix;
    })

abbrev pub key_of : RedisStore → String → Text
key_of s id = s.prefix ++ codes id

module _ (cr : Crypto) {S : Type 0} (client : RedisClient S) (s : RedisStore) where
  abbrev pub opened : Text → Result (Option Text) → Result (Option Record)
  opened key (err e) = err e
  opened key (ok none) = ok none
  opened key (ok (some value)) = open_record cr s.codec key value >>= λ rec. ok (some rec)

  -- RedisStore.Get
  unfoldable pub get_record : S → Time → String → Result (Option Record) × S
  get_record st now id =
      let (value, st') = client.get st now (key_of s id) in (opened (key_of s id) value, st')

  -- How long a record is kept; a record that has expired is refused.
  abbrev pub time_left : Time → Record → Result ℕ
  time_left now rec =
      if rec.expires_at == 0
      then ok s.ttl
      else if leb rec.expires_at now
      then err other
      else ok (rec.expires_at - now)

  abbrev pub winner : Result (Option Record) × S → Result (Record × Bool) × S
  winner (err e, st) = (err e, st)
  winner (ok none, st) = (err other, st)
  winner (ok (some stored), st) = (ok (stored, false), st)

  abbrev pub after_set : Time → String → Record → Result Bool × S → Result (Record × Bool) × S
  after_set now id rec (err e, st) = (err e, st)
  after_set now id rec (ok true, st) = (ok (rec, true), st)
  after_set now id rec (ok false, st) = winner (get_record st now id)

  abbrev pub set_value : S → Time → String → Record → Result ℕ → Text → Result (Record × Bool) × S
  set_value st now id rec (err e) value = (err e, st)
  set_value st now id rec (ok ttl) value =
      after_set now id rec (client.set_nx st now (key_of s id) value ttl)

  abbrev pub with_value : S → Time → String → Record → Result Text → Result (Record × Bool) × S
  with_value st now id rec (err e) = (err e, st)
  with_value st now id rec (ok value) = set_value st now id rec (time_left now rec) value

  -- RedisStore.CreateIfAbsent, at one time, with the nonce of Codec.Seal.
  unfoldable pub create_record :
      S → Time → Option Text → String → Record → Result (Record × Bool) × S
  unfolding get_record
  create_record st now random id rec =
      with_value st now id rec (seal cr s.codec random (key_of s id) rec)
