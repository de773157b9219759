-- ===== src/Tests/Redis.antt =====
-- Two writers of one ID, over a small Redis server and packages that only arrange bytes.
use vibe_alfa_gen.Prelude.{
  ℕ, ◌+◌, ◌*◌, ◌/◌, ◌≤◌, ◌<◌, ◌≡◌, refl, sym, ap, ◌∙◌, true, false, Bool, List, [], ◌∷◌, ◌++◌,
  String, Option, some, none, arith, if◌then◌else◌, ◌==◌, nat_eq, text_eq, ltb, length, take, drop,
  Option-cases, inl, inr, beq_refl,
}
use vibe_alfa_gen.Domain.{Result, ok, ◌>>=◌}
use vibe_alfa_gen.Domain.Results.{ok-value}
use vibe_alfa_gen.Text.{Text, codes}
use vibe_alfa_gen.Store.{Record, Time}
use vibe_alfa_gen.Store.Codec.{Envelope, Crypto, Codec, new_codec, seal, open_record, derived}
use vibe_alfa_gen.Store.Codec.Opened.{IsCrypto, open_record-seal}
use vibe_alfa_gen.Store.Redis.{RedisClient, RedisStore, get_record, create_record}
use vibe_alfa_gen.Store.Redis.Winner.{
  millisecond, IsRedis, is_none, IsWritable, create_record-create_record,
}

-- A text behind its length.
abbrev chunk : Text → Text → Text
chunk t rest = length t ∷ t ++ rest

abbrev unchunk : Text → Text × Text
unchunk [] = ([], [])
unchunk (n ∷ s) = (take n s, drop n s)

take-front : (t rest : Text) → take (length t) (t ++ rest) ≡ t
take-front [] rest = refl
take-front (c ∷ t) rest = ap (◌∷◌ c) (take-front t rest)

drop-front : (t rest : Text) → drop (length t) (t ++ rest) ≡ rest
drop-front [] rest = refl
drop-front (c ∷ t) rest = drop-front t rest

abbrev write_envelope : Envelope → Text
write_envelope e =
    e.version
    ∷ chunk e.key_id
        (chunk e.nonce (chunk e.ciphertext (chunk e.original_hmac (chunk e.masked_hmac []))))

abbrev read_envelope : Text → Option Envelope
read_envelope [] = none
read_envelope (v ∷ s) =
    let (key_id, s1) = unchunk s in
    let (nonce, s2) = unchunk s1 in
    let (ciphertext, s3) = unchunk s2 in
    let (original_hmac, s4) = unchunk s3 in
    some (record {
      version = v;
      key_id = key_id;
      nonce = nonce;
      ciphertext = ciphertext;
      original_hmac = original_hmac;
      masked_hmac = (unchunk s4).0;
    })

abbrev noted : Text → Record
noted text = record {
  original = text;
  masked = [];
  findings = [];
  transform_map = [];
  token_nonce = [];
  created_at = 1;
  expires_at = 9000000;
  policy_version = "v1";
}

abbrev plain_crypto : Crypto
plain_crypto = record {
  nonce_size = 0;
  seal_bytes = λ key nonce plaintext aad. plaintext;
  open_bytes = λ key nonce ciphertext aad. some ciphertext;
  hmac = λ key value. value;
  to_base64 = λ s. s;
  of_base64 = λ s. some s;
  to_raw_url = λ s. s;
  marshal_record = λ rec. some rec.original;
  unmarshal_record = λ s. some (noted s);
  marshal_envelope = write_envelope;
  unmarshal_envelope = read_envelope;
  additional_data = λ version key_id id. id;
}

plain_laws : IsCrypto plain_crypto
plain_laws = record {
  base64 = λ s. refl;
  envelope = λ e.
      rw
        (
          take-front e.key_id
              (chunk e.nonce (chunk e.ciphertext (chunk e.original_hmac (chunk e.masked_hmac [])))),
          drop-front e.key_id
              (chunk e.nonce (chunk e.ciphertext (chunk e.original_hmac (chunk e.masked_hmac [])))),
          take-front e.nonce (chunk e.ciphertext (chunk e.original_hmac (chunk e.masked_hmac []))),
          drop-front e.nonce (chunk e.ciphertext (chunk e.original_hmac (chunk e.masked_hmac []))),
          take-front e.ciphertext (chunk e.original_hmac (chunk e.masked_hmac [])),
          drop-front e.ciphertext (chunk e.original_hmac (chunk e.masked_hmac [])),
          take-front e.original_hmac (chunk e.masked_hmac []),
          drop-front e.original_hmac (chunk e.masked_hmac []),
          take-front e.masked_hmac [],
        )
        refl;
  aead = λ key nonce plaintext aad. refl;
}

-- A server with an expiry for each value, and a client that sends whole milliseconds, one at least.
abbrev Server : Type 0
Server = Text → Option (Text × Time)

abbrev alive : Time → Option (Text × Time) → Option Text
alive now none = none
alive now (some (value, expires)) = if ltb now expires then some value else none

abbrev set_key : Text → Text × Time → Server → Server
set_key key entry st asked = if key == asked then some entry else st asked

abbrev kept_for : ℕ → ℕ
kept_for ttl = if ltb ttl millisecond then millisecond else ttl / millisecond * millisecond

abbrev set_absent : Server → Time → Text → Text → ℕ → Option Text → Result Bool × Server
set_absent st now key value ttl none = (ok true, set_key key (value, now + kept_for ttl) st)
set_absent st now key value ttl (some _) = (ok false, st)

abbrev small_client : RedisClient Server
small_client = record {
  get = λ st now key. (ok (alive now (st key)), st);
  set_nx = λ st now key value ttl. set_absent st now key value ttl (alive now (st key));
}

set_absent-answer :
    (st : Server) (now : Time) (key value : Text) (ttl : ℕ) (old : Option Text)
    → (set_absent st now key value ttl old).0 ≡ ok (is_none old)
set_absent-answer st now key value ttl none = refl
set_absent-answer st now key value ttl (some _) = refl

kept_value :
    (value : Text) (now later : Time) (ttl : ℕ)
    → later + millisecond ≤ now + ttl
    → now ≤ later
    → alive later (some (value, now + kept_for ttl)) ≡ some value
kept_value value now later ttl h from = ground arith

small_client-IsRedis : IsRedis small_client
small_client-IsRedis = record {
  view = λ st now key. alive now (st key);
  get-view = λ st now key. refl;
  set-view = λ st now key value ttl. set_absent-answer st now key value ttl (alive now (st key));
  view-set_free = λ st now later key value ttl free from until.
      rw (free, beq_refl key) (kept_value value now later ttl until from);
  view-set_taken = λ st now later key other_key value old ttl taken. rw taken refl;
}

abbrev key_a : Text
key_a = codes "0123456789abcdef0123456789abcdef"

abbrev first_keys : List (Text × Text)
first_keys = (codes "a", key_a) ∷ []

-- The codecs before and after a rotation of the key.
abbrev first_codec : Codec
first_codec = record {
  active_id = codes "a";
  ciphers = (codes "a", key_a) ∷ [];
  mac_keys = (codes "a", derived plain_crypto key_a) ∷ [];
}

abbrev both_keys : List (Text × Text)
both_keys = (codes "b", key_a) ∷ first_keys

abbrev second_codec : Codec
second_codec = record {
  active_id = codes "b";
  ciphers = both_keys;
  mac_keys = (codes "b", derived plain_crypto key_a) ∷ (codes "a", derived plain_crypto key_a) ∷ [];
}

first_made : new_codec plain_crypto (codes "a") first_keys ≡ ok first_codec
unfolding new_codec vibe_alfa_gen.Prelude.lookup vibe_alfa_gen.Prelude.insert
first_made = refl

second_made : new_codec plain_crypto (codes "b") both_keys ≡ ok second_codec
unfolding new_codec vibe_alfa_gen.Prelude.lookup vibe_alfa_gen.Prelude.insert
second_made = refl

a_kept :
    vibe_alfa_gen.Prelude.lookup (codes "a") both_keys
    ≡ vibe_alfa_gen.Prelude.lookup (codes "a") first_keys
unfolding vibe_alfa_gen.Prelude.lookup
a_kept = refl

open_record-seal_example :
    (seal plain_crypto first_codec (some []) (codes "k") (noted (codes "x"))
      >>= open_record plain_crypto second_codec (codes "k"))
    ≡ ok (noted (codes "x"))
open_record-seal_example =
    open_record-seal plain_crypto plain_laws (codes "a") (codes "b") first_keys both_keys
      first_codec second_codec [] (codes "k") (codes "x") (noted (codes "x")) first_made second_made
      a_kept refl refl refl

abbrev small_store : RedisStore
small_store = record { codec = first_codec; ttl = 5; prefix = codes "p:" }

abbrev nothing : Server
nothing key = none

can_write :
    (text : Text)
    → IsWritable plain_crypto plain_laws small_client small_client-IsRedis small_store
        (codes "a")
        first_keys
        first_made
        []
        (noted text)
can_write text = record { plaintext = text; sized = refl; written = refl; back = refl }

nothing_there : small_client-IsRedis.view nothing 1 (codes "p:c") ≡ none
nothing_there =
    ok-value (ap (λ p. p.0) (sym (small_client-IsRedis.get-view nothing 1 (codes "p:c"))))

abbrev first_write : Result (Record × Bool) × Server
first_write =
    create_record plain_crypto small_client small_store nothing 1 (some []) "c" (noted (codes "x"))

abbrev second_write : Result (Record × Bool) × Server
second_write =
    create_record plain_crypto small_client small_store first_write.1 2 (some []) "c"
      (noted (codes "y"))

create_record-create_record_example :
    (first_write.0 ≡ ok (noted (codes "x"), true))
    × ((second_write.0 ≡ ok (noted (codes "x"), false))
        × ((get_record plain_crypto small_client small_store second_write.1 3 "c").0
            ≡ ok (some (noted (codes "x")))))
create_record-create_record_example =
    create_record-create_record plain_crypto plain_laws small_client small_client-IsRedis
      small_store (codes "a") first_keys first_made nothing 1 2 3 [] [] "c" (noted (codes "x"))
      (noted (codes "y")) (can_write (codes "x")) (can_write (codes "y")) nothing_there
      (omega arith) (omega arith) (omega arith) (omega arith)
