-- ===== src/Store/Codec.antt =====
-- internal/pii/store/codec.go: the encryption of records at rest.
pub mod Opened
use vibe_alfa_gen.Prelude.{
  ℕ, Bool, true, false, not, ◌||◌, List, [], ◌∷◌, ◌++◌, Option, none, some, if◌then◌else◌, ◌==◌,
  nat_eq, text_eq, length, lookup, insert,
}
use vibe_alfa_gen.Domain.{Result, ok, err, other, ◌>>=◌, ◌>>◌}
use vibe_alfa_gen.Text.{Text, codes}
use vibe_alfa_gen.Store.{Record}

-- encryptedEnvelope
pub record Envelope : Type 0 where
  pub version : ℕ
  pub key_id : Text
  pub nonce : Text
  pub ciphertext : Text
  pub original_hmac : Text
  pub masked_hmac : Text

-- The packages that the codec calls: `crypto/cipher` with the key of each AEAD, `crypto/hmac` over SHA-256,
-- `encoding/base64`, and `encoding/json` for records, envelopes and what is authenticated with them.
pub record Crypto : Type 0 where
  pub nonce_size : ℕ
  pub seal_bytes : Text → Text → Text → Text → Text
  pub open_bytes : Text → Text → Text → Text → Option Text
  pub hmac : Text → Text → Text
  pub to_base64 : Text → Text
  pub of_base64 : Text → Option Text
  pub to_raw_url : Text → Text
  pub marshal_record : Record → Option Text
  pub unmarshal_record : Text → Option Record
  pub marshal_envelope : Envelope → Text
  pub unmarshal_envelope : Text → Option Envelope
  pub additional_data : ℕ → Text → Text → Text

-- Codec. A cipher is its key; a key has a MAC key for originals and one for masks.
pub record Codec : Type 0 where
  pub active_id : Text
  pub ciphers : List (Text × Text)
  pub mac_keys : List (Text × (Text × Text))

abbrev pub envelope_version : ℕ
envelope_version = 2

abbrev pub or_error {ℓ} : {A : Type ℓ} → Option A → Result A
or_error none = err other
or_error (some a) = ok a

module _ (cr : Crypto) where
  open cr use {
    nonce_size, seal_bytes, open_bytes, hmac, to_base64, of_base64, to_raw_url, marshal_record,
    unmarshal_record, marshal_envelope, unmarshal_envelope, additional_data,
  }

  -- deriveMACKey
  unfoldable pub derive_mac_key : Text → Text → Text
  derive_mac_key key domain = hmac key (codes "alfagen-hmac:" ++ domain)

  -- macValue
  unfoldable pub mac_value : Text → Text → Text
  mac_value mac_key value = to_raw_url (hmac mac_key value)

  abbrev pub derived : Text → Text × Text
  derived key = (derive_mac_key key (codes "original"), derive_mac_key key (codes "masked"))

  -- The loop of NewCodec over its keys.
  unfoldable pub add_keys : List (Text × Text) → Codec → Result Codec
  unfolding derive_mac_key
  add_keys [] c = ok c
  add_keys ((id, key) ∷ keys) c =
      let more = add_keys keys (record c {
        ciphers = insert id key c.ciphers;
        mac_keys = insert id (derived key) c.mac_keys;
      }) in
      if length key == 32 then more else err other

  abbrev pub is_known : Option Text → Bool
  is_known none = false
  is_known (some _) = true

  -- NewCodec
  unfoldable pub new_codec : Text → List (Text × Text) → Result Codec
  unfolding add_keys
  new_codec active_id keys =
      if length active_id == 0
      then err other
      else add_keys keys (record { active_id = active_id; ciphers = []; mac_keys = [] }) >>= λ c.
          if is_known (lookup active_id c.ciphers) then ok c else err other

  abbrev pub envelope_of : Text → Text → (Text × Text) → Text → Text → Text → Record → Envelope
  envelope_of key_id key macs id nonce plaintext rec = record {
    version = envelope_version;
    key_id = key_id;
    nonce = to_base64 nonce;
    ciphertext =
        to_base64 (seal_bytes key nonce plaintext (additional_data envelope_version key_id id));
    original_hmac = mac_value macs.0 rec.original;
    masked_hmac = mac_value macs.1 rec.masked;
  }

  -- Codec.Seal, with the nonce that rand.Read gives. The keys of the active ID are there in a codec that
  -- NewCodec made; without them the code would panic.
  unfoldable pub seal : Codec → Option Text → Text → Record → Result Text
  unfolding mac_value
  seal c random id rec = or_error (lookup c.active_id c.ciphers) >>= λ key.
      or_error (lookup c.active_id c.mac_keys) >>= λ macs. or_error random >>= λ nonce.
      or_error (marshal_record rec) >>= λ plaintext.
      ok (marshal_envelope (envelope_of c.active_id key macs id nonce plaintext rec))

  abbrev pub check_digests : (Text × Text) → Envelope → Record → Result Record
  check_digests macs e rec =
      if not (e.original_hmac == mac_value macs.0 rec.original)
        || not (e.masked_hmac == mac_value macs.1 rec.masked)
      then err other
      else ok rec

  abbrev pub decrypt : Codec → Text → Envelope → Text → Text → Text → Result Record
  decrypt c id e key nonce ciphertext =
      if not (length nonce == nonce_size)
      then err other
      else or_error (open_bytes key nonce ciphertext (additional_data e.version e.key_id id))
        >>= λ plaintext. or_error (unmarshal_record plaintext) >>= λ rec.
            or_error (lookup e.key_id c.mac_keys) >>= λ macs. check_digests macs e rec

  abbrev pub open_envelope : Codec → Text → Envelope → Result Record
  open_envelope c id e =
      if not (e.version == envelope_version)
      then err other
      else or_error (lookup e.key_id c.ciphers) >>= λ key. or_error (of_base64 e.nonce) >>= λ nonce.
          or_error (of_base64 e.ciphertext) >>= λ ciphertext. decrypt c id e key nonce ciphertext

  -- Codec.Open
  unfoldable pub open_record : Codec → Text → Text → Result Record
  unfolding mac_value
  open_record c id encoded = or_error (unmarshal_envelope encoded) >>= open_envelope c id
