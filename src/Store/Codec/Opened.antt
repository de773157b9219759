-- ===== src/Store/Codec/Opened.antt =====
-- A record that was sealed is opened, also by a codec with more keys.
use vibe_alfa_gen.Prelude.{
  ◌≡◌, refl, ◌∙◌, List, [], ◌∷◌, some, inl, inr, Bool-cases, if◌then◌else◌, ◌==◌, nat_eq, text_eq,
  length, lookup, insert, beq_refl, arith, eq_of_beq, lookup-insert, Option-cases,
}
use vibe_alfa_gen.Domain.{ok, err, other, ◌>>=◌}
use vibe_alfa_gen.Domain.Results.{>>=-eq-ok, ok-value}
use vibe_alfa_gen.Text.{Text}
use vibe_alfa_gen.Store.{Record}
use vibe_alfa_gen.Store.Codec.{
  Envelope, Crypto, Codec, derived, add_keys, new_codec, envelope_of, seal, open_record, is_known,
  mac_value, envelope_version,
}

-- What the packages promise: decoding undoes encoding, and AES-GCM opens what it sealed with the same
-- key, nonce and additional data.
pub record IsCrypto (cr : Crypto) : Type 0 where
  pub base64 : (s : Text) → cr.of_base64 (cr.to_base64 s) ≡ some s
  pub envelope : (e : Envelope) → cr.unmarshal_envelope (cr.marshal_envelope e) ≡ some e
  pub aead :
      (key nonce plaintext aad : Text)
      → cr.open_bytes key nonce (cr.seal_bytes key nonce plaintext aad) aad ≡ some plaintext

module _ (cr : Crypto) where
  -- Each key of a codec has the MAC keys that are derived from it.
  record IsCodec (c : Codec) : Type 0 where
    macs :
        (id key : Text)
        → lookup id c.ciphers ≡ some key
        → lookup id c.mac_keys ≡ some (derived cr key)

  add_keys-IsCodec :
      (keys : List (Text × Text)) (c c' : Codec)
      → IsCodec c
      → add_keys cr keys c ≡ ok c'
      → IsCodec c' × (c'.active_id ≡ c.active_id)
  unfolding add_keys
  add_keys-IsCodec [] c c' h e = rw (← ok-value e) (h, refl)
  add_keys-IsCodec ((id, key) ∷ keys) c c' h e = elim (Bool-cases (length key == 32)) [
    | inr short ↦ absurd (cc (rw (add_keys, short) at e))
    | inl long ↦
        add_keys-IsCodec keys
          (record c {
            ciphers = insert id key c.ciphers;
            mac_keys = insert id (derived cr key) c.mac_keys;
          })
          c'
          (record {
            macs = λ j k found. ground (
              arith,
              lookup-insert id j key c.ciphers,
              lookup-insert id j (derived cr key) c.mac_keys,
              eq_of_beq id j,
              h.macs j k,
            );
          })
          (rw (add_keys, long) at e)
  ]

  -- A codec that NewCodec made has the active ID that it was given, and its key.
  record IsReady (active_id : Text) (c : Codec) : Type 0 where
    complete : IsCodec c
    active : c.active_id ≡ active_id
    key : Text
    found : lookup active_id c.ciphers ≡ some key

  new_codec-IsReady :
      (active_id : Text) (keys : List (Text × Text)) (c : Codec)
      → new_codec cr active_id keys ≡ ok c
      → IsReady active_id c
  unfolding new_codec
  new_codec-IsReady active_id keys c h = elim (Bool-cases (length active_id == 0)) [
    | inl e ↦ absurd (cc (rw (new_codec, e) at h))
    | inr e ↦
        let empty : Codec = record { active_id = active_id; ciphers = []; mac_keys = [] } in
        let (c0, added, kept) =
          >>=-eq-ok (add_keys cr keys empty)
            (λ c. if is_known cr (lookup active_id c.ciphers) then ok c else err other) c
            (rw (new_codec, e) at h) in
        let (complete, active) =
          add_keys-IsCodec keys empty c0
            (record { macs = unfold lookup in λ id key none_there. absurd (cc none_there) })
            added in
        elim (Option-cases (lookup active_id c0.ciphers)) [
          | inl e1 ↦ absurd (cc (rw e1 at kept))
          | inr (key, e1) ↦
              rw (← ok-value (rw e1 at kept))
                (record { complete = complete; active = active; key = key; found = e1 })
        ]
  ]

  -- What was sealed for an ID with the active key of a codec is opened for this ID, as it was, by every codec that
  -- still has this key, whatever its own active key is.
  pub open_record-seal :
      (laws : IsCrypto cr) (active_id active_id' : Text) (keys keys' : List (Text × Text))
      (c c' : Codec) (nonce id plaintext : Text) (rec : Record)
      → new_codec cr active_id keys ≡ ok c
      → new_codec cr active_id' keys' ≡ ok c'
      → lookup active_id c'.ciphers ≡ lookup active_id c.ciphers
      → length nonce ≡ cr.nonce_size
      → cr.marshal_record rec ≡ some plaintext
      → cr.unmarshal_record plaintext ≡ some rec
      → (seal cr c (some nonce) id rec >>= open_record cr c' id) ≡ ok rec
  unfolding seal open_record
  open_record-seal laws active_id active_id' keys keys' c c' nonce id plaintext rec made made' kept
        sized written back =
      let ready = new_codec-IsReady active_id keys c made in
      let ready' = new_codec-IsReady active_id' keys' c' made' in
      let there = kept ∙ ready.found in
      rw
        (
          ready.active,
          ready.found,
          ready.complete.macs active_id ready.key ready.found,
          written,
          laws.envelope
              (envelope_of cr active_id ready.key (derived cr ready.key) id nonce plaintext rec),
          there,
          laws.base64 nonce,
          laws.base64 (
              cr.seal_bytes ready.key nonce plaintext
                (cr.additional_data envelope_version active_id id)),
          sized,
          beq_refl cr.nonce_size,
          laws.aead ready.key nonce plaintext (cr.additional_data envelope_version active_id id),
          back,
          ready'.complete.macs active_id ready.key there,
          beq_refl (mac_value cr (derived cr ready.key).0 rec.original),
          beq_refl (mac_value cr (derived cr ready.key).1 rec.masked),
        )
        refl
