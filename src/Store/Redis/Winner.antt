-- ===== src/Store/Redis/Winner.antt =====
-- The first writer wins.
use vibe_alfa_gen.Prelude.{
  ℕ, ◌+◌, ◌-◌, ◌≤◌, ◌<◌, ◌≡◌, refl, ◌∙◌, Bool, true, false, String, Option, none, some, nat_eq,
  length, List, arith,
}
use vibe_alfa_gen.Domain.{Result, ok, err}
use vibe_alfa_gen.Domain.Results.{>>=-eq-ok, ok-value}
use vibe_alfa_gen.Text.{Text}
use vibe_alfa_gen.Store.{Record, Time}
use vibe_alfa_gen.Store.Codec.{Crypto, new_codec, seal, open_record}
use vibe_alfa_gen.Store.Codec.Opened.{IsCrypto, open_record-seal}
use vibe_alfa_gen.Store.Redis.{
  RedisClient, RedisStore, key_of, get_record, create_record, time_left, winner, after_set,
}

abbrev pub is_none {ℓ} : {A : Type ℓ} → Option A → Bool
is_none none = true
is_none (some _) = false

-- The client sends a TTL in whole milliseconds, and the part of one that is left is lost.
abbrev pub millisecond : ℕ
millisecond = 1000000

-- A Redis server that answers: a map of values that have not expired. GET leaves it as it is, and SET
-- with NX writes only where there is no value. A value is kept for the TTL, less a millisecond at most.
pub record IsRedis {S : Type 0} (client : RedisClient S) : Type 0 where
  pub view : S → Time → Text → Option Text
  pub get-view :
      (st : S) (now : Time) (key : Text) → client.get st now key ≡ (ok (view st now key), st)
  pub set-view :
      (st : S) (now : Time) (key value : Text) (ttl : ℕ)
      → (client.set_nx st now key value ttl).0 ≡ ok (is_none (view st now key))
  pub view-set_free :
      (st : S) (now later : Time) (key value : Text) (ttl : ℕ)
      → view st now key ≡ none
      → now ≤ later
      → later + millisecond ≤ now + ttl
      → view (client.set_nx st now key value ttl).1 later key ≡ some value
  pub view-set_taken :
      (st : S) (now later : Time) (key other_key value old : Text) (ttl : ℕ)
      → view st now key ≡ some old
      → view (client.set_nx st now key value ttl).1 later other_key ≡ view st later other_key

module _ (cr : Crypto) (laws : IsCrypto cr) {S : Type 0} (client : RedisClient S)
    (redis : IsRedis client) (s : RedisStore) (active_id : Text) (keys : List (Text × Text))
    (made : new_codec cr active_id keys ≡ ok s.codec) where
  open redis use {view, get-view, set-view, view-set_free, view-set_taken}

  -- A nonce and a record that can be written, and what JSON makes of it.
  pub record IsWritable (nonce : Text) (rec : Record) : Type 0 where
    pub plaintext : Text
    pub sized : length nonce ≡ cr.nonce_size
    pub written : cr.marshal_record rec ≡ some plaintext
    pub back : cr.unmarshal_record plaintext ≡ some rec

  sealed :
      (nonce key : Text) (rec : Record)
      → IsWritable nonce rec
      → (value : Text) × (seal cr s.codec (some nonce) key rec ≡ ok value)
        × (open_record cr s.codec key value ≡ ok rec)
  sealed nonce key rec w =
      >>=-eq-ok (seal cr s.codec (some nonce) key rec) (open_record cr s.codec key) rec (
        open_record-seal cr laws active_id active_id keys keys s.codec s.codec nonce key w.plaintext
          rec made made refl w.sized w.written w.back)

  after_set_created :
      (now : Time) (id : String) (rec : Record) (answer : Result Bool × S)
      → answer.0 ≡ ok true
      → after_set cr client s now id rec answer ≡ (ok (rec, true), answer.1)
  after_set_created now id rec (ok true, st) h = refl
  after_set_created now id rec (ok false, st) h = absurd (cc (ok-value h))
  after_set_created now id rec (err e, st) h = absurd (cc h)

  after_set_taken :
      (now : Time) (id : String) (rec : Record) (answer : Result Bool × S)
      → answer.0 ≡ ok false
      → after_set cr client s now id rec answer
        ≡ winner cr client s (get_record cr client s answer.1 now id)
  after_set_taken now id rec (ok true, st) h = absurd (cc (ok-value h))
  after_set_taken now id rec (ok false, st) h = refl
  after_set_taken now id rec (err e, st) h = absurd (cc h)

  time_left_alive :
      (now : Time) (rec : Record)
      → now < rec.expires_at
      → time_left cr client s now rec ≡ ok (rec.expires_at - now)
  time_left_alive now rec h = ground arith

  abbrev key : String → Text
  key id = key_of s id

  -- What a record that has not expired leads to.
  abbrev asked : S → Time → String → Record → Text → Result Bool × S
  asked st now id rec value = client.set_nx st now (key id) value (rec.expires_at - now)

  create_record-set :
      (st : S) (now : Time) (nonce : Text) (id : String) (rec : Record) (value : Text)
      → seal cr s.codec (some nonce) (key id) rec ≡ ok value
      → now < rec.expires_at
      → create_record cr client s st now (some nonce) id rec
        ≡ after_set cr client s now id rec (asked st now id rec value)
  unfolding create_record
  create_record-set st now nonce id rec value written alive =
      rw (create_record, written, time_left_alive now rec alive) refl

  get_record-view :
      (st : S) (now : Time) (id : String) (value : Text) (rec : Record)
      → view st now (key id) ≡ some value
      → open_record cr s.codec (key id) value ≡ ok rec
      → get_record cr client s st now id ≡ (ok (some rec), st)
  unfolding get_record
  get_record-view st now id value rec there back =
      rw (get_record, get-view st now (key id), there, back) refl

  -- Of two writers of one ID the first wins: it creates its record, and until a millisecond before this
  -- expires, the second is answered with it, and Get returns it afterwards.
  pub create_record-create_record :
      (st : S) (now now' later : Time) (nonce nonce' : Text) (id : String) (rec rec' : Record)
      → IsWritable nonce rec
      → IsWritable nonce' rec'
      → view st now (key_of s id) ≡ none
      → now ≤ now'
      → now' ≤ later
      → later + millisecond ≤ rec.expires_at
      → now' < rec'.expires_at
      → let (saved, st1) = create_record cr client s st now (some nonce) id rec in
        let (saved', st2) = create_record cr client s st1 now' (some nonce') id rec' in
        (saved ≡ ok (rec, true))
        × ((saved' ≡ ok (rec, false)) × ((get_record cr client s st2 later id).0 ≡ ok (some rec)))
  create_record-create_record st now now' later nonce nonce' id rec rec' w w' free h1 h2 h3 h4 =
      let (value, written, back) = sealed nonce (key id) rec w in
      let (value', written', back') = sealed nonce' (key id) rec' w' in
      let first = asked st now id rec value in
      let is_set : first.0 ≡ ok true =
        set-view st now (key id) value (rec.expires_at - now) ∙ rw free refl in
      let seen : (t : Time)
          → now ≤ t
          → t + millisecond ≤ rec.expires_at
          → view first.1 t (key id) ≡ some value =
        λ t from until.
          view-set_free st now t (key id) value (rec.expires_at - now) free from
            (omega (arith, from, until)) in
      let second = asked first.1 now' id rec' value' in
      let here = seen now' h1 (omega (arith, h2, h3)) in
      let is_taken : second.0 ≡ ok false =
        set-view first.1 now' (key id) value' (rec'.expires_at - now') ∙ rw here refl in
      let still : (t : Time) → view second.1 t (key id) ≡ view first.1 t (key id) = λ t.
        view-set_taken first.1 now' t (key id) (key id) value' value (rec'.expires_at - now')
          here in
      rw
        (
          create_record-set st now nonce id rec value written (omega (arith, h1, h2, h3)),
          after_set_created now id rec first is_set,
          create_record-set first.1 now' nonce' id rec' value' written' h4,
          after_set_taken now' id rec' second is_taken,
          get_record-view second.1 now' id value rec (still now' ∙ here) back,
          get_record-view second.1 later id value rec
              (still later ∙ seen later (omega (arith, h1, h2)) h3) back,
        )
        (refl, (refl, refl))
