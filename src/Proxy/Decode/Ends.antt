-- ===== src/Proxy/Decode/Ends.antt =====
-- The loop of decodeFields ends, whatever the decoder answers.
use vibe_alfa_gen.Prelude.{
  ℕ, zero, suc, ◌<◌, ◌≡◌, refl, ap, true, List, [], ◌∷◌, Option, some, inl, inr, Bool-cases,
  Option-cases, ◌==◌, text_eq, length, map, count_of, not, arith,
}
use vibe_alfa_gen.Domain.{Result, ok, err, invalid_json, extra_field}
use vibe_alfa_gen.Text.{Text}
use vibe_alfa_gen.Proxy.Decode.{Slot, Decoder, name_of, is_free, put, fresh_slots, decode_fields}

-- The names that were not seen yet.
abbrev pub unseen : List Slot → ℕ
unseen = count_of (λ s. not s.seen)

-- A name that is free was not seen, and is seen afterwards.
unseen-put :
    (name : Text) (value : Option Text) (slots : List Slot)
    → is_free name slots ≡ true
    → suc (unseen (put name value slots)) ≡ unseen slots
unfolding is_free put
unseen-put name value [] h = absurd (cc h)
unseen-put name value (s ∷ slots) h = ground (arith, unseen-put name value slots)

unseen-fresh_slots : (allowed : List Text) → unseen (fresh_slots allowed) ≡ length allowed
unfolding fresh_slots
unseen-fresh_slots [] = refl
unseen-fresh_slots (name ∷ allowed) = ap suc (unseen-fresh_slots allowed)

-- The slots keep their names and their order.
abbrev pub names : List Slot → List Text
names = map (λ s. s.name)

names-put :
    (name : Text) (value : Option Text) (slots : List Slot)
    → names (put name value slots) ≡ names slots
unfolding put
names-put name value [] = refl
names-put name value (s ∷ slots) = elim (Bool-cases (s.name == name)) [
  | inl e ↦ rw e refl
  | inr e ↦ rw e (ap (◌∷◌ s.name) (names-put name value slots))
]

module _ {S : Type 0} (dec : Decoder S) where
  -- More rounds than names that are left are enough.
  decode_fields-some :
      (fuel : ℕ) (slots : List Slot) (s : S)
      → unseen slots < fuel
      → (result : Result (List Slot) × S) × (decode_fields dec fuel slots s ≡ some result)
  unfolding decode_fields
  decode_fields-some zero slots s h = absurd (omega arith)
  decode_fields-some (suc fuel) slots s h = elim (Bool-cases (dec.more s)) [
    | inr e ↦ ((ok slots, s), rw e refl)
    | inl e ↦ elim (Option-cases (name_of (dec.token s).0)) [
      | inl e1 ↦ ((err invalid_json, (dec.token s).1), rw (e, e1) refl)
      | inr (name, e1) ↦ elim (Bool-cases (is_free name slots)) [
        | inr e2 ↦ ((err extra_field, (dec.token s).1), rw (e, e1, e2) refl)
        | inl e2 ↦ elim (Option-cases (dec.decode (dec.token s).1).0) [
          | inl e3 ↦ ((err invalid_json, (dec.decode (dec.token s).1).1), rw (e, e1, e2, e3) refl)
          | inr (v, e3) ↦
              let (result, rest) =
                decode_fields-some fuel (put name v slots) (dec.decode (dec.token s).1).1
                  (omega (arith, unseen-put name v slots e2)) in
              (result, rw (e, e1, e2, e3) rest)
        ]
      ]
    ]
  ]

  -- Whatever the decoder answers, the loop over the fields ends within one round more than there are
  -- names: a name that comes a second time, or is not allowed, ends it.
  pub decode_fields-ends :
      (allowed : List Text) (s : S)
      → (result : Result (List Slot) × S) × (decode_fields dec
            (suc (length allowed))
            (fresh_slots allowed)
            s
          ≡ some result)
  decode_fields-ends allowed s =
      decode_fields-some (suc (length allowed)) (fresh_slots allowed) s
        (omega (arith, unseen-fresh_slots allowed))
