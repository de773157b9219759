-- ===== src/Masking/Names.antt =====
-- maskFullName and maskEmail: what they show of a name and of an address.
use vibe_alfa_gen.Prelude.{
  ℕ, suc, ◌<◌, ◌≡◌, refl, sym, ap, ◌∙◌, List, [], ◌∷◌, ◌++◌, arith, none, some, Bool, true, false,
  not, nat_eq, length, take, drop, replicate, All, all_of, map, append_assoc, append-nil,
}
use vibe_alfa_gen.Text.{Text, Runes}
use vibe_alfa_gen.Text.Unicode.{Unicode}
use vibe_alfa_gen.Text.Utf8.{encode_rune}
use vibe_alfa_gen.Masking.{
  star, fields_from, fields, initials, mask_full_name, index_byte, last_index_byte, mask_local,
  mask_domain, mask_email,
}

-- A word as a name shows it, and such words with a space between them.
abbrev dotted : Runes → Runes
dotted [] = []
dotted (r ∷ _) = r ∷ 0x2E ∷ []

unfoldable pub spaced : List Runes → Runes
spaced [] = []
spaced (w ∷ []) = dotted w
spaced (w ∷ v ∷ ws) = dotted w ++ 0x20 ∷ spaced (v ∷ ws)

-- Words, each behind its gap, and then an end.
unfoldable pub spread : List (Runes × Runes) → Runes → Runes
spread [] end = end
spread ((gap, word) ∷ more) end = gap ++ (word ++ spread more end)

abbrev pub word_of : Runes × Runes → Runes
word_of p = p.1

initials-spaced :
    (w : Runes) (ws : List Runes)
    → All (λ v. 0 < length v) (w ∷ ws)
    → initials (w ∷ ws) ≡ 0x20 ∷ spaced (w ∷ ws)
unfolding initials spaced
initials-spaced [] ws h = absurd (omega (arith, h.0))
initials-spaced (r ∷ w) [] h = refl
initials-spaced (r ∷ w) (v ∷ ws) h = ap (λ rest. 0x20 ∷ r ∷ 0x2E ∷ rest) (initials-spaced v ws h.1)

module _ (u : Unicode) where
  open u use {is_space}

  abbrev no_space : ℕ → Bool
  no_space r = not (is_space r)

  -- A word has a rune, and no white space; a gap is white space.
  abbrev pub IsWord : Runes → Type 0
  IsWord w = (0 < length w) × (all_of no_space w ≡ true)

  abbrev pub IsGap : Runes → Type 0
  IsGap gap = (0 < length gap) × (all_of is_space gap ≡ true)

  abbrev pub IsSpread : List (Runes × Runes) → Type 0
  IsSpread = All (λ p. IsGap p.0 × IsWord p.1)

  fields_from-word :
      (word w rs : Runes)
      → all_of no_space w ≡ true
      → fields_from u word (w ++ rs) ≡ fields_from u (word ++ w) rs
  unfolding fields_from
  fields_from-word word [] rs h = ap (λ x. fields_from u x rs) (sym (append-nil word))
  fields_from-word word (r ∷ w) rs h =
      let in_word : is_space r ≡ false = ground arith in
      let later : all_of no_space w ≡ true = ground arith in
      rw in_word (
        fields_from-word (word ++ r ∷ []) w rs later
        ∙ ap (λ x. fields_from u x rs) (append_assoc word (r ∷ []) w))

  fields_from-blank :
      (gap rs : Runes) → all_of is_space gap ≡ true → fields_from u [] (gap ++ rs) ≡ fields u rs
  unfolding fields_from
  fields_from-blank [] rs h = refl
  fields_from-blank (r ∷ gap) rs h =
      let blank : is_space r ≡ true = ground arith in
      let later : all_of is_space gap ≡ true = ground arith in
      rw blank (fields_from-blank gap rs later)

  fields_from-gap :
      (word gap rs : Runes)
      → 0 < length word
      → IsGap gap
      → fields_from u word (gap ++ rs) ≡ word ∷ fields u rs
  unfolding fields_from
  fields_from-gap word [] rs h g = absurd (omega (arith, g.0))
  fields_from-gap [] (r ∷ gap) rs h g = absurd (omega (arith, h))
  fields_from-gap (w ∷ word) (r ∷ gap) rs h (_, g) =
      let blank : is_space r ≡ true = ground arith in
      let later : all_of is_space gap ≡ true = ground arith in
      rw blank (ap (λ x. (w ∷ word) ∷ x) (fields_from-blank gap rs later))

  fields_from-end :
      (word end : Runes)
      → 0 < length word
      → all_of is_space end ≡ true
      → fields_from u word end ≡ word ∷ []
  unfolding fields_from
  fields_from-end [] end h g = absurd (omega (arith, h))
  fields_from-end (w ∷ word) [] h g = refl
  fields_from-end (w ∷ word) (r ∷ end) h g =
      let blank : is_space r ≡ true = ground arith in
      let later : all_of is_space end ≡ true = ground arith in
      let none_left : fields u end ≡ [] =
        ap (fields u) (sym (append-nil end)) ∙ fields_from-blank end [] later in
      rw blank (ap (λ x. (w ∷ word) ∷ x) none_left)

  fields_from-spread :
      (word : Runes) (more : List (Runes × Runes)) (end : Runes)
      → IsWord word
      → IsSpread more
      → all_of is_space end ≡ true
      → fields u (word ++ spread more end) ≡ word ∷ map word_of more
  unfolding spread
  fields_from-spread word [] end w s blank =
      fields_from-word [] word end w.1 ∙ fields_from-end word end w.0 blank
  fields_from-spread word ((gap, next) ∷ more) end w ((g, w1), s) blank =
      fields_from-word [] word (gap ++ (next ++ spread more end)) w.1
      ∙ fields_from-gap word gap (next ++ spread more end) w.0 g
      ∙ ap (λ x. word ∷ x) (fields_from-spread next more end w1 s blank)

  words_filled :
      (more : List (Runes × Runes)) → IsSpread more → All (λ v. 0 < length v) (map word_of more)
  words_filled [] s = tt
  words_filled (p ∷ more) (w, s) = (w.1.0, words_filled more s)

  -- Of a text of words with any white space before, between and behind them, the masked name has the
  -- first rune of each word with a dot, and one space between two words, and nothing else.
  pub mask_full_name-spread :
      (front word : Runes) (more : List (Runes × Runes)) (end : Runes)
      → all_of is_space front ≡ true
      → IsWord word
      → IsSpread more
      → all_of is_space end ≡ true
      → mask_full_name u (front ++ (word ++ spread more end)) ≡ spaced (word ∷ map word_of more)
  unfolding mask_full_name
  mask_full_name-spread front word more end blank w s last =
      let found : fields u (front ++ (word ++ spread more end)) ≡ word ∷ map word_of more =
        fields_from-blank front (word ++ spread more end) blank
        ∙ fields_from-spread word more end w s last in
      rw (mask_full_name, found, initials-spaced word (map word_of more) (w.0, words_filled more s))
        refl

index_byte-append :
    (c : ℕ) (s t : Text) → index_byte c s ≡ none → index_byte c (s ++ c ∷ t) ≡ some (length s)
unfolding index_byte
index_byte-append c [] t h = ground arith
index_byte-append c (b ∷ s) t h = ground (arith, index_byte-append c s t)

last_index_byte-append :
    (c : ℕ) (s t : Text)
    → last_index_byte c t ≡ none
    → last_index_byte c (s ++ c ∷ t) ≡ some (length s)
unfolding last_index_byte
last_index_byte-append c [] t h = ground arith
last_index_byte-append c (b ∷ s) t h = ground (arith, last_index_byte-append c s t)

take_left {ℓ} : {A : Type ℓ} (xs ys : List A) → take (length xs) (xs ++ ys) ≡ xs
take_left [] ys = refl
take_left (x ∷ xs) ys = ap (◌∷◌ x) (take_left xs ys)

drop_left {ℓ} : {A : Type ℓ} (xs ys : List A) → drop (length xs) (xs ++ ys) ≡ ys
drop_left [] ys = refl
drop_left (x ∷ xs) ys = drop_left xs ys

suffix_next {ℓ} : {A : Type ℓ} (xs ys : List A) (a : A) → drop (suc (length xs)) (xs ++ a ∷ ys) ≡ ys
suffix_next [] ys a = refl
suffix_next (x ∷ xs) ys a = suffix_next xs ys a

mask_domain_lem :
    (d : ℕ) (s tld : Text)
    → last_index_byte 0x2E tld ≡ none
    → mask_domain (d ∷ s ++ 0x2E ∷ tld) ≡ star ∷ replicate (length s) star ++ 0x2E ∷ tld
unfolding mask_domain last_index_byte
mask_domain_lem d s tld h =
    rw (last_index_byte-append 0x2E (d ∷ s) tld h) (rw (drop_left s (0x2E ∷ tld)))

mask_local_lem : (b : ℕ) (s : Text) → b < 0x80 → mask_local (b ∷ s) ≡ b ∷ replicate (length s) star
unfolding mask_local encode_rune
mask_local_lem b s h = ground arith

module _ (u : Unicode) where
  -- An address `b s @ d t . tld` with an ASCII first byte, no '@' before its '@' and no '.' in its
  -- last label keeps the first byte, the '@' and the last label; each other byte is a star.
  pub mask_email_lem :
      (b : ℕ) (s : Text) (d : ℕ) (t tld : Text)
      → b < 0x80
      → index_byte 0x40 (b ∷ s) ≡ none
      → last_index_byte 0x2E tld ≡ none
      → mask_email u (b ∷ s ++ (0x40 ∷ d ∷ t ++ 0x2E ∷ tld))
        ≡ b ∷ replicate (length s) star ++ (0x40 ∷ star ∷ replicate (length t) star ++ 0x2E ∷ tld)
  unfolding mask_email
  mask_email_lem b s d t tld ascii at dot =
      let rest : Text = d ∷ t ++ 0x2E ∷ tld in
      let found : index_byte 0x40 (b ∷ s ++ 0x40 ∷ rest) ≡ some (suc (length s)) =
        index_byte-append 0x40 (b ∷ s) rest at in
      rw (found, mask_email)
        (rw (
          take_left s (0x40 ∷ rest),
          suffix_next s rest 0x40,
          mask_local_lem b s ascii,
          mask_domain_lem d t tld dot,
        ))
