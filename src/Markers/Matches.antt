-- ===== src/Markers/Matches.antt =====
-- What the expression of markers matches.
use vibe_alfa_gen.Prelude.{
  ℕ, suc, ◌+◌, ◌<◌, ◌≡◌, ◌≢◌, refl, sym, ap, ◌∙◌, Bool, true, false, ◌&&◌, [], ◌∷◌, ◌++◌, ltb,
  nat_eq, ◌==◌, length, take, drop, all_of, arith, Bool-cases, inl, inr, append_assoc,
  length-append, take-append_front, drop-append_front, all_of-reverse_aux, all_of_mono,
  all_of-append, length-reverse_aux, reverse_aux-append, reverse_aux-reverse, reverse_aux-twice,
  append-nil, take-append-drop, drop-behind, length-take, and-left, and-right, ltb→lt,
}
use mathlib.Core.List.{reverse, reverse_aux}
use vibe_alfa_gen.Text.{Text}
use vibe_alfa_gen.Markers.Spans.{prefix_length-le}
use vibe_alfa_gen.Markers.{
  is_decimal, is_hex, is_type_char, is_under, prefix_length, is_body_rev, not_close, marker_length,
}

prefix_length-stop :
    (p : ℕ → Bool) (xs : Text) (c : ℕ) (s : Text)
    → all_of p xs ≡ true
    → p c ≡ false
    → prefix_length p (xs ++ c ∷ s) ≡ length xs
unfolding prefix_length
prefix_length-stop p [] c s h stop = rw stop refl
prefix_length-stop p (x ∷ xs) c s h stop = ground (arith, prefix_length-stop p xs c s)

-- The groups of a marker, from its end.
is_body_rev-groups :
    (digits tag name : Text)
    → all_of is_decimal digits ≡ true
    → 0 < length digits
    → all_of is_hex tag ≡ true
    → length tag ≡ 32
    → all_of is_type_char name ≡ true
    → 0 < length name
    → is_body_rev (digits ++ (0x5F ∷ (tag ++ (0x5F ∷ name)))) ≡ true
unfolding is_body_rev
is_body_rev-groups digits tag name d d1 t t1 n n1 =
    let rest = tag ++ (0x5F ∷ name) in
    rw
      (
        prefix_length-stop is_decimal digits 0x5F rest d refl,
        drop-append_front (length digits) digits (0x5F ∷ rest) refl,
        take-append_front 32 tag (0x5F ∷ name) t1,
        drop-append_front 32 tag (0x5F ∷ name) t1,
        t1,
        t,
        n,
      )
      (ground arith)

-- The body of a marker, and its reverse.
abbrev pub body_of : Text → Text → Text → Text
body_of name tag digits = name ++ (0x5F ∷ tag ++ (0x5F ∷ digits))

reverse-body_of :
    (name tag digits : Text)
    → reverse (body_of name tag digits)
      ≡ reverse digits ++ (0x5F ∷ (reverse tag ++ (0x5F ∷ reverse name)))
reverse-body_of name tag digits =
    reverse_aux-append name (0x5F ∷ tag ++ (0x5F ∷ digits)) []
    ∙ reverse_aux-append tag (0x5F ∷ digits) (0x5F ∷ reverse name)
    ∙ reverse_aux-reverse digits (0x5F ∷ reverse_aux tag (0x5F ∷ reverse name))
    ∙ ap (λ r. reverse digits ++ (0x5F ∷ r)) (reverse_aux-reverse tag (0x5F ∷ reverse name))

hex_not_close : (c : ℕ) → is_hex c ≡ true → not_close c ≡ true
hex_not_close c h = ground arith

name_not_close : (c : ℕ) → is_type_char c ≡ true → not_close c ≡ true
name_not_close c h = ground arith

digit_not_close : (c : ℕ) → is_decimal c ≡ true → not_close c ≡ true
digit_not_close c h = ground arith

-- A name, a tag and digits between the brackets are a marker.
pub record IsBody (name tag digits : Text) : Type 0 where
  pub named : all_of is_type_char name ≡ true
  pub has_name : 0 < length name
  pub tagged : all_of is_hex tag ≡ true
  pub sized : length tag ≡ 32
  pub counted : all_of is_decimal digits ≡ true
  pub has_digits : 0 < length digits

is_body_rev-body_of :
    (name tag digits : Text)
    → IsBody name tag digits
    → is_body_rev (reverse (body_of name tag digits)) ≡ true
is_body_rev-body_of name tag digits b = rw (reverse-body_of name tag digits) (
    is_body_rev-groups (reverse digits) (reverse tag) (reverse name)
      (all_of-reverse_aux is_decimal digits [] b.counted refl)
      (omega (arith, length-reverse_aux digits [], b.has_digits))
      (all_of-reverse_aux is_hex tag [] b.tagged refl)
      (omega (arith, length-reverse_aux tag [], b.sized))
      (all_of-reverse_aux is_type_char name [] b.named refl)
      (omega (arith, length-reverse_aux name [], b.has_name)))

not_close-body_of :
    (name tag digits : Text)
    → IsBody name tag digits
    → all_of not_close (body_of name tag digits) ≡ true
not_close-body_of name tag digits b =
    let back : all_of not_close (tag ++ (0x5F ∷ digits)) ≡ true =
      all_of-append not_close tag (0x5F ∷ digits)
        (all_of_mono is_hex not_close tag hex_not_close b.tagged)
        (all_of_mono is_decimal not_close digits digit_not_close b.counted) in
    all_of-append not_close name (0x5F ∷ tag ++ (0x5F ∷ digits))
      (all_of_mono is_type_char not_close name name_not_close b.named) back

-- A text that `<([A-Z0-9_]+)_([a-f0-9]{32})_([0-9]+)>` matches as a whole.
pub record IsMarker (m : Text) : Type 0 where
  pub name : Text
  pub tag : Text
  pub digits : Text
  pub body : IsBody name tag digits
  pub spelled : m ≡ 0x3C ∷ body_of name tag digits ++ (0x3E ∷ [])

marker_length-body_of :
    (name tag digits rest : Text)
    → IsBody name tag digits
    → marker_length (0x3C ∷ body_of name tag digits ++ (0x3E ∷ rest))
      ≡ length (body_of name tag digits) + 2
unfolding marker_length
marker_length-body_of name tag digits rest b =
    let body = body_of name tag digits in
    rw
      (
        prefix_length-stop not_close body 0x3E rest (not_close-body_of name tag digits b) refl,
        take-append_front (length body) body (0x3E ∷ rest) refl,
        is_body_rev-body_of name tag digits b,
        length-append body (0x3E ∷ rest),
      )
      (ground arith)

-- A text that begins with a marker has the length of that marker.
pub marker_length-IsMarker : (m rest : Text) → IsMarker m → marker_length (m ++ rest) ≡ length m
marker_length-IsMarker m rest i =
    let body = body_of i.name i.tag i.digits in
    rw i.spelled (
      ap (λ s. marker_length (0x3C ∷ s)) (append_assoc body (0x3E ∷ []) rest)
      ∙ marker_length-body_of i.name i.tag i.digits rest i.body
      ∙ omega (arith, length-append body (0x3E ∷ [])))

-- The bytes that a count of leading ones stands for, and the byte behind them.
all_of-prefix : (p : ℕ → Bool) (s : Text) → all_of p (take (prefix_length p s) s) ≡ true
unfolding prefix_length
all_of-prefix p [] = refl
all_of-prefix p (c ∷ s) = elim (Bool-cases (p c)) [
  | inl e ↦ rw (e, e) (all_of-prefix p s)
  | inr e ↦ rw e refl
]

under-head : (s : Text) → is_under s ≡ true → s ≡ 0x5F ∷ drop 1 s
under-head [] h = absurd (cc h)
under-head (c ∷ s) h = let same : c ≡ 0x5F = ground arith in ap (λ b. b ∷ s) same

longer : (s : Text) → ltb 1 (length s) ≡ true → 0 < length (drop 1 s)
longer [] h = absurd (cc h)
longer (c ∷ []) h = absurd (cc h)
longer (c ∷ d ∷ s) h = omega arith

prefix-filled :
    (p : ℕ → Bool) (s : Text)
    → ltb 0 (prefix_length p s) ≡ true
    → 0 < length (take (prefix_length p s) s)
prefix-filled p s h =
    let some_bytes = ltb→lt 0 (prefix_length p s) h in
    omega (arith, some_bytes, length-take (prefix_length p s) s, prefix_length-le p s)

-- Every reversed body that is accepted has the three groups.
is_body_rev-IsBody :
    (body : Text)
    → is_body_rev body ≡ true
    → (digits tag name : Text) × (body ≡ digits ++ (0x5F ∷ (tag ++ (0x5F ∷ name))))
      × IsBody name tag digits
unfolding is_body_rev
is_body_rev-IsBody body h =
    let d = prefix_length is_decimal body in
    let rest = drop d body in
    let tag = take 32 (drop 1 rest) in
    let before = drop 33 rest in
    let named = ltb 1 (length before) && all_of is_type_char (drop 1 before) in
    let h1 = and-right (ltb 0 d) _ h in
    let h2 = and-right (is_under rest) _ h1 in
    let h3 = and-right (length tag == 32) _ h2 in
    let h4 = and-right (all_of is_hex tag) _ h3 in
    let h5 = and-right (is_under before) named h4 in
    let some_digits = and-left (ltb 0 d) _ h in
    let sized = and-left (length tag == 32) _ h2 in
    let filled = and-left (ltb 1 (length before)) _ h5 in
    let rest_is = under-head rest (and-left (is_under rest) _ h1) in
    let before_is = under-head before (and-left (is_under before) named h4) in
    let split : rest ≡ 0x5F ∷ (tag ++ (0x5F ∷ drop 1 before)) =
      rest_is
      ∙ ap (λ s. 0x5F ∷ s)
          (sym (take-append-drop 32 (drop 1 rest))
            ∙ ap (λ s. tag ++ s) (drop-behind 32 rest ∙ before_is)) in
    (
      take d body,
      tag,
      drop 1 before,
      sym (take-append-drop d body) ∙ ap (λ s. take d body ++ s) split,
      record {
        named = and-right (ltb 1 (length before)) _ h5;
        has_name = longer before filled;
        tagged = and-left (all_of is_hex tag) _ h3;
        sized = ground arith;
        counted = all_of-prefix is_decimal body;
        has_digits = prefix-filled is_decimal body some_digits;
      },
    )

-- A body that reads as the three groups backwards.
groups_of :
    (body : Text)
    → is_body_rev (reverse body) ≡ true
    → (name tag digits : Text) × (body ≡ body_of name tag digits) × IsBody name tag digits
groups_of body h =
    let (digits, tag, name, split, b) = is_body_rev-IsBody (reverse body) h in
    let turned : IsBody (reverse name) (reverse tag) (reverse digits) = record {
      named = all_of-reverse_aux is_type_char name [] b.named refl;
      has_name = omega (arith, length-reverse_aux name [], b.has_name);
      tagged = all_of-reverse_aux is_hex tag [] b.tagged refl;
      sized = omega (arith, length-reverse_aux tag [], b.sized);
      counted = all_of-reverse_aux is_decimal digits [] b.counted refl;
      has_digits = omega (arith, length-reverse_aux digits [], b.has_digits);
    } in
    let back : (t : Text) → reverse (reverse t) ≡ t =
      λ t. reverse_aux-twice t [] [] ∙ append-nil t in
    let same : reverse (body_of (reverse name) (reverse tag) (reverse digits)) ≡ reverse body =
      reverse-body_of (reverse name) (reverse tag) (reverse digits)
      ∙ rw (back digits, back tag, back name) (sym split) in
    (
      reverse name,
      reverse tag,
      reverse digits,
      sym (back body)
          ∙ ap reverse (sym same)
          ∙ back (body_of (reverse name) (reverse tag) (reverse digits)),
      turned,
    )

-- Up to the first '>', and with it.
take-closed :
    (s : Text)
    → prefix_length not_close s < length s
    → take (suc (prefix_length not_close s)) s ≡ take (prefix_length not_close s) s ++ (0x3E ∷ [])
unfolding prefix_length
take-closed [] h = absurd (omega (arith, h))
take-closed (c ∷ s) h = elim (Bool-cases (not_close c)) [
  | inl e ↦
      let inside : prefix_length not_close s < length s =
        omega (arith, rw (prefix_length, e) at h) in
      rw e (ap (λ t. c ∷ t) (take-closed s inside))
  | inr e ↦ let same : c ≡ 0x3E = ground arith in rw e (ap (λ b. b ∷ []) same)
]

take-two : (n c : ℕ) (s : Text) → take (n + 2) (c ∷ s) ≡ c ∷ take (suc n) s
take-two n c s = let same : n + 2 ≡ suc (suc n) = omega arith in ap (λ k. take k (c ∷ s)) same

-- What a marker length is found for is a marker.
pub take-IsMarker : (s : Text) → marker_length s ≢ 0 → IsMarker (take (marker_length s) s)
unfolding marker_length
take-IsMarker [] h = absurd (h refl)
take-IsMarker (c ∷ s) h =
    let n = prefix_length not_close s in
    elim (Bool-cases (c == 0x3C && (ltb n (length s) && is_body_rev (reverse (take n s))))) [
      | inr e ↦ absurd (h (rw (marker_length, e) refl))
      | inl e ↦
          let opens : c ≡ 0x3C = ground (arith, and-left (c == 0x3C) _ e) in
          let later = and-right (c == 0x3C) _ e in
          let closes : n < length s = ground (arith, and-left (ltb n (length s)) _ later) in
          let (name, tag, digits, spelled, body) =
            groups_of (take n s) (and-right (ltb n (length s)) _ later) in
          let whole : c ∷ take (suc n) s ≡ 0x3C ∷ body_of name tag digits ++ (0x3E ∷ []) =
            ap (λ b. b ∷ take (suc n) s) opens
            ∙ ap (λ t. 0x3C ∷ t) (take-closed s closes ∙ ap (λ t. t ++ (0x3E ∷ [])) spelled) in
          rw (marker_length, e)
            (record {
              name = name;
              tag = tag;
              digits = digits;
              body = body;
              spelled = take-two n c s ∙ whole;
            })
    ]
