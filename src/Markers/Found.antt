-- ===== src/Markers/Found.antt =====
-- Which markers of a text are found: all of them, and nothing else.
use vibe_alfa_gen.Prelude.{
  ℕ, zero, suc, ◌+◌, ◌-◌, ◌≤◌, ◌≡◌, ◌≢◌, refl, sym, ap, ◌∙◌, Bool, true, false, not, [], ◌∷◌, ◌++◌,
  ◌==◌, nat_eq, length, get_or, take, drop, slice, All, IsIn, here, there, all_of, all_of_mono,
  all_of-append, arith, Bool-cases, inl, inr, append-nil, and-left, and-right,
}
use vibe_alfa_gen.Text.{Text}
use vibe_alfa_gen.Markers.{
  is_decimal, is_hex, is_type_char, marker_length, markers_from, find_markers,
}
use vibe_alfa_gen.Markers.Spans.{SpansIn, find_markers-SpansIn}
use vibe_alfa_gen.Markers.Matches.{IsBody, body_of, IsMarker, marker_length-IsMarker, take-IsMarker}

abbrev not_open : ℕ → Bool
not_open c = not (c == 0x3C)

hex_not_open : (c : ℕ) → is_hex c ≡ true → not_open c ≡ true
hex_not_open c h = ground arith

name_not_open : (c : ℕ) → is_type_char c ≡ true → not_open c ≡ true
name_not_open c h = ground arith

digit_not_open : (c : ℕ) → is_decimal c ≡ true → not_open c ≡ true
digit_not_open c h = ground arith

not_open-body_of :
    (name tag digits : Text)
    → IsBody name tag digits
    → all_of not_open (body_of name tag digits) ≡ true
not_open-body_of name tag digits b =
    let back : all_of not_open (tag ++ (0x5F ∷ digits)) ≡ true =
      all_of-append not_open tag (0x5F ∷ digits)
        (all_of_mono is_hex not_open tag hex_not_open b.tagged)
        (all_of_mono is_decimal not_open digits digit_not_open b.counted) in
    all_of-append not_open name (0x5F ∷ tag ++ (0x5F ∷ digits))
      (all_of_mono is_type_char not_open name name_not_open b.named) back

-- No marker begins inside of another.
not_open-IsMarker : (m : Text) → IsMarker m → all_of not_open (drop 1 m) ≡ true
not_open-IsMarker m i =
    let body = body_of i.name i.tag i.digits in
    ap (λ t. all_of not_open (drop 1 t)) i.spelled
    ∙ all_of-append not_open body (0x3E ∷ []) (not_open-body_of i.name i.tag i.digits i.body) refl

-- The bytes that are skipped behind the start of a marker, if there is one.
skipped-not_open : (c : ℕ) (s : Text) → all_of not_open (take (marker_length (c ∷ s) - 1) s) ≡ true
skipped-not_open c s = behind (marker_length (c ∷ s)) refl
  where
    behind : (n : ℕ) → marker_length (c ∷ s) ≡ n → all_of not_open (take (n - 1) s) ≡ true
    behind zero e = refl
    behind (suc n) e =
        let one_less : suc n - 1 ≡ n = omega arith in
        let some_bytes : marker_length (c ∷ s) ≢ 0 =
          λ none_there. absurd (omega (arith, e, none_there)) in
        ap (λ k. all_of not_open (take k s)) one_less
        ∙ ap (λ k. all_of not_open (drop 1 (take k (c ∷ s)))) (sym e)
        ∙ not_open-IsMarker (take (marker_length (c ∷ s)) (c ∷ s))
            (take-IsMarker (c ∷ s) some_bytes)

-- A marker that the text begins with is found.
markers_from-start :
    (pos c n : ℕ) (s : Text)
    → marker_length (c ∷ s) ≡ suc n
    → IsIn (pos, pos + suc n) (markers_from pos zero (c ∷ s))
unfolding markers_from
markers_from-start pos c n s e =
    let some_bytes : (suc n == 0) ≡ false = ground arith in rw (e, some_bytes) here

-- A marker in the text is found, where the bytes to skip end before it.
markers_from-finds :
    (pos skip : ℕ) (front m rest : Text)
    → IsMarker m
    → all_of not_open (take skip (front ++ (m ++ rest))) ≡ true
    → IsIn
        (pos + length front, pos + length front + length m)
        (markers_from pos skip (front ++ (m ++ rest)))
unfolding markers_from
markers_from-finds pos skip [] [] rest i h = absurd (cc i.spelled)
markers_from-finds pos (suc skip) [] (c ∷ m) rest i h =
    let opens : c ≡ 0x3C = ap (λ t. get_or t 0 0) i.spelled in
    absurd (cc (sym (ap not_open opens) ∙ and-left (not_open c) _ h))
markers_from-finds pos zero [] (c ∷ m) rest i h =
    let same : pos + 0 ≡ pos = omega arith in
    rw same
      (markers_from-start pos c (length m) (m ++ rest) (marker_length-IsMarker (c ∷ m) rest i))
markers_from-finds pos (suc skip) (c ∷ front) m rest i h =
    let same : pos + suc (length front) ≡ suc pos + length front = omega arith in
    rw same (markers_from-finds (suc pos) skip front m rest i (and-right (not_open c) _ h))
markers_from-finds pos zero (c ∷ front) m rest i h =
    let s = front ++ (m ++ rest) in
    let n = marker_length (c ∷ s) in
    let same : pos + suc (length front) ≡ suc pos + length front = omega arith in
    let later = markers_from-finds (suc pos) (n - 1) front m rest i (skipped-not_open c s) in
    elim (Bool-cases (n == 0)) [ inl e ↦ rw (same, e) later | inr e ↦ rw (same, e) (there later) ]

drop-next : (pos c : ℕ) (text s : Text) → drop pos text ≡ c ∷ s → drop (suc pos) text ≡ s
drop-next zero c [] s h = absurd (cc h)
drop-next (suc pos) c [] s h = absurd (cc h)
drop-next zero c (b ∷ text) s h = ap (drop 1) h
drop-next (suc pos) c (b ∷ text) s h = drop-next pos c text s h

markers_from-AreMarkers :
    (text : Text) (pos skip : ℕ) (s : Text)
    → drop pos text ≡ s
    → All (λ span. IsMarker (slice text span.0 span.1)) (markers_from pos skip s)
unfolding markers_from
markers_from-AreMarkers text pos skip [] h = tt
markers_from-AreMarkers text pos (suc skip) (c ∷ s) h =
    markers_from-AreMarkers text (suc pos) skip s (drop-next pos c text s h)
markers_from-AreMarkers text pos zero (c ∷ s) h =
    let n = marker_length (c ∷ s) in
    let later = markers_from-AreMarkers text (suc pos) (n - 1) s (drop-next pos c text s h) in
    elim (Bool-cases (n == 0)) [
      | inl e ↦ rw e later
      | inr e ↦
          let some_bytes : n ≢ 0 =
            λ none_there. absurd (cc (sym e ∙ ap (λ k. k == 0) none_there)) in
          let size : pos + n - pos ≡ n = omega arith in
          rw e (rw (size, h) (take-IsMarker (c ∷ s) some_bytes), later)
    ]

-- The markers that are found lie in the text, from left to right, do not overlap, and each is a text that
-- the whole expression matches.
pub find_markers-AreMarkers :
    (text : Text)
    → SpansIn 0 (length text) (find_markers text)
      × All (λ span. IsMarker (slice text span.0 span.1)) (find_markers text)
unfolding find_markers
find_markers-AreMarkers text =
    (find_markers-SpansIn text, markers_from-AreMarkers text 0 0 text refl)

-- A marker is found wherever it stands in a text.
pub find_markers-finds :
    (front m rest : Text)
    → IsMarker m
    → IsIn (length front, length front + length m) (find_markers (front ++ (m ++ rest)))
unfolding find_markers
find_markers-finds front m rest i =
    let same : length front ≡ 0 + length front = omega arith in
    rw same (markers_from-finds 0 0 front m rest i refl)

markers_from-skip : (pos skip : ℕ) (s : Text) → length s ≤ skip → markers_from pos skip s ≡ []
unfolding markers_from
markers_from-skip pos skip [] h = refl
markers_from-skip pos zero (c ∷ s) h = absurd (omega (arith, h))
markers_from-skip pos (suc skip) (c ∷ s) h = markers_from-skip (suc pos) skip s (omega (arith, h))

-- A text that is a marker has no other.
pub find_markers-IsMarker : (m : Text) → IsMarker m → find_markers m ≡ (0, length m) ∷ []
unfolding find_markers markers_from
find_markers-IsMarker [] i = absurd (cc i.spelled)
find_markers-IsMarker (c ∷ m) i =
    let whole : marker_length (c ∷ m) ≡ suc (length m) =
      ap (λ s. marker_length (c ∷ s)) (sym (append-nil m)) ∙ marker_length-IsMarker (c ∷ m) [] i in
    let some_bytes : (suc (length m) == 0) ≡ false = ground arith in
    let same : 0 + suc (length m) ≡ suc (length m) = omega arith in
    rw (whole, some_bytes, same, markers_from-skip 1 (suc (length m) - 1) m (omega arith)) refl
