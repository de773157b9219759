-- ===== src/Markers/Spans.antt =====
-- The markers that are found, and what hiding them does.
use vibe_alfa_gen.Prelude.{
  ℕ, zero, suc, ◌+◌, ◌-◌, ◌≤◌, ◌<◌, ◌≡◌, refl, ap, Bool, false, ◌&&◌, List, [], ◌∷◌, ltb, leb,
  if◌then◌else◌, ◌==◌, nat_eq, length, arith, Bool-cases, inl, inr, get_or, any_of,
}
use vibe_alfa_gen.Text.{Text}
use vibe_alfa_gen.Markers.{
  not_close, prefix_length, marker_length, markers_from, find_markers, hide_from, hide_marker_spans,
  hide_markers,
}

-- Spans that are not empty, in order, disjoint, and from `n` up to `top`.
abbrev pub SpansIn : ℕ → ℕ → List (ℕ × ℕ) → Type 0
SpansIn n top [] = Unit
SpansIn n top ((lo, hi) ∷ spans) = (n ≤ lo) × (lo < hi) × (hi ≤ top) × SpansIn hi top spans

pub prefix_length-le : (p : ℕ → Bool) (s : Text) → prefix_length p s ≤ length s
unfolding prefix_length
prefix_length-le p [] = omega arith
prefix_length-le p (c ∷ s) = ground (arith, prefix_length-le p s)

pub marker_length-le : (s : Text) → marker_length s ≤ length s
unfolding marker_length
marker_length-le [] = omega arith
marker_length-le (c ∷ s) = ground (arith, prefix_length-le not_close s)

SpansIn-weaken :
    (m n top : ℕ) (spans : List (ℕ × ℕ)) → m ≤ n → SpansIn n top spans → SpansIn m top spans
SpansIn-weaken m n top [] h s = tt
SpansIn-weaken m n top ((lo, hi) ∷ spans) h s = (omega arith, s.1, s.2, s.3)

markers_from-SpansIn :
    (pos skip top : ℕ) (s : Text)
    → pos + length s ≡ top
    → SpansIn (pos + skip) top (markers_from pos skip s)
unfolding markers_from
markers_from-SpansIn pos skip top [] h = tt
markers_from-SpansIn pos (suc skip) top (c ∷ s) h =
    SpansIn-weaken (pos + suc skip) (suc pos + skip) top _ (omega arith)
      (markers_from-SpansIn (suc pos) skip top s (omega arith))
markers_from-SpansIn pos zero top (c ∷ s) h =
    let n = marker_length (c ∷ s) in
    let fits = marker_length-le (c ∷ s) in
    let ih = markers_from-SpansIn (suc pos) (n - 1) top s (omega arith) in
    elim (Bool-cases (n == 0)) [
      | inl e ↦ rw e (SpansIn-weaken (pos + 0) (suc pos + (n - 1)) top _ (omega arith) ih)
      | inr e ↦
          let some_bytes : 0 < n = ground arith in
          rw e (
            omega arith,
            omega arith,
            omega arith,
            SpansIn-weaken (pos + n) (suc pos + (n - 1)) top _ (omega arith) ih,
          )
    ]

-- The spans of markers lie in the text, from left to right, and do not overlap.
pub find_markers-SpansIn : (text : Text) → SpansIn 0 (length text) (find_markers text)
unfolding find_markers
find_markers-SpansIn text = markers_from-SpansIn 0 0 (length text) text (omega arith)

length-hide_from :
    (pos : ℕ) (spans : List (ℕ × ℕ)) (s : Text) → length (hide_from pos spans s) ≡ length s
unfolding hide_from
length-hide_from pos spans [] = refl
length-hide_from pos [] (c ∷ s) = refl
length-hide_from pos ((lo, hi) ∷ spans) (c ∷ s) =
    ap suc (length-hide_from (suc pos) (if leb hi (suc pos) then spans else (lo, hi) ∷ spans) s)

-- A position that lies in one of the spans.
abbrev pub in_spans : ℕ → List (ℕ × ℕ) → Bool
in_spans i = any_of (λ p. leb p.0 i && ltb i p.1)

-- The next span has not ended at `n`.
abbrev Ahead : ℕ → ℕ → List (ℕ × ℕ) → Type 0
Ahead n top [] = Unit
Ahead n top ((lo, hi) ∷ spans) = (n < hi) × SpansIn hi top spans

SpansIn-Ahead : (n top : ℕ) (spans : List (ℕ × ℕ)) → SpansIn n top spans → Ahead n top spans
SpansIn-Ahead n top [] s = tt
SpansIn-Ahead n top ((lo, hi) ∷ spans) s = (omega arith, s.3)

not_in_spans :
    (p n top : ℕ) (spans : List (ℕ × ℕ)) → SpansIn n top spans → p < n → in_spans p spans ≡ false
not_in_spans p n top [] s h = refl
not_in_spans p n top ((lo, hi) ∷ spans) s h =
    let later = not_in_spans p hi top spans s.3 (omega arith) in
    let (a, b) : (n ≤ lo) × (lo < hi) = (s.0, s.1) in ground arith

get_or-hide_from :
    (pos top i p : ℕ) (spans : List (ℕ × ℕ)) (s : Text)
    → Ahead pos top spans
    → p ≡ pos + i
    → i < length s
    → get_or (hide_from pos spans s) i 0 ≡ (if in_spans p spans then 0x20 else get_or s i 0)
unfolding hide_from
get_or-hide_from pos top i p spans [] a e h = absurd (omega arith)
get_or-hide_from pos top i p [] (c ∷ s) a e h = refl
get_or-hide_from pos top zero p ((lo, hi) ∷ spans) (c ∷ s) a e h =
    let later = not_in_spans p hi top spans a.1 (omega arith) in
    let same : p ≡ pos = omega arith in rw (later, same) (ground arith)
get_or-hide_from pos top (suc i) p ((lo, hi) ∷ spans) (c ∷ s) a e h =
    elim (Bool-cases (leb hi (suc pos))) [
      | inl t ↦
          let ahead : Ahead (suc pos) top spans =
            SpansIn-Ahead (suc pos) top spans
              (SpansIn-weaken (suc pos) hi top spans (ground arith) a.1) in
          let ih = get_or-hide_from (suc pos) top i p spans s ahead (omega arith) (omega arith) in
          let past : ltb p hi ≡ false = ground arith in rw t (ground arith)
      | inr t ↦
          let ih =
            get_or-hide_from (suc pos) top i p ((lo, hi) ∷ spans) s (ground arith, a.1)
              (omega arith) (omega arith) in
          rw t ih
    ]

-- The text that is scanned has the length of the text, a space at each byte of a marker, and the
-- text's own byte everywhere else.
pub hide_markers_lem :
    (text : Text) (i : ℕ)
    → i < length text
    → (length (hide_markers text) ≡ length text)
      × (get_or (hide_markers text) i 0
          ≡ (if in_spans i (find_markers text) then 0x20 else get_or text i 0))
unfolding hide_markers hide_marker_spans
hide_markers_lem text i h = (
  length-hide_from 0 (find_markers text) text,
  get_or-hide_from 0 (length text) i i (find_markers text) text
      (SpansIn-Ahead 0 (length text) (find_markers text) (find_markers-SpansIn text)) (omega arith)
      h,
)
