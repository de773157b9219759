-- ===== src/Normalize/Offsets.antt =====
-- The boundary map: each boundary of the view lies in the input, and they are in order.
use vibe_alfa_gen.Prelude.{
  ℕ, zero, suc, ◌+◌, ◌≤◌, ◌<◌, ◌≡◌, refl, not, List, [], ◌∷◌, ◌++◌, length, replicate, get_or,
  any_of, arith, Bool-cases, length-append, length-replicate, ◌==◌, nat_eq, inl, inr,
}
use vibe_alfa_gen.Text.{Text}
use vibe_alfa_gen.Text.Unicode.{Unicode}
use vibe_alfa_gen.Text.Utf8.{positions_from, encode_rune}
use vibe_alfa_gen.Normalize.{
  original_offset, normalize_rune, view_text, view_offsets, normalize_text,
}

-- A list that does not fall below `n`, rises weakly and does not pass `top`.
abbrev Rises : ℕ → ℕ → List ℕ → Type 0
Rises n top [] = Unit
Rises n top (x ∷ xs) = (n ≤ x) × (x ≤ top) × Rises x top xs

-- The positions of the runes rise.
abbrev RisesAt : ℕ → ℕ → List (ℕ × ℕ) → Type 0
RisesAt n top [] = Unit
RisesAt n top ((pos, r) ∷ rest) = (n ≤ pos) × (pos ≤ top) × RisesAt pos top rest

RisesAt-weaken : (m n top : ℕ) (l : List (ℕ × ℕ)) → m ≤ n → RisesAt n top l → RisesAt m top l
RisesAt-weaken m n top [] h r = tt
RisesAt-weaken m n top ((pos, c) ∷ rest) h r = (omega arith, r.1, r.2)

positions_from-RisesAt :
    (pos skip top : ℕ) (s : Text)
    → pos + length s ≡ top
    → RisesAt pos top (positions_from pos skip s)
unfolding positions_from
positions_from-RisesAt pos skip top [] h = tt
positions_from-RisesAt pos (suc skip) top (b ∷ s) h =
    RisesAt-weaken pos (suc pos) top (positions_from (suc pos) skip s) (omega arith)
      (positions_from-RisesAt (suc pos) skip top s (omega arith))
positions_from-RisesAt pos zero top (b ∷ s) h = (
  omega arith,
  omega arith,
  RisesAt-weaken pos (suc pos) top _ (omega arith)
      (positions_from-RisesAt (suc pos) _ top s (omega arith)),
)

Rises-replicate :
    (n k pos top : ℕ) (l : List ℕ)
    → n ≤ pos
    → pos ≤ top
    → Rises pos top l
    → Rises n top (replicate k pos ++ l)
Rises-replicate n zero pos top [] h t r = tt
Rises-replicate n zero pos top (x ∷ l) h t r = (omega arith, r.1, r.2)
Rises-replicate n (suc k) pos top l h t r =
    (h, t, Rises-replicate pos k pos top l (omega arith) t r)

get_or-Rises-le :
    (n top i : ℕ) (l : List ℕ)
    → Rises n top l
    → i < length l
    → (n ≤ get_or l i 0) × (get_or l i 0 ≤ top)
get_or-Rises-le n top i [] r h = absurd (omega arith)
get_or-Rises-le n top zero (x ∷ l) r h = (r.0, r.1)
get_or-Rises-le n top (suc i) (x ∷ l) r h =
    let bounds = get_or-Rises-le x top i l r.2 (omega arith) in (omega arith, bounds.1)

get_or-Rises-mono :
    (n top i j : ℕ) (l : List ℕ)
    → Rises n top l
    → i ≤ j
    → j < length l
    → get_or l i 0 ≤ get_or l j 0
get_or-Rises-mono n top i j [] r h b = absurd (omega arith)
get_or-Rises-mono n top zero zero (x ∷ l) r h b = omega arith
get_or-Rises-mono n top zero (suc j) (x ∷ l) r h b = (get_or-Rises-le x top j l r.2 (omega arith)).0
get_or-Rises-mono n top (suc i) zero (x ∷ l) r h b = absurd (omega arith)
get_or-Rises-mono n top (suc i) (suc j) (x ∷ l) r h b =
    get_or-Rises-mono x top i j l r.2 (omega arith) (omega arith)

module _ (u : Unicode) where
  view_offsets-Rises :
      (n top : ℕ) (l : List (ℕ × ℕ))
      → n ≤ top
      → RisesAt n top l
      → Rises n top (view_offsets u top l)
  unfolding view_offsets
  view_offsets-Rises n top [] h r = (h, omega arith, tt)
  view_offsets-Rises n top ((pos, c) ∷ rest) h r =
      Rises-replicate n (length (encode_rune (normalize_rune u c))) pos top
        (view_offsets u top rest) r.0 r.1 (view_offsets-Rises pos top rest r.1 r.2)

  -- One boundary for each byte of the view, and one for its end.
  length-view_offsets :
      (top : ℕ) (l : List (ℕ × ℕ)) → length (view_offsets u top l) ≡ length (view_text u l) + 1
  unfolding view_offsets view_text
  length-view_offsets top [] = refl
  length-view_offsets top ((pos, c) ∷ rest) =
      let w = length (encode_rune (normalize_rune u c)) in
      omega (
        arith,
        length-append (replicate w pos) (view_offsets u top rest),
        length-append (encode_rune (normalize_rune u c)) (view_text u rest),
        length-replicate w pos,
        length-view_offsets top rest,
      )

  -- Boundaries of the view, its end included, map to positions of the input, its end included,
  -- without changing their order.
  pub original_offset_mono :
      (input : Text) (i j : ℕ)
      → i ≤ j
      → j ≤ length (normalize_text u input).text
      → (original_offset (normalize_text u input) i ≤ original_offset (normalize_text u input) j)
        × (original_offset (normalize_text u input) j ≤ length input)
  unfolding normalize_text original_offset
  original_offset_mono input i j h b =
      let at = positions_from 0 0 input in
      let r =
        view_offsets-Rises 0 (length input) at (omega arith)
          (positions_from-RisesAt 0 0 (length input) input (omega arith)) in
      let count = length-view_offsets (length input) at in
      elim (Bool-cases (any_of (λ (p : ℕ × ℕ). not (normalize_rune u p.1 == p.1)) at)) [
        | inl e ↦
            let b' : j ≤ length (view_text u at) = rw e at b in
            rw e (
              get_or-Rises-mono 0 (length input) i j (view_offsets u (length input) at) r h
                  (omega arith),
              (get_or-Rises-le 0 (length input) j (view_offsets u (length input) at) r
                  (omega arith)).1,
            )
        | inr e ↦ let b' : j ≤ length input = rw e at b in rw e (h, b')
      ]
