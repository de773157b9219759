-- ===== src/Overlap/Sorting.antt =====
-- The stable sort of the findings: it keeps what is there, and puts the starts in order.
use vibe_alfa_gen.Prelude.{
  ℕ, ◌≤◌, ◌≡◌, refl, Bool, true, false, ◌||◌, inl, inr, List, [], ◌∷◌, arith, any_of, Bool-cases,
}
use vibe_alfa_gen.Domain.{Finding}
use vibe_alfa_gen.Overlap.{insert_sorted, stable_sort, comes_before}

-- Adjacent findings are in order of their starts.
abbrev pub StartsFrom : ℕ → List Finding → Type 0
StartsFrom n [] = Unit
StartsFrom n (f ∷ fs) = (n ≤ f.start) × StartsFrom f.start fs

module _ {ℓ} {A : Type ℓ} (less : A → A → Bool) (p : A → Bool) where
  any_of-insert_sorted :
      (x : A) (xs : List A) → any_of p (insert_sorted less x xs) ≡ (p x || any_of p xs)
  unfolding insert_sorted
  any_of-insert_sorted x [] = refl
  any_of-insert_sorted x (y ∷ ys) = ground (arith, any_of-insert_sorted x ys)

  -- The sort loses nothing and adds nothing.
  pub any_of-stable_sort : (xs : List A) → any_of p (stable_sort less xs) ≡ any_of p xs
  unfolding stable_sort
  any_of-stable_sort [] = refl
  any_of-stable_sort (x ∷ xs) =
      ground (arith, any_of-insert_sorted x (stable_sort less xs), any_of-stable_sort xs)

comes_before-le : (a b : Finding) → comes_before a b ≡ true → a.start ≤ b.start
unfolding comes_before
comes_before-le a b h = ground arith

not_before-le : (a b : Finding) → comes_before a b ≡ false → b.start ≤ a.start
unfolding comes_before
not_before-le a b h = ground arith

StartsFrom-insert_sorted :
    (n : ℕ) (x : Finding) (xs : List Finding)
    → n ≤ x.start
    → StartsFrom n xs
    → StartsFrom n (insert_sorted comes_before x xs)
unfolding insert_sorted
StartsFrom-insert_sorted n x [] h s = (h, tt)
StartsFrom-insert_sorted n x (y ∷ ys) h s = elim (Bool-cases (comes_before y x)) [
  | inl e ↦ rw e (s.0, StartsFrom-insert_sorted y.start x ys (comes_before-le y x e) s.1)
  | inr e ↦ rw e (h, (not_before-le y x e, s.1))
]

pub StartsFrom-stable_sort : (fs : List Finding) → StartsFrom 0 (stable_sort comes_before fs)
unfolding stable_sort
StartsFrom-stable_sort [] = tt
StartsFrom-stable_sort (f ∷ fs) =
    StartsFrom-insert_sorted 0 f (stable_sort comes_before fs) (omega arith)
      (StartsFrom-stable_sort fs)
