-- ===== src/Prelude/Maps.antt =====
-- Go maps as association lists with one entry for a key, and sets as lists.
use mathlib.Core.Path.{◌≡◌, refl, ap}
use mathlib.Core.Bool.{Bool, false, ◌||◌}
use mathlib.Core.List.{List, [], ◌∷◌}
use mathlib.Core.Option.{Option, none, some}
use native.Mathlib.Omega.{arith}
use mathlib.Core.Logic.{◌⊎◌, inl, inr}
use vibe_alfa_gen.Prelude.Tests.{if◌then◌else◌, Bool-cases}
use vibe_alfa_gen.Prelude.Equality.{Eq, ◌==◌, beq_refl, eq_of_beq}

module _ {ℓ κ} {K : Type ℓ} {V : Type κ} ⦃e : Eq K⦄ where
  -- v, ok := m[k]
  unfoldable pub lookup : K → List (K × V) → Option V
  lookup k [] = none
  lookup k ((j, v) ∷ m) = if j == k then some v else lookup k m

  -- m[k] = v
  unfoldable pub insert : K → V → List (K × V) → List (K × V)
  insert k v [] = (k, v) ∷ []
  insert k v (entry ∷ m) =
      let kept = entry ∷ insert k v m in if entry.0 == k then (k, v) ∷ m else kept

  -- delete(m, k)
  unfoldable pub delete : K → List (K × V) → List (K × V)
  delete k [] = []
  delete k ((j, w) ∷ m) = let rest = delete k m in if j == k then rest else (j, w) ∷ rest

  pub lookup-insert :
      (set asked : K) (v : V) (pairs : List (K × V))
      → lookup asked (insert set v pairs) ≡ (if set == asked then some v else lookup asked pairs)
  unfolding insert lookup
  lookup-insert set asked v [] = refl
  lookup-insert set asked v ((here, w) ∷ pairs) = ground (
    arith,
    e.beq_iff here set,
    e.beq_iff here asked,
    e.beq_iff set asked,
    lookup-insert set asked v pairs,
  )

  pub lookup-insert_self : (k : K) (v : V) (m : List (K × V)) → lookup k (insert k v m) ≡ some v
  lookup-insert_self k v m = rw (lookup-insert k k v m) (rw (beq_refl k))

  -- What is found after m[k] = v is the new entry, or was there.
  pub lookup-insert_cases :
      (k j : K) (v w : V) (m : List (K × V))
      → lookup j (insert k v m) ≡ some w
      → ((k ≡ j) × (v ≡ w)) ⊎ (lookup j m ≡ some w)
  lookup-insert_cases k j v w m h = elim (Bool-cases (k == j)) [
    | inl same ↦ inl (eq_of_beq k j same, ground (arith, lookup-insert k j v m))
    | inr other ↦ inr (rw (lookup-insert k j v m, other) at h)
  ]

  -- An entry stays when another key is set.
  pub lookup-insert_old :
      (k j : K) (v w : V) (m : List (K × V))
      → lookup k m ≡ none
      → lookup j m ≡ some w
      → lookup j (insert k v m) ≡ some w
  lookup-insert_old k j v w m new h = elim (Bool-cases (k == j)) [
    | inl same ↦ cc (ap (λ i. lookup i m) (eq_of_beq k j same))
    | inr other ↦ rw (lookup-insert k j v m) (rw other h)
  ]

  pub lookup-delete :
      (k j : K) (m : List (K × V)) → lookup j (delete k m) ≡ (if k == j then none else lookup j m)
  unfolding lookup delete
  lookup-delete k j [] = ground arith
  lookup-delete k j ((i, w) ∷ m) =
      ground (arith, lookup-delete k j m, e.beq_iff i k, e.beq_iff i j, e.beq_iff k j)

  -- One entry for a key, as in a Go map.
  abbrev pub Distinct : List (K × V) → Type κ
  Distinct [] = Unit
  Distinct ((k, v) ∷ m) = (lookup k m ≡ none) × Distinct m

module _ {ℓ κ} {K : Type ℓ} {V : Type κ} ⦃e : Eq K⦄ where
  pub insert-Distinct : (k : K) (v : V) (m : List (K × V)) → Distinct m → Distinct (insert k v m)
  unfolding insert
  insert-Distinct k v [] d = (unfold lookup in refl, tt)
  insert-Distinct k v ((j, w) ∷ m) d = elim (Bool-cases (j == k)) [
    | inl same ↦ rw same (rw (← eq_of_beq j k same) d.0, d.1)
    | inr other ↦ rw other (
      rw (lookup-insert k j v m) (ground (arith, e.beq_iff j k, e.beq_iff k j, d.0)),
      insert-Distinct k v m d.1,
    )
  ]

  pub delete-Distinct : (k : K) (m : List (K × V)) → Distinct m → Distinct (delete k m)
  unfolding delete
  delete-Distinct k [] d = tt
  delete-Distinct k ((j, w) ∷ m) d = elim (Bool-cases (j == k)) [
    | inl same ↦ rw same (delete-Distinct k m d.1)
    | inr other ↦ rw other (rw (lookup-delete k j m) (ground (arith, d.0)), delete-Distinct k m d.1)
  ]

module _ {ℓ} {A : Type ℓ} ⦃e : Eq A⦄ where
  -- slices.Contains, and membership in a `map[A]bool` used as a set
  unfoldable pub contains : List A → A → Bool
  contains [] a = false
  contains (x ∷ xs) a = x == a || contains xs a
