-- ===== src/Overlap.antt =====
-- internal/pii/registry.go: `better` and ResolveOverlaps, which makes a set of findings disjoint.
pub mod Sorting
pub mod Cover
use vibe_alfa_gen.Prelude.{
  ℕ, ◌-◌, Bool, false, not, List, [], ◌∷◌, max, ltb, leb, if◌then◌else◌, ◌==◌, nat_eq,
}
use vibe_alfa_gen.Domain.{Finding}

-- Whether `a` is preferred to `b` where they overlap.
unfoldable pub better : Finding → Finding → Bool
better a b =
    if not (a.confidence == b.confidence)
    then ltb b.confidence a.confidence
    else if not (a.stop - a.start == b.stop - b.start)
    then ltb (b.stop - b.start) (a.stop - a.start)
    else if not (a.start == b.start)
    then ltb a.start b.start
    else false

-- sort.SliceStable: insertion before the first element that is not less, so equal elements keep
-- their order.
module _ {ℓ} {A : Type ℓ} (less : A → A → Bool) where
  unfoldable pub insert_sorted : A → List A → List A
  insert_sorted x [] = x ∷ []
  insert_sorted x (y ∷ ys) =
      let rest = insert_sorted x ys in if less y x then y ∷ rest else x ∷ y ∷ ys

  unfoldable pub stable_sort : List A → List A
  unfolding insert_sorted
  stable_sort [] = []
  stable_sort (x ∷ xs) = insert_sorted x (stable_sort xs)

-- The order of ResolveOverlaps: by start, then by preference.
unfoldable pub comes_before : Finding → Finding → Bool
unfolding better
comes_before a b = if not (a.start == b.start) then ltb a.start b.start else better a b

-- The last accepted finding where `f` overlaps it: the better of the two over the union of both.
unfoldable pub merge : Finding → Finding → Finding
unfolding better
merge last f =
    let winner = if better f last then f else last in
    record winner { start = last.start; stop = if ltb last.stop f.stop then f.stop else last.stop }

-- The sweep, from the last accepted finding on: what it replaces is the end of `out`.
unfoldable pub sweep : Finding → List Finding → List Finding
sweep last [] = last ∷ []
sweep last (f ∷ fs) =
    let kept = last ∷ sweep f fs in
    let merged = sweep (merge last f) fs in if leb last.stop f.start then kept else merged

unfoldable pub sweep_all : List Finding → List Finding
sweep_all [] = []
sweep_all (f ∷ fs) = sweep f fs

unfoldable pub resolve_overlaps : List Finding → List Finding
resolve_overlaps findings = sweep_all (stable_sort comes_before findings)
