-- ===== src/Overlap/Cover.antt =====
-- What ResolveOverlaps promises: disjoint findings in order, over exactly the same bytes.
use vibe_alfa_gen.Prelude.{
  ℕ, ◌≤◌, ◌<◌, ◌≡◌, refl, ap, ◌∙◌, Bool, ◌&&◌, ◌||◌, inl, inr, List, [], ◌∷◌, arith, ltb, leb,
  any_of, Bool-cases,
}
use vibe_alfa_gen.Domain.{Finding}
use vibe_alfa_gen.Overlap.{stable_sort, comes_before, merge, sweep, sweep_all, resolve_overlaps}
use vibe_alfa_gen.Overlap.Sorting.{StartsFrom, any_of-stable_sort, StartsFrom-stable_sort}

-- The byte at `i` belongs to the finding.
abbrev pub within : ℕ → Finding → Bool
within i f = leb f.start i && ltb i f.stop

-- Each finding begins where the one before has ended, or later, and from `n` on.
abbrev pub DisjointFrom : ℕ → List Finding → Type 0
DisjointFrom n [] = Unit
DisjointFrom n (f ∷ fs) = (n ≤ f.start) × DisjointFrom f.stop fs

StartsFrom-weaken : (m n : ℕ) (fs : List Finding) → m ≤ n → StartsFrom n fs → StartsFrom m fs
StartsFrom-weaken m n [] h s = tt
StartsFrom-weaken m n (f ∷ fs) h s = (omega arith, s.1)

merge_start : (last f : Finding) → (merge last f).start ≡ last.start
unfolding merge
merge_start last f = refl

-- An overlap is replaced by the union.
within-merge :
    (i : ℕ) (last f : Finding)
    → last.start ≤ f.start
    → f.start < last.stop
    → within i (merge last f) ≡ (within i last || within i f)
unfolding merge
within-merge i last f h o = ground arith

merge-StartsFrom :
    (last f : Finding) (fs : List Finding)
    → StartsFrom last.start (f ∷ fs)
    → StartsFrom (merge last f).start fs
merge-StartsFrom last f fs s =
    rw (merge_start last f) (StartsFrom-weaken last.start f.start fs s.0 s.1)

any_of-sweep :
    (i : ℕ) (last : Finding) (fs : List Finding)
    → StartsFrom last.start fs
    → any_of (within i) (sweep last fs) ≡ (within i last || any_of (within i) fs)
unfolding sweep
any_of-sweep i last [] s = refl
any_of-sweep i last (f ∷ fs) s = elim (Bool-cases (leb last.stop f.start)) [
  | inl e ↦ rw e (ap (λ b. within i last || b) (any_of-sweep i f fs s.1))
  | inr e ↦
      let ih = any_of-sweep i (merge last f) fs (merge-StartsFrom last f fs s) in
      rw e (ground (arith, ih, within-merge i last f s.0))
]

sweep-DisjointFrom :
    (n : ℕ) (last : Finding) (fs : List Finding)
    → n ≤ last.start
    → StartsFrom last.start fs
    → DisjointFrom n (sweep last fs)
unfolding sweep
sweep-DisjointFrom n last [] h s = (h, tt)
sweep-DisjointFrom n last (f ∷ fs) h s = elim (Bool-cases (leb last.stop f.start)) [
  | inl e ↦ rw e (h, sweep-DisjointFrom last.stop f fs (ground arith) s.1)
  | inr e ↦ rw e (
      sweep-DisjointFrom n (merge last f) fs (rw (merge_start last f) h)
        (merge-StartsFrom last f fs s))
]

sweep_all-DisjointFrom : (fs : List Finding) → StartsFrom 0 fs → DisjointFrom 0 (sweep_all fs)
unfolding sweep_all
sweep_all-DisjointFrom [] s = tt
sweep_all-DisjointFrom (f ∷ fs) s = sweep-DisjointFrom 0 f fs s.0 s.1

any_of-sweep_all :
    (i : ℕ) (fs : List Finding)
    → StartsFrom 0 fs
    → any_of (within i) (sweep_all fs) ≡ any_of (within i) fs
unfolding sweep_all
any_of-sweep_all i [] s = refl
any_of-sweep_all i (f ∷ fs) s = any_of-sweep i f fs s.1

-- The findings that come out are in order and do not overlap.
pub resolve_overlaps-DisjointFrom : (fs : List Finding) → DisjointFrom 0 (resolve_overlaps fs)
unfolding resolve_overlaps
resolve_overlaps-DisjointFrom fs =
    sweep_all-DisjointFrom (stable_sort comes_before fs) (StartsFrom-stable_sort fs)

-- A byte is covered by what comes out exactly when it is covered by a finding that goes in.
pub any_of-resolve_overlaps :
    (i : ℕ) (fs : List Finding) → any_of (within i) (resolve_overlaps fs) ≡ any_of (within i) fs
unfolding resolve_overlaps
any_of-resolve_overlaps i fs =
    any_of-sweep_all i (stable_sort comes_before fs) (StartsFrom-stable_sort fs)
    ∙ any_of-stable_sort comes_before (within i) fs
