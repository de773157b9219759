-- ===== src/Masking/Dates.antt =====
-- maskDate: the year is all that stays of a date's digits, and never all of them.
use vibe_alfa_gen.Prelude.{
  ℕ, zero, suc, ◌+◌, ◌-◌, ◌≤◌, ◌<◌, ◌≡◌, ◌≢◌, refl, ◌⊎◌, inl, inr, [], ◌∷◌, arith, max, ltb,
  if◌then◌else◌, count_of, Option, none, some, Bool-cases, ◌==◌, nat_eq,
}
use vibe_alfa_gen.Text.{Runes}
use vibe_alfa_gen.Text.Unicode.{Unicode}
use vibe_alfa_gen.Masking.{
  mask_date, mask_date_runs, mask_date_from, date_digit_runs, digit_runs_from, run_length,
}

-- A year run is four runes wide.
abbrev WideYear : Option (ℕ × ℕ) → Type 0
WideYear none = Unit
WideYear (some (lo, hi)) = hi ≡ lo + 4

-- The runes that stay visible for the total and the year found.
abbrev window : ℕ → Option (ℕ × ℕ) → ℕ
window total none = 0
window total (some _) = if ltb 4 total then 4 else 2

abbrev found_year : ℕ → ℕ → Option (ℕ × ℕ) → Option (ℕ × ℕ)
found_year n i year = if n == 4 then some (i, i + 4) else year

WideYear-found : (n i : ℕ) (year : Option (ℕ × ℕ)) → WideYear year → WideYear (found_year n i year)
WideYear-found n i year w = elim (Bool-cases (n == 4)) [
  | inl e ↦ rw (e, WideYear) refl
  | inr e ↦ rw (e, WideYear) w
]

counted-found :
    (n i total : ℕ) (year : Option (ℕ × ℕ))
    → (year ≢ none → 4 ≤ total)
    → found_year n i year ≢ none
    → 4 ≤ total + n
counted-found n i total none h k = ground (arith, k)
counted-found n i total (some y) h k = let four : 4 ≤ total = h (λ e. cc) in omega arith

module _ (u : Unicode) where
  open u use {is_digit, is_letter, star_not_digit}

  -- `skip` runes of a run of digits are left, or none.
  abbrev AtRun : ℕ → Runes → Type 0
  AtRun skip rs = (skip ≡ 0) ⊎ (skip ≡ run_length u rs)

  -- The scan counts each digit once.
  total-digit_runs_from :
      (i skip total : ℕ) (year : Option (ℕ × ℕ)) (rs : Runes)
      → AtRun skip rs
      → (digit_runs_from u i skip total year rs).0 + skip ≡ total + count_of is_digit rs
  unfolding digit_runs_from
  total-digit_runs_from i skip total year [] h = ground arith
  total-digit_runs_from i (suc skip) total year (r ∷ rs) h =
      ground (arith, total-digit_runs_from (suc i) skip total year rs)
  total-digit_runs_from i zero total year (r ∷ rs) h = ground (
    arith,
    total-digit_runs_from (suc i) (run_length u (r ∷ rs) - 1) (total + run_length u (r ∷ rs))
        (if run_length u (r ∷ rs) == 4 then some (i, i + 4) else year) rs,
  )

  -- A year that is found is four wide, and its digits are counted.
  year-digit_runs_from :
      (i skip total : ℕ) (year : Option (ℕ × ℕ)) (rs : Runes)
      → WideYear year
      → (year ≢ none → 4 ≤ total)
      → WideYear (digit_runs_from u i skip total year rs).1
        × ((digit_runs_from u i skip total year rs).1 ≢ none
            → 4 ≤ (digit_runs_from u i skip total year rs).0)
  unfolding digit_runs_from
  year-digit_runs_from i skip total year [] w h = (w, h)
  year-digit_runs_from i (suc skip) total year (r ∷ rs) w h =
      year-digit_runs_from (suc i) skip total year rs w h
  year-digit_runs_from i zero total year (r ∷ rs) w h =
      year-digit_runs_from (suc i) (run_length u (r ∷ rs) - 1) (total + run_length u (r ∷ rs))
        (found_year (run_length u (r ∷ rs)) i year) rs
        (WideYear-found (run_length u (r ∷ rs)) i year w)
        (counted-found (run_length u (r ∷ rs)) i total year h)

  -- The digits that the mask shows stand in the visible window.
  count-mask_date_from :
      (total lo hi i : ℕ) (rs : Runes)
      → hi ≡ lo + 4
      → count_of is_digit (mask_date_from u total (some (lo, hi)) i rs)
        ≤ (if ltb 4 total then hi - max lo i else hi - max (lo + 2) i)
  unfolding mask_date_from
  count-mask_date_from total lo hi i [] e = omega arith
  count-mask_date_from total lo hi i (r ∷ rs) e =
      ground (arith, star_not_digit, count-mask_date_from total lo hi (suc i) rs)

  count_no_year :
      (total i : ℕ) (rs : Runes) → count_of is_digit (mask_date_from u total none i rs) ≡ 0
  unfolding mask_date_from
  count_no_year total i [] = refl
  count_no_year total i (r ∷ rs) = ground (arith, star_not_digit, count_no_year total (suc i) rs)

  count-window :
      (total : ℕ) (year : Option (ℕ × ℕ)) (rs : Runes)
      → WideYear year
      → count_of is_digit (mask_date_from u total year 0 rs) ≤ window total year
  count-window total none rs w = omega (arith, count_no_year total 0 rs)
  count-window total (some (lo, hi)) rs w = ground (arith, count-mask_date_from total lo hi 0 rs)

  mask_date_runs-window :
      (rs : Runes) (found : ℕ × Option (ℕ × ℕ))
      → WideYear found.1
      → 0 < found.0
      → (found.1 ≢ none → 4 ≤ found.0)
      → (count_of is_digit (mask_date_runs u rs found) < found.0)
        × (count_of is_digit (mask_date_runs u rs found) ≤ 4)
  unfolding mask_date_runs
  mask_date_runs-window rs (total, none) w pos h = ground (arith, count-window total none rs)
  mask_date_runs-window rs (total, some y) w pos h =
      let four : 4 ≤ total = h (λ e. cc) in ground (arith, count-window total (some y) rs w)

  -- A date with a digit loses at least one of its digits, and keeps four at most.
  pub mask_date_hides :
      (rs : Runes)
      → 0 < count_of is_digit rs
      → (count_of is_digit (mask_date u rs) < count_of is_digit rs)
        × (count_of is_digit (mask_date u rs) ≤ 4)
  unfolding mask_date date_digit_runs
  mask_date_hides rs h =
      let total = total-digit_runs_from 0 0 0 none rs (inl refl) in
      let (wide, four) = year-digit_runs_from 0 0 0 none rs tt (λ n. absurd (n refl)) in
      let bounds =
        mask_date_runs-window rs (digit_runs_from u 0 0 0 none rs) wide (omega arith) four in
      (omega arith, omega arith)
