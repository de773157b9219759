-- ===== src/Prelude/Lists.antt =====
-- Lists measured and indexed by native numbers, under the library's names.
use Prim.Native.Nat.{ℕ, zero, suc, ◌+◌, ◌-◌, ◌≤◌, min}
use mathlib.Core.Path.{◌≡◌, refl, sym, ap, ◌∙◌}
use mathlib.Core.Bool.{Bool, true, false, ◌&&◌, ◌||◌}
use mathlib.Core.List.{List, [], ◌∷◌, ◌++◌, append_assoc, reverse, reverse_aux}
use mathlib.Core.Option.{Option, none, some}
use native.Mathlib.Omega.{arith}
use vibe_alfa_gen.Prelude.Tests.{if◌then◌else◌}

module _ {ℓ} {A : Type ℓ} where
  abbrev pub length : List A → ℕ
  length [] = 0
  length (x ∷ xs) = suc (length xs)

  abbrev pub get_elem? : List A → ℕ → Option A
  get_elem? [] i = none
  get_elem? (x ∷ xs) zero = some x
  get_elem? (x ∷ xs) (suc i) = get_elem? xs i

  abbrev pub get_or : List A → ℕ → A → A
  get_or [] i d = d
  get_or (x ∷ xs) zero d = x
  get_or (x ∷ xs) (suc i) d = get_or xs i d

  abbrev pub take : ℕ → List A → List A
  take zero xs = []
  take (suc n) [] = []
  take (suc n) (x ∷ xs) = x ∷ take n xs

  abbrev pub drop : ℕ → List A → List A
  drop zero xs = xs
  drop (suc n) [] = []
  drop (suc n) (x ∷ xs) = drop n xs

  abbrev pub replicate : ℕ → A → List A
  replicate zero a = []
  replicate (suc n) a = a ∷ replicate n a

  -- The elements that pass a Boolean test, in order.
  abbrev pub keep : (A → Bool) → List A → List A
  keep p [] = []
  keep p (x ∷ xs) = let rest = keep p xs in if p x then x ∷ rest else rest

  abbrev pub any_of : (A → Bool) → List A → Bool
  any_of p [] = false
  any_of p (x ∷ xs) = p x || any_of p xs

  abbrev pub all_of : (A → Bool) → List A → Bool
  all_of p [] = true
  all_of p (x ∷ xs) = p x && all_of p xs

  abbrev pub count_of : (A → Bool) → List A → ℕ
  count_of p [] = 0
  count_of p (x ∷ xs) = let n = count_of p xs in if p x then suc n else n

  -- A predicate that holds of every element: it computes to a tuple.
  abbrev pub All {κ} : (A → Type κ) → List A → Type κ
  All P [] = Unit
  All P (x ∷ xs) = P x × All P xs

module _ {ℓ} {A : Type ℓ} where
  -- Go's s[lo:hi].
  abbrev pub slice : List A → ℕ → ℕ → List A
  slice xs lo hi = take (hi - lo) (drop lo xs)

  pub length-append : (xs ys : List A) → length (xs ++ ys) ≡ length xs + length ys
  length-append [] ys = omega arith
  length-append (x ∷ xs) ys = omega (arith, length-append xs ys)

  pub take-append-drop : (n : ℕ) (xs : List A) → take n xs ++ drop n xs ≡ xs
  take-append-drop zero xs = refl
  take-append-drop (suc n) [] = refl
  take-append-drop (suc n) (x ∷ xs) = ap (◌∷◌ x) (take-append-drop n xs)

  -- The front of a list that is put together, and what is behind it.
  pub take-append_front :
      (n : ℕ) (front back : List A) → length front ≡ n → take n (front ++ back) ≡ front
  take-append_front zero [] back h = refl
  take-append_front zero (x ∷ front) back h = absurd (omega (arith, h))
  take-append_front (suc n) [] back h = absurd (omega (arith, h))
  take-append_front (suc n) (x ∷ front) back h =
      ap (◌∷◌ x) (take-append_front n front back (omega (arith, h)))

  pub drop-append_front :
      (n : ℕ) (front back : List A) → length front ≡ n → drop n (front ++ back) ≡ back
  drop-append_front zero [] back h = refl
  drop-append_front zero (x ∷ front) back h = absurd (omega (arith, h))
  drop-append_front (suc n) [] back h = absurd (omega (arith, h))
  drop-append_front (suc n) (x ∷ front) back h = drop-append_front n front back (omega (arith, h))

  -- What holds of every element still does when the order is turned around, or less is asked.
  pub all_of-reverse_aux :
      (p : A → Bool) (xs r : List A)
      → all_of p xs ≡ true
      → all_of p r ≡ true
      → all_of p (reverse_aux xs r) ≡ true
  all_of-reverse_aux p [] r h k = k
  all_of-reverse_aux p (x ∷ xs) r h k =
      all_of-reverse_aux p xs (x ∷ r) (ground arith) (ground arith)

  pub all_of_mono :
      (p q : A → Bool) (xs : List A)
      → ((a : A) → p a ≡ true → q a ≡ true)
      → all_of p xs ≡ true
      → all_of q xs ≡ true
  all_of_mono p q [] h k = refl
  all_of_mono p q (x ∷ xs) h k = ground (arith, h x, all_of_mono p q xs h)

  pub all_of-append :
      (p : A → Bool) (xs ys : List A)
      → all_of p xs ≡ true
      → all_of p ys ≡ true
      → all_of p (xs ++ ys) ≡ true
  all_of-append p [] ys h k = k
  all_of-append p (x ∷ xs) ys h k = ground (arith, all_of-append p xs ys)

  pub length-reverse_aux : (xs r : List A) → length (reverse_aux xs r) ≡ length xs + length r
  length-reverse_aux [] r = omega arith
  length-reverse_aux (x ∷ xs) r = omega (arith, length-reverse_aux xs (x ∷ r))

  pub reverse_aux-append :
      (xs ys r : List A) → reverse_aux (xs ++ ys) r ≡ reverse_aux ys (reverse_aux xs r)
  reverse_aux-append [] ys r = refl
  reverse_aux-append (x ∷ xs) ys r = reverse_aux-append xs ys (x ∷ r)

  pub reverse_aux-reverse : (xs r : List A) → reverse_aux xs r ≡ reverse xs ++ r
  reverse_aux-reverse [] r = refl
  reverse_aux-reverse (x ∷ xs) r =
      reverse_aux-reverse xs (x ∷ r)
      ∙ sym (append_assoc (reverse xs) (x ∷ []) r)
      ∙ ap (λ front. front ++ r) (sym (reverse_aux-reverse xs (x ∷ [])))

  pub reverse_aux-twice :
      (xs r s : List A) → reverse_aux (reverse_aux xs r) s ≡ reverse_aux r (xs ++ s)
  reverse_aux-twice [] r s = refl
  reverse_aux-twice (x ∷ xs) r s = reverse_aux-twice xs (x ∷ r) s

  pub drop-behind : (n : ℕ) (xs : List A) → drop n (drop 1 xs) ≡ drop (suc n) xs
  drop-behind zero [] = refl
  drop-behind (suc n) [] = refl
  drop-behind n (x ∷ xs) = refl

  pub length-take : (n : ℕ) (xs : List A) → length (take n xs) ≡ min n (length xs)
  length-take zero xs = omega arith
  length-take (suc n) [] = omega arith
  length-take (suc n) (x ∷ xs) = omega (arith, length-take n xs)

  pub length-drop : (n : ℕ) (xs : List A) → length (drop n xs) ≡ length xs - n
  length-drop zero xs = omega arith
  length-drop (suc n) [] = omega arith
  length-drop (suc n) (x ∷ xs) = omega (arith, length-drop n xs)

  pub length-replicate : (n : ℕ) (a : A) → length (replicate n a) ≡ n
  length-replicate zero a = refl
  length-replicate (suc n) a = ap suc (length-replicate n a)

  pub length-keep-le : (p : A → Bool) (xs : List A) → length (keep p xs) ≤ length xs
  length-keep-le p [] = omega arith
  length-keep-le p (x ∷ xs) = ground (arith, length-keep-le p xs)

  pub All-append {κ} :
      (P : A → Type κ) (front back : List A) → All P front → All P back → All P (front ++ back)
  All-append P [] back h g = g
  All-append P (a ∷ front) back h g = (h.0, All-append P front back h.1 g)

-- One of the elements of a list.
pub data IsIn {ℓ} {A : Type ℓ} (x : A) : List A → Type ℓ where
  here : {xs : List A} → IsIn x (x ∷ xs)
  there : {y : A} {xs : List A} → IsIn x xs → IsIn x (y ∷ xs)

-- What holds of all elements holds of each.
pub All-IsIn {ℓ κ} :
    {A : Type ℓ} {x : A} {xs : List A} (P : A → Type κ) → IsIn x xs → All P xs → P x
All-IsIn P here h = h.0
All-IsIn P (there i) h = All-IsIn P i h.1
