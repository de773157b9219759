-- ===== src/Domain/Results.antt =====
-- Calls in a row that all succeed.
use vibe_alfa_gen.Prelude.{◌≡◌, refl}
use vibe_alfa_gen.Domain.{Result, ok, err, ◌>>=◌, ◌>>◌}

pub >>=-eq-ok :
    {A B : Type 0} (x : Result A) (f : A → Result B) (b : B)
    → (x >>= f) ≡ ok b
    → (a : A) × (x ≡ ok a) × (f a ≡ ok b)
>>=-eq-ok (ok a) f b h = (a, refl, h)
>>=-eq-ok (err e) f b h = absurd (cc h)

-- The same, where the first call returns an error alone.
pub >>-eq-ok :
    {B : Type 0} (x : Result (Unit {0})) (y : Result B) (b : B)
    → (x >> y) ≡ ok b
    → (x ≡ ok tt) × (y ≡ ok b)
>>-eq-ok (ok u) y b h = (refl, h)
>>-eq-ok (err e) y b h = absurd (cc h)

pub ok-value : {A : Type 0} {x y : A} → ok x ≡ ok y → x ≡ y
ok-value p = cc p
