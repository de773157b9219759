-- ===== src/Proxy/Admission/Slots.antt =====
-- The slots of the semaphore, for any number of requests that run at once.
use vibe_alfa_gen.Prelude.{
  ℕ, suc, ◌≤◌, ◌<◌, ◌≡◌, refl, sym, ap, ◌∙◌, Bool, true, false, List, [], ◌∷◌, ltb, arith,
  if◌then◌else◌, ◌==◌, nat_eq, length, inl, inr, Bool-cases, contains, beq_refl,
}
use vibe_alfa_gen.Proxy.{Response, ServerConfig, new_server}
use vibe_alfa_gen.Proxy.Admission.{
  Semaphore, Acquired, rejected, acquired, acquire_request, release,
}

-- The semaphore, and the requests whose handlers run.
pub record Service : Type 0 where
  pub sem : Semaphore
  pub running : List ℕ

abbrev pub started : ServerConfig → Service
started cfg = record {
  sem = record { taken = 0; capacity = (new_server cfg).concurrency_limit };
  running = [];
}

-- A list of requests without the first one that has this number.
unfoldable pub without : ℕ → List ℕ → List ℕ
without i [] = []
without i (j ∷ js) = let rest = j ∷ without i js in if i == j then js else rest

-- One request comes or goes: it is admitted, turned away, or ends, whether it returns or panics.
pub data Step (a b : Service) : Type 0 where
  admitted :
      (i : ℕ) (allowed : Bool) (sem : Semaphore)
      → acquire_request allowed a.sem ≡ acquired sem
      → b ≡ record { sem = sem; running = i ∷ a.running }
      → Step a b
  turned_away :
      (allowed : Bool) (answer : Response)
      → acquire_request allowed a.sem ≡ rejected answer
      → b ≡ a
      → Step a b
  ended :
      (i : ℕ)
      → contains a.running i ≡ true
      → b ≡ record { sem = release a.sem; running = without i a.running }
      → Step a b

pub data Reach (a : Service) : Service → Type 0 where
  here : Reach a a
  next : {b c : Service} → Reach a b → Step b c → Reach a c

-- Each request that runs has a slot of its own.
pub record IsHeld (capacity : ℕ) (a : Service) : Type 0 where
  pub each : a.sem.taken ≡ length a.running
  pub fits : a.sem.taken ≤ capacity
  pub whole : a.sem.capacity ≡ capacity

acquired-injective : {x y : Semaphore} → acquired x ≡ acquired y → x ≡ y
acquired-injective p = cc p

acquire_request-acquired :
    (allowed : Bool) (sem sem' : Semaphore)
    → acquire_request allowed sem ≡ acquired sem'
    → (sem.taken < sem.capacity) × (sem' ≡ record sem { taken = suc sem.taken })
unfolding acquire_request
acquire_request-acquired false sem sem' h = absurd (cc h)
acquire_request-acquired true sem sem' h = elim (Bool-cases (ltb sem.taken sem.capacity)) [
  | inl e ↦ (ground arith, sym (acquired-injective (rw e at h)))
  | inr e ↦ absurd (cc (rw e at h))
]

length-without :
    (i : ℕ) (js : List ℕ) → contains js i ≡ true → suc (length (without i js)) ≡ length js
unfolding without contains
length-without i [] h = absurd (cc h)
length-without i (j ∷ js) h = ground (arith, length-without i js)

Step-IsHeld : (n : ℕ) (a b : Service) → IsHeld n a → Step a b → IsHeld n b
Step-IsHeld n a b held (admitted i allowed sem got eq) =
    let (room, taken) = acquire_request-acquired allowed a.sem sem got in
    rw (eq, taken)
      (record {
        each = ap suc held.each;
        fits = omega (arith, room, held.whole);
        whole = held.whole;
      })
Step-IsHeld n a b held (turned_away allowed answer refused eq) = rw eq held
Step-IsHeld n a b held (ended i runs eq) =
    let less = length-without i a.running runs in
    rw eq (record {
      each = omega (arith, less, held.each);
      fits = omega (arith, held.fits);
      whole = held.whole;
    })

positive_limit : (cfg : ServerConfig) → 0 < (new_server cfg).concurrency_limit
unfolding new_server
positive_limit cfg = ground arith

Reach-IsHeld :
    (cfg : ServerConfig) (a : Service)
    → Reach (started cfg) a
    → IsHeld (new_server cfg).concurrency_limit a
Reach-IsHeld cfg a here = record { each = refl; fits = omega arith; whole = refl }
Reach-IsHeld cfg a (next {b = b} reached step) =
    Step-IsHeld (new_server cfg).concurrency_limit b a (Reach-IsHeld cfg b reached) step

abbrev pub admits : Acquired → Bool
admits (rejected _) = false
admits (acquired _) = true

admits-acquire_request :
    (sem : Semaphore) → admits (acquire_request true sem) ≡ ltb sem.taken sem.capacity
unfolding acquire_request
admits-acquire_request sem = elim (Bool-cases (ltb sem.taken sem.capacity)) [
  | inl e ↦ rw e refl
  | inr e ↦ rw e refl
]

-- How a server that takes `n` requests at once stands.
pub record IsOpen (n : ℕ) (a : Service) : Type 0 where
  pub bounded : length a.running ≤ n
  pub room : admits (acquire_request true a.sem) ≡ ltb (length a.running) n
  pub again :
      (i : ℕ) → contains a.running i ≡ true → admits (acquire_request true (release a.sem)) ≡ true
  pub busy : admits (acquire_request true a.sem) ≡ false → (i : ℕ) × (contains a.running i ≡ true)

some_running : (js : List ℕ) → 0 < length js → (i : ℕ) × (contains js i ≡ true)
unfolding contains
some_running [] h = absurd (omega arith)
some_running (j ∷ js) h = (j, rw (beq_refl j) refl)

-- However requests came, were turned away and ended: no more of them run than the configuration
-- allows, a request that the limiter allows is admitted exactly while fewer run, and where it is
-- not there is a request that runs, and it is admitted once any one of those ends.
pub Reach-IsOpen :
    (cfg : ServerConfig) (a : Service)
    → Reach (started cfg) a
    → IsOpen (new_server cfg).concurrency_limit a
Reach-IsOpen cfg a reached =
    let held = Reach-IsHeld cfg a reached in
    let room = admits-acquire_request a.sem in
    let positive = positive_limit cfg in
    record {
      bounded = omega (arith, held.each, held.fits);
      room = rw (room, held.each, held.whole) refl;
      again = λ i runs.
          admits-acquire_request (release a.sem)
          ∙ ground
              (arith, held.each, held.fits, held.whole, length-without i a.running runs, positive);
      busy = λ full.
          some_running a.running
            (ground (arith, room, full, held.each, held.fits, held.whole, positive));
    }
