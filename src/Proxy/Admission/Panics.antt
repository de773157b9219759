-- ===== src/Proxy/Admission/Panics.antt =====
-- What a request leaves behind, whether its handler returns or panics.
use vibe_alfa_gen.Prelude.{
  ℕ, suc, ◌+◌, ◌≡◌, refl, ap, Bool, true, false, ◌&&◌, ltb, arith, String, if◌then◌else◌, ◌==◌,
  nat_eq, inl, inr, Bool-cases, ◌⊎◌,
}
use vibe_alfa_gen.Proxy.{write_error}
use vibe_alfa_gen.Proxy.Admission.{
  Semaphore, acquire_request, release, Handler, fresh_recorder, send, again, recovered, is_limited,
  request_operation, with_middleware, serve_acquired, Served,
}

-- A request that was turned away: its handler did not run.
pub record IsRefused (allowed : Bool) (sem : Semaphore) (s : Served) : Type 0 where
  pub full : (allowed && ltb sem.taken sem.capacity) ≡ false
  pub answer :
      s.written
      ≡ send fresh_recorder
          (again (if allowed then "concurrency_exceeded" else "rate_limit_exceeded"))

-- A request whose handler ran, with a slot if it needs one.
pub record IsHandled (next : Handler) (slots : ℕ) (sem : Semaphore) (s : Served) : Type 0 where
  pub holds : s.during.taken ≡ sem.taken + slots
  pub kept : (next fresh_recorder).1 ≡ false → s.written ≡ (next fresh_recorder).0
  pub partial :
      (next fresh_recorder).1 ≡ true
      → ((next fresh_recorder).0.status == 0) ≡ false
      → s.written ≡ (next fresh_recorder).0
  pub failed :
      (next fresh_recorder).1 ≡ true
      → ((next fresh_recorder).0.status == 0) ≡ true
      → s.written ≡ send (next fresh_recorder).0 (write_error 500 "internal_error")

IsHandled-of :
    (next : Handler) (slots : ℕ) (sem during after : Semaphore)
    → during.taken ≡ sem.taken + slots
    → IsHandled next slots sem
        (record { written = recovered (next fresh_recorder); during = during; after = after })
unfolding recovered
IsHandled-of next slots sem during after h = record {
  holds = h;
  kept = λ returned. rw returned refl;
  partial = λ panicked started. rw (panicked, started) refl;
  failed = λ panicked silent. rw (panicked, silent) refl;
}

abbrev taken : Semaphore → Semaphore
taken sem = record sem { taken = suc sem.taken }

released : (sem : Semaphore) → release (taken sem) ≡ sem
released sem = ap (λ n. record sem { taken = n }) (omega arith)

acquired_request :
    (next : Handler) (allowed : Bool) (sem : Semaphore)
    → let s = serve_acquired next sem (acquire_request allowed sem) in
      (s.after ≡ sem) × (IsRefused allowed sem s ⊎ IsHandled next 1 sem s)
unfolding acquire_request
acquired_request next false sem = (refl, inl (record { full = refl; answer = refl }))
acquired_request next true sem = elim (Bool-cases (ltb sem.taken sem.capacity)) [
  | inl e ↦
      rw e (
        released sem,
        inr (IsHandled-of next 1 sem (taken sem) (release (taken sem)) (omega arith)),
      )
  | inr e ↦ rw e (refl, inl (record { full = e; answer = refl }))
]

-- Whatever a handler does, the request leaves the semaphore as it was: the slot that it took is given back
-- after a panic, too. /process and /v1/generate are refused with 429 only where the limiter refuses or
-- no slot is free, and otherwise their handler holds one slot; the other handlers take none. What a
-- handler wrote stays, and where it panics before it wrote anything, 500 is written.
pub with_middleware-after :
    (next : Handler) (path : String) (allowed : Bool) (sem : Semaphore)
    → let s = with_middleware next path allowed sem in
      (s.after ≡ sem)
      × (if is_limited (request_operation path)
          then IsRefused allowed sem s ⊎ IsHandled next 1 sem s
          else IsHandled next 0 sem s)
unfolding with_middleware
with_middleware-after next path allowed sem =
    elim (Bool-cases (is_limited (request_operation path))) [
      | inl e ↦ rw e (acquired_request next allowed sem)
      | inr e ↦ rw e (refl, IsHandled-of next 0 sem sem sem (omega arith))
    ]
