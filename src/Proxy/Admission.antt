-- ===== src/Proxy/Admission.antt =====
-- internal/proxy/server.go: what stands before and after every handler: the limiter and the semaphore,
-- the recovery from a panic, and the status that is recorded.
pub mod Slots
pub mod Panics
use vibe_alfa_gen.Prelude.{
  ℕ, suc, ◌+◌, ◌-◌, Bool, true, false, not, ◌||◌, String, ltb, if◌then◌else◌, ◌==◌, string_eq,
  nat_eq, List, [], ◌∷◌, ◌++◌, ◌&&◌,
}
use vibe_alfa_gen.Proxy.{Response, Body, write_error}

unfoldable pub request_operation : String → String
request_operation path =
    if path == "/process"
    then "process"
    else if path == "/v1/generate"
    then "generate"
    else if path == "/live" || path == "/healthz"
    then "live"
    else if path == "/ready" || path == "/readyz"
    then "ready"
    else "other"

-- The semaphore: how many of its slots are taken, and of how many.
pub record Semaphore : Type 0 where
  pub taken : ℕ
  pub capacity : ℕ

abbrev pub again : String → Response
again code = record (write_error 429 code) { retry_after = true }

-- What acquireRequest does: it answers, or takes a slot.
pub data Acquired : Type 0 where
  rejected : Response → Acquired
  acquired : Semaphore → Acquired

-- Server.acquireRequest. `allowed` is what Limiter.Allow answers.
unfoldable pub acquire_request : Bool → Semaphore → Acquired
acquire_request allowed sem =
    if not allowed
    then rejected (again "rate_limit_exceeded")
    else if ltb sem.taken sem.capacity
    then acquired (record sem { taken = suc sem.taken })
    else rejected (again "concurrency_exceeded")

-- The receive from the semaphore: one slot less is taken.
abbrev pub release : Semaphore → Semaphore
release sem = record sem { taken = sem.taken - 1 }

-- recorder: the status that was written, 0 before one was, and the bodies that came after it.
pub record Recorder : Type 0 where
  pub status : ℕ
  pub bodies : List Body

abbrev pub fresh_recorder : Recorder
fresh_recorder = record { status = 0; bodies = [] }

unfoldable pub write_header : Recorder → ℕ → Recorder
write_header rw status = if rw.status == 0 then record rw { status = status } else rw

unfoldable pub write : Recorder → Body → Recorder
unfolding write_header
write rw body =
    let started : Recorder = if rw.status == 0 then write_header rw 200 else rw in
    record started { bodies = started.bodies ++ (body ∷ []) }

-- writeJSON on a recorder.
abbrev pub send : Recorder → Response → Recorder
send rw answer = write (write_header rw answer.status) answer.body

-- A handler writes to the recorder, and returns or panics.
abbrev pub Handler : Type 0
Handler = Recorder → Recorder × Bool

-- The deferred call of recover.
unfoldable pub recovered : Recorder × Bool → Recorder
unfolding write_header write
recovered (rw, panicked) =
    if panicked && rw.status == 0 then send rw (write_error 500 "internal_error") else rw

-- The status that recordRequest records.
unfoldable pub record_request : Recorder → ℕ
record_request rw = if rw.status == 0 then 200 else rw.status

abbrev pub is_limited : String → Bool
is_limited operation = operation == "process" || operation == "generate"

-- What a request leaves: what was written, the semaphore that its handler saw, and the semaphore after it.
pub record Served : Type 0 where
  pub written : Recorder
  pub during : Semaphore
  pub after : Semaphore

abbrev pub serve_acquired : Handler → Semaphore → Acquired → Served
serve_acquired next sem (rejected answer) = record {
  written = send fresh_recorder answer;
  during = sem;
  after = sem;
}
serve_acquired next sem (acquired taken) = record {
  written = recovered (next fresh_recorder);
  during = taken;
  after = release taken;
}

-- Server.withMiddleware around a handler, for a request that no other one meets.
unfoldable pub with_middleware : Handler → String → Bool → Semaphore → Served
unfolding write_header write recovered
with_middleware next path allowed sem =
    let limited = serve_acquired next sem (acquire_request allowed sem) in
    if is_limited (request_operation path)
    then limited
    else record { written = recovered (next fresh_recorder); during = sem; after = sem }
