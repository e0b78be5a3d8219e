-- ===== src/Conformance/Dispatch.antt =====
-- A request that examples/conformance.rs makes of a worker is answered, or refused with a reason.
use openworkers_runtime_nova.Prelude.{ℕ, ◌≡◌, Option, some, List, map, Result, ok, err}
use openworkers_runtime_nova.Bindings.{HttpResponse, ResponseBody}
use openworkers_runtime_nova.Engine.{Platform}
use openworkers_runtime_nova.Worker.{Worker, Reason, Run, done}
use openworkers_runtime_nova.Exec.{Wire, Sent, response}
use openworkers_runtime_nova.Conformance.Driver.{Answer, Client, header_line}

module _ {S F J W O M X R : Type 0} (platform : Platform S J F W O) (wire : Wire M X R) where
  -- A fetch that succeeds has sent a response whose body is bytes; one that fails, nothing.
  abbrev Replied : Result (Unit {0}) Reason → Option (Sent R) → Type 0
  Replied (ok _) sent =
      (r : HttpResponse) × (b : List ℕ) × (sent ≡ some (response r))
      × (r.body ≡ ResponseBody.bytes_body b)
  Replied (err reason) sent = Unit

  abbrev RepliedRun : Run (Result (Unit {0}) Reason × Option (Sent R) × Worker S F J W O) → Type 0
  RepliedRun (done (r, sent, u)) = Replied r sent
  RepliedRun _ = Unit

  module _ (client : Client M) (fuel : ℕ) where
    -- What a request of the driver is answered with, where its worker has done the event.
    abbrev pub AnsweredAs :
        Result (Unit {0}) Reason
        → Option (Sent R)
        → Worker S F J W O
        → Run (Result Answer Reason × Worker S F J W O)
        → Type 0
    AnsweredAs (err reason) sent u o = o ≡ done (err reason, u)
    AnsweredAs (ok _) sent u o =
        (r : HttpResponse) × (b : List ℕ) × (sent ≡ some (response r))
        × (o
            ≡ done (
              ok (record { status = r.status; headers = map header_line r.headers; body = b }),
              u,
            ))
