-- ===== src/Server/Decide.antt =====
-- handleDecideApproval and runApprovalTimeout of internal/orchestrator/server.go. Each reads the
-- approval first and writes it later; what runs between the two is another handler's.
pub mod Effects
pub mod Once
pub mod Race
pub mod Resumed
use ktsu.Prelude.{
  ℕ, String, Bool, true, false, not, ◌&&◌, ◌||◌, Option, none, some, List, [], ◌∷◌, str_eq,
  if◌then◌else◌,
}
use Prim.Native.String.{◌++◌ as append}
use ktsu.State.Records.{Approval}
use ktsu.State.Status
use ktsu.State.MemStore.{Result, ok, err, get_approval, update_approval}
use ktsu.Agent.Records.{InvokeRequest}
use ktsu.Server.World.{Failure, World, Runtime, Sent, delivered, no_waiter, blocked, Reply}
use ktsu.Server.Redispatch.{redispatch_approved, redispatch_rejected, signal_step_failed}
use ktsu.Server.Complete.{reply_of}

-- What GetApproval and the test of the status leave: an answer, or the approval to decide.
pub data Read : Type 0 where
  answer : ℕ → Read
  undecided : Approval InvokeRequest → Read

abbrev pub read_result : Result (Approval InvokeRequest) → Read
read_result (err e) = answer 404
read_result (ok a) = if str_eq a.status Status.pending then undecided a else answer 409

abbrev pub is_decision : String → Bool
is_decision d = str_eq d "approved" || str_eq d "rejected"

-- The handler up to its last return of an error without a write; `decision` is the body's field, ""
-- where the body does not decode.
unfoldable pub decide_read : String → String → String → World → Read
decide_read decision run_id step_id w =
    if is_decision decision then read_result (get_approval run_id step_id w.store) else answer 400

abbrev pub decided : String → ℕ → Approval InvokeRequest → Approval InvokeRequest
decided status now a = record a { status = status; decided_at = some now }

-- approval.Status = status; approval.DecidedAt = &now; UpdateApproval(approval)
abbrev pub write_status : String → Approval InvokeRequest → World → Result (Unit {0}) × World
write_status status a w =
    let (result, store) = update_approval (decided status w.now a) w.store in
    (result, record w { store = store })

abbrev reply_dispatch : Option Failure × World → Reply × World
reply_dispatch (none, w) = (some 200, w)
reply_dispatch (some e, w) = (some 500, w)

abbrev reply_sent : Sent × World → Reply × World
reply_sent (sent, w) = (reply_of sent, w)

abbrev if_written : Result (Unit {0}) × World → (World → Reply × World) → Reply × World
if_written (ok _, w) k = k w
if_written (err e, w) k = (some 500, w)

-- The handler from its write on.
unfoldable pub decide_write : Runtime → String → Approval InvokeRequest → World → Reply × World
decide_write runtime decision a w =
    if str_eq decision "approved"
    then if_written (write_status Status.approved a w)
        (λ v. reply_dispatch (redispatch_approved runtime (decided Status.approved w.now a) v))
    else if_written (write_status Status.rejected a w)
        (λ v. reply_sent (redispatch_rejected runtime (decided Status.rejected w.now a) v))

abbrev pub decide_rest : Read → Runtime → String → World → Reply × World
decide_rest (answer code) runtime decision w = (some code, w)
decide_rest (undecided a) runtime decision w = decide_write runtime decision a w

-- handleDecideApproval, with nothing in between.
unfoldable pub handle_decide_approval : Runtime → String → String → String → World → Reply × World
handle_decide_approval runtime decision run_id step_id w =
    decide_rest (decide_read decision run_id step_id w) runtime decision w

-- runApprovalTimeout behind the timer: the read, and the rest. The error of UpdateApproval is dropped.
unfoldable pub timeout_read : String → String → World → Read
timeout_read run_id step_id w = read_result (get_approval run_id step_id w.store)

unfoldable pub timeout_write :
    Runtime → String → String → String → Approval InvokeRequest → World → World
timeout_write runtime run_id step_id behavior a w =
    let expired = decided Status.timeout w.now a in
    let v = (write_status Status.timeout a w).1 in
    if str_eq behavior "reject"
    then (redispatch_rejected runtime expired v).1
    else (signal_step_failed run_id step_id (append "approval timed out: " a.tool_name)
        a.partial_metrics v).1

abbrev pub timeout_rest : Read → Runtime → String → String → String → World → World
timeout_rest (answer code) runtime run_id step_id behavior w = w
timeout_rest (undecided a) runtime run_id step_id behavior w =
    timeout_write runtime run_id step_id behavior a w

unfoldable pub run_approval_timeout : Runtime → String → String → String → World → World
run_approval_timeout runtime run_id step_id behavior w =
    timeout_rest (timeout_read run_id step_id w) runtime run_id step_id behavior w
