-- ===== src/Server/Examples/Delivered.antt =====
-- What reaches the dispatcher on these worlds.
use ktsu.Prelude.{
  String, ◌≡◌, refl, true, false, ◌&&◌, none, some, [], ◌∷◌, str_eq, if◌then◌else◌, ◌⊎◌,
}
use ktsu.Prelude.Map.{Map, lookup}
use ktsu.Prelude.Strings.{has_prefix}
use ktsu.Value.{Value, str}
use ktsu.Value.Float.{zero_float, float_add}
use ktsu.Output.Reserved.{
  reserved_message, reserved_prefix, ReservedFields, ReservedError, clean, refused,
  process_reserved,
}
use ktsu.State.MemStore.{get_approval}
use ktsu.State.MemStore.Laws.{is_ok}
use ktsu.Agent.Records.{CallbackPayload}
use ktsu.Server.Complete.{check_output, reply_of, accumulate, handle_step_complete}
use ktsu.Server.Complete.Delivery.{
  buffer_of, sent_by, put, check_output_lem, handle_step_complete_lem,
}
use ktsu.Server.Decide.Once.{completed, decision, timed_out, on_events}
use ktsu.Server.Decide.Resumed.{resumed_totals}
use ktsu.Server.Examples.{
  callback, spent, waiting, runtime, suspending, asking, program, empty-IsKeyed,
}

abbrev answer_fields : Map Value
answer_fields = ("label", str "bug") ∷ ("ktsu_rationale", str "seen") ∷ []

check_output_lem_example :
    let p = callback "ok" (some answer_fields) in
    ((e : ReservedError) × (process_reserved answer_fields zero_float ≡ refused e)
      × (check_output (some answer_fields) p
          ≡ record p { status = "failed"; error = reserved_message e; output = none }))
    ⊎ ((out : Map Value) × (reserved : ReservedFields) × (reason : String) × (process_reserved
            answer_fields zero_float
          ≡ clean out reserved reason)
        × (check_output (some answer_fields) p
            ≡ record p { status = if str_eq reason "" then "ok" else "skipped"; output = some out })
        × ((k : String)
            → lookup k out
              ≡ (if has_prefix k reserved_prefix then none else lookup k answer_fields)))
check_output_lem_example = check_output_lem answer_fields (callback "ok" (some answer_fields)) refl

handle_step_complete_lem_example :
    let p = callback "ok" (some answer_fields) in
    let (reply, v) = handle_step_complete "r1" "ask" p waiting in
    (reply ≡ reply_of (sent_by (buffer_of "r1" "ask" waiting.waiters)))
    × ((x y : String)
        → buffer_of x y v.waiters ≡ (
            if str_eq "r1" x && str_eq "ask" y
            then put
                (accumulate waiting.store "r1" "ask" (check_output (some answer_fields) p))
                (buffer_of x y waiting.waiters)
            else buffer_of x y waiting.waiters))
    × (v ≡ record waiting { waiters = v.waiters })
handle_step_complete_lem_example =
    handle_step_complete_lem "r1" "ask" (callback "ok" (some answer_fields)) waiting refl

abbrev resumed : CallbackPayload
resumed = record (callback "ok" none) { is_resume = true }

-- The step asks, is approved, its timer fires late, and the resume delivers.
asked_and_approved :
    buffer_of "r1" "ask"
      (on_events runtime
        (completed "r1" "ask" suspending
          ∷ decision "approved" "r1" "ask"
          ∷ timed_out "r1" "ask" "reject"
          ∷ [])
        waiting).waiters
    ≡ some none
unfolding program
asked_and_approved = refl

waiting_fresh : is_ok (get_approval "r1" "ask" waiting.store) ≡ false
unfolding program
waiting_fresh = refl

resumed_totals_example :
    let (reply, v) = handle_step_complete "r1" "ask" resumed (
      on_events runtime
        (completed "r1" "ask" suspending
          ∷ decision "approved" "r1" "ask"
          ∷ timed_out "r1" "ask" "reject"
          ∷ [])
        waiting) in
    (reply ≡ some 200)
    × (buffer_of "r1" "ask" v.waiters
        ≡ some (
            some (record (check_output none resumed) {
              metrics = record (spent 5) {
                tokens_in = 10;
                tokens_out = 0;
                cost_usd = float_add zero_float zero_float;
                llm_calls = 2;
                tool_calls = 0;
              };
            })))
resumed_totals_example =
    resumed_totals runtime "approved" "r1" "ask" suspending resumed asking waiting
      (timed_out "r1" "ask" "reject" ∷ []) empty-IsKeyed waiting_fresh refl refl refl
      asked_and_approved refl refl
