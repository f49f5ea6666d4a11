-- ===== src/Server/Complete/Delivery.antt =====
-- What handleStepComplete of internal/orchestrator/server.go hands to the waiting dispatcher.
use ktsu.Prelude.{
  String, ◌≡◌, refl, ◌∙◌, true, false, ◌&&◌, Option, none, some, List, [], ◌∷◌, arith, str_eq,
  eq_iff, if◌then◌else◌, Bool-cases, inl, inr, ◌⊎◌,
}
use ktsu.Prelude.Map.{Map, lookup}
use ktsu.Prelude.Strings.{has_prefix}
use ktsu.Value.{Value}
use ktsu.Value.Float.{zero_float}
use ktsu.Output.Reserved.{
  reserved_message, reserved_prefix, ReservedFields, ReservedError, Processed, clean, refused,
  process_reserved,
}
use ktsu.Output.Airlock.{valid, check_required, required_of, validate, validate_input}
use ktsu.Output.Clean.{lookup-process, validate-process}
use ktsu.Agent.Records.{CallbackPayload}
use ktsu.Server.World.{
  World, Waiter, is_for, Sent, no_waiter, signal, send_sent, send_waiters, sent_to, filled,
}
use ktsu.Server.Complete.{
  check_output, after_reserved, failed_with, accumulate, handle_step_complete, reply_of,
}

no_schema : (out : Map Value) → validate_input out none ≡ valid
unfolding validate_input check_required required_of
no_schema out = refl

after_reserved_cases :
    (raw : Map Value) (x : Processed) (p : CallbackPayload)
    → process_reserved raw zero_float ≡ x
    → ((e : ReservedError) × (x ≡ refused e)
        × (after_reserved x p ≡ failed_with (reserved_message e) p))
      ⊎ ((out : Map Value) × (reserved : ReservedFields) × (reason : String) × (x
            ≡ clean out reserved reason)
          × (after_reserved x p ≡ record p {
            status = if str_eq reason "" then p.status else "skipped";
            output = some out;
          }))
after_reserved_cases raw (refused e) p h = inl (e, refl, refl)
after_reserved_cases raw (clean out reserved reason) p h =
    let passed : validate out none (some reserved) ≡ valid =
      validate-process raw zero_float out reserved reason none h ∙ no_schema out in
    inr (
      out,
      reserved,
      reason,
      refl,
      elim (Bool-cases (str_eq reason "")) [ inl e ↦ rw (e, passed) refl | inr e ↦ rw e refl ],
    )

-- The output of a step that reports "ok" is either refused, for a raised flag or the confidence, and the
-- dispatcher gets a failure without an output; or it is passed on with exactly the fields of
-- the raw output whose names do not start with the reserved prefix, as skipped if a reason for a skip is
-- given. The air-lock never refuses here.
pub check_output_lem :
    (raw : Map Value) (p : CallbackPayload)
    → str_eq p.status "ok" ≡ true
    → ((e : ReservedError) × (process_reserved raw zero_float ≡ refused e)
        × (check_output (some raw) p
            ≡ record p { status = "failed"; error = reserved_message e; output = none }))
      ⊎ ((out : Map Value) × (reserved : ReservedFields) × (reason : String) × (process_reserved raw
              zero_float
            ≡ clean out reserved reason)
          × (check_output (some raw) p ≡ record p {
            status = if str_eq reason "" then p.status else "skipped";
            output = some out;
          })
          × ((k : String)
              → lookup k out ≡ (if has_prefix k reserved_prefix then none else lookup k raw)))
unfolding check_output
check_output_lem raw p good =
    elim (after_reserved_cases raw (process_reserved raw zero_float) p refl) [
      | inl (e, x, y) ↦ inl (e, x, rw good y)
      | inr (out, reserved, reason, x, y) ↦
          inr (
            out,
            reserved,
            reason,
            x,
            rw good y,
            lookup-process raw zero_float out reserved reason x,
          )
    ]

-- The channel of a step, and what is in it.
abbrev pub buffer_of : String → String → List Waiter → Option (Option CallbackPayload)
buffer_of run_id step_id [] = none
buffer_of run_id step_id (w ∷ ws) =
    if is_for run_id step_id w then some w.buffer else buffer_of run_id step_id ws

abbrev pub sent_by : Option (Option CallbackPayload) → Sent
sent_by none = no_waiter
sent_by (some b) = sent_to b

abbrev pub put : CallbackPayload → Option (Option CallbackPayload) → Option (Option CallbackPayload)
put p none = none
put p (some none) = some (some p)
put p (some (some q)) = some (some q)

signal_sent : (r s : String) (ws : List Waiter) → send_sent r s ws ≡ sent_by (buffer_of r s ws)
unfolding send_sent
signal_sent r s [] = refl
signal_sent r s (w ∷ ws) = elim (Bool-cases (is_for r s w)) [
  | inl e ↦ rw e refl
  | inr e ↦ rw e (signal_sent r s ws)
]

filled-fields :
    (w : Waiter) (p : CallbackPayload)
    → ((filled w p).run_id ≡ w.run_id)
      × ((filled w p).step_id ≡ w.step_id)
      × (some (filled w p).buffer ≡ put p (some w.buffer))
filled-fields w p = ground arith

is_for-same :
    (r s x y : String) (w : Waiter)
    → is_for r s w ≡ true
    → is_for x y w ≡ (str_eq r x && str_eq s y)
is_for-same r s x y w e =
    let (run_, step_) : (w.run_id ≡ r) × (w.step_id ≡ s) =
      ground (arith, eq_iff w.run_id r, eq_iff w.step_id s) in
    rw (run_, step_) refl

is_for-other :
    (r s x y : String) (w : Waiter)
    → is_for r s w ≡ false
    → is_for x y w ≡ true
    → (str_eq r x && str_eq s y) ≡ false
is_for-other r s x y w e f = ground (
  arith,
  eq_iff w.run_id r,
  eq_iff w.step_id s,
  eq_iff w.run_id x,
  eq_iff w.step_id y,
  eq_iff r x,
  eq_iff s y,
)

is_for-fields :
    (x y : String) (v w : Waiter)
    → v.run_id ≡ w.run_id
    → v.step_id ≡ w.step_id
    → is_for x y v ≡ is_for x y w
is_for-fields x y v w e f = rw (e, f) refl

buffer_of-signal :
    (r s : String) (p : CallbackPayload) (ws : List Waiter) (x y : String)
    → buffer_of x y (send_waiters r s p ws)
      ≡ (if str_eq r x && str_eq s y then put p (buffer_of x y ws) else buffer_of x y ws)
unfolding send_waiters
buffer_of-signal r s p [] x y = ground arith
buffer_of-signal r s p (w ∷ ws) x y = elim (Bool-cases (is_for r s w)) [
  | inl e ↦
      let (run_, step_, kept) = filled-fields w p in
      let same : is_for x y w ≡ (str_eq r x && str_eq s y) = is_for-same r s x y w e in
      let also : is_for x y (filled w p) ≡ (str_eq r x && str_eq s y) =
        is_for-fields x y (filled w p) w run_ step_ ∙ same in
      rw (e, also, same)
        (elim (Bool-cases (str_eq r x && str_eq s y)) [ inl b ↦ rw b kept | inr b ↦ rw b refl ])
  | inr e ↦
      rw (e, buffer_of-signal r s p ws x y)
        (elim (Bool-cases (is_for x y w)) [
          | inl f ↦ rw (f, is_for-other r s x y w e f) refl
          | inr f ↦ rw f refl
        ])
]

-- A callback that suspends nothing: with no channel for the step it is dropped and answered 200; into an empty
-- channel goes the checked output, with the metrics of the leg before an approval on a resume, and the
-- answer is 200; behind a full channel the handler blocks without an answer and the payload that
-- was there stays. No other channel, no request, timer or notification, and nothing of the store
-- changes.
pub handle_step_complete_lem :
    (r s : String) (p : CallbackPayload) (w : World)
    → str_eq p.status "pending_approval" ≡ false
    → let (reply, v) = handle_step_complete r s p w in
      (reply ≡ reply_of (sent_by (buffer_of r s w.waiters)))
      × ((x y : String)
          → buffer_of x y v.waiters ≡ (
              if str_eq r x && str_eq s y
              then put (accumulate w.store r s (check_output p.output p)) (buffer_of x y w.waiters)
              else buffer_of x y w.waiters))
      × (v ≡ record w { waiters = v.waiters })
unfolding handle_step_complete signal
handle_step_complete_lem r s p w other =
    let q = accumulate w.store r s (check_output p.output p) in
    (
      rw (other, signal_sent r s w.waiters) refl,
      λ x y. rw (other, buffer_of-signal r s q w.waiters x y) refl,
      rw other refl,
    )
